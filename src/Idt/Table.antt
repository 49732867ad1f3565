-- ===== src/Idt/Table.antt =====
-- What the processor reads in the table.
use kmd.Base.{
  ℕ, zero, suc, ◌+◌, ◌*◌, ◌^◌, ◌≤◌, ◌<◌, ◌≡◌, ◌≢◌, ◌∙◌, refl, ap, ◌==◌, ==_iff, ==_false→ne, Bool,
  not, Bool-cases, inl, inr, arith, bit_and, u8, ◌>>>◌,
}
use kmd.Base.Bits.{bit_and_low}
use kmd.Idt.{Gate, Idt, idt_entry_present, fill_gate, set_entry, flags_of, set_entries, init}

-- The address that the processor puts together from the three parts.
abbrev pub offset : Gate → ℕ
offset g = g.offset_low + g.offset_middle * 2 ^ 16 + g.offset_high * 2 ^ 32

abbrev pub is_present : Gate → Bool
is_present g = not (bit_and g.flags idt_entry_present == 0)

-- The parts of a 64-bit address give it back.
pub offset-fill_gate :
    (g : Gate) (address flags : ℕ) → address < 2 ^ 64 → offset (fill_gate g address flags) ≡ address
unfolding fill_gate
offset-fill_gate g address flags h = omega (
  arith,
  bit_and_low 16 address,
  bit_and_low 16 (address >>> 16),
  bit_and_low 32 (address >>> 32),
)

set_entry-other :
    (j address flags : ℕ) (idt : Idt) (i : ℕ)
    → j < 256
    → i ≢ j
    → set_entry j address flags idt i ≡ idt i
unfolding set_entry
set_entry-other j address flags idt i h ne = ground arith

set_entry_self :
    (i address flags : ℕ) (idt : Idt)
    → i < 256
    → set_entry i address flags idt i ≡ fill_gate (idt i) address (u8 flags)
unfolding set_entry
set_entry_self i address flags idt h = ground arith

module _ (stub : ℕ → ℕ) where
  set_entries-before :
      (n j : ℕ) (idt : Idt) (i : ℕ) → j + n ≤ 256 → i < j → set_entries stub n j idt i ≡ idt i
  unfolding set_entries
  set_entries-before zero j idt i h lt = refl
  set_entries-before (suc n) j idt i h lt =
      set_entries-before n (j + 1) _ i (omega arith) (omega arith)
      ∙ set_entry-other j (stub j) (flags_of j) idt i (omega arith) (omega arith)

  set_entries-gate :
      (n j : ℕ) (idt : Idt) (i : ℕ)
      → j + n ≤ 256
      → j ≤ i
      → i < j + n
      → set_entries stub n j idt i ≡ fill_gate (idt i) (stub i) (u8 (flags_of i))
  unfolding set_entries
  set_entries-gate zero j idt i h from to = absurd (omega arith)
  set_entries-gate (suc n) j idt i h from to = elim (Bool-cases (j == i)) [
    | inl same ↦
        let e : j ≡ i = (==_iff j i).0 same in
        set_entries-before n (j + 1) _ i (omega arith) (omega arith)
        ∙ rw e (set_entry_self i (stub i) (flags_of i) idt (omega arith))
    | inr other ↦
        let ne = ==_false→ne j i other in
        set_entries-gate n (j + 1) _ i (omega arith) (omega arith) (omega arith)
        ∙ ap (λ (g : Gate). fill_gate g (stub i) (u8 (flags_of i)))
            (set_entry-other j (stub j) (flags_of j) idt i (omega arith) (omega arith))
  ]

  present-flags : (i : ℕ) → not (bit_and (u8 (flags_of i)) idt_entry_present == 0) ≡ not (i == 8)
  unfolding flags_of
  present-flags i = elim (Bool-cases (i == 8)) [ inl e ↦ rw e | inr e ↦ rw e ]

  -- After `init` every one of the 256 vectors leads to its stub in the kernel's code segment, and
  -- it is present exactly if it is not vector 8, the double fault.
  pub init-gates :
      (base : ℕ) (idt : Idt) (i : ℕ)
      → i < 256
      → stub i < 2 ^ 64
      → (offset ((init stub base idt).0 i) ≡ stub i)
        × (((init stub base idt).0 i).selector ≡ 8)
        × (is_present ((init stub base idt).0 i) ≡ not (i == 8))
  unfolding init
  init-gates base idt i h fits =
      rw (set_entries-gate 256 0 idt i (omega arith) (omega arith) (omega arith)) (
        offset-fill_gate (idt i) (stub i) (u8 (flags_of i)) fits,
        (unfold fill_gate in refl),
        (unfold fill_gate in present-flags i),
      )
