-- ===== src/Entry/Identity.antt =====
-- The mapping that src/entry/entry.s is run with.
use kmd.Base.{
  ℕ, suc, ◌+◌, ◌*◌, ◌/◌, ◌%◌, ◌^◌, ◌≤◌, ◌<◌, ◌≡◌, ◌≢◌, ◌∙◌, refl, ap, arith, true, false, ◌==◌,
  ==_iff, ne→==, ==_false→ne, Bool-cases, inl, inr, none, some, bit_and, bit_or,
}
use mathlib.Core.Option.{bind}
use kmd.Base.Bits.{bit_and-bit_or_self, bit_and_fields}
use kmd.Memory.{Memory, load64}
use kmd.Entry.{EntryState, tmp_pdp, tmp_pd, enable_paging, entry}
use kmd.Entry.Translate.{index, frame, is_large, walk, translate, walk-none, walk-large, walk-down}
use kmd.Entry.Tables.{OneEntry, Tables, temporary_tables-Tables}

-- A table with one entry, which leads to a table.
module _ (level : ℕ) (m : Memory) (table next address : ℕ) (one : OneEntry m table (next + 0xB))
    (aligned : next % 2 ^ 12 ≡ 0) (low : next < 2 ^ 32) where
  walk-first :
      index level address ≡ 0
      → is_large level (next + 0xB) ≡ false
      → walk (suc level) m table address ≡ walk level m next address
  walk-first at small =
      let first : table + 8 * index level address ≡ table = omega arith in
      let under : frame 12 (next + 0xB) ≡ next = omega arith in
      walk-down level m table address (next + 0xB) (ap (load64 m) first ∙ one.first) (omega arith)
        small
      ∙ ap (λ b. walk level m b address) under

  walk-other : index level address ≢ 0 → walk (suc level) m table address ≡ none
  walk-other at =
      walk-none level m table address 0
        (one.others (index level address) (omega arith) (omega arith)) refl

-- The last step, in the table of large pages.
walk-page :
    (t : ℕ) (m : Memory) (address : ℕ)
    → Tables t m
    → address < 2 ^ 30
    → walk 2 m (tmp_pd t) address ≡ some address
walk-page t m address tables small =
    let j = index 1 address in
    let whole : frame 21 (0x8B + j * 2 ^ 21) + address % 2 ^ 21 ≡ address = omega arith in
    let large : is_large 1 (0x8B + j * 2 ^ 21) ≡ true = (==_iff _ 1).1 (omega arith) in
    walk-large 1 m (tmp_pd t) address (0x8B + j * 2 ^ 21) (tables.second j (omega arith))
      (omega arith) large
    ∙ ap some whole

module _ (t : ℕ) (m : Memory) (aligned : t % 2 ^ 12 ≡ 0) (low : t + 3 * 2 ^ 12 ≤ 2 ^ 32)
    (tables : Tables t m) (address : ℕ) (canonical : address < 2 ^ 48) where
  fourth_level : index 3 address ≡ 0 → walk 4 m t address ≡ walk 3 m (tmp_pdp t) address
  fourth_level at =
      walk-first 3 m t (tmp_pdp t) address tables.fourth (omega arith) (omega arith) at refl

  third_level : index 2 address ≡ 0 → walk 3 m (tmp_pdp t) address ≡ walk 2 m (tmp_pd t) address
  third_level at =
      walk-first 2 m (tmp_pdp t) (tmp_pd t) address tables.third (omega arith) (omega arith) at
        (ne→== _ 1 (omega arith))

  translate-below : address < 2 ^ 30 → translate m t address ≡ some address
  unfolding translate
  translate-below small =
      fourth_level (omega arith) ∙ third_level (omega arith) ∙ walk-page t m address tables small

  translate-above : 2 ^ 30 ≤ address → translate m t address ≡ none
  unfolding translate
  translate-above big = elim (Bool-cases (index 3 address == 0)) [
    | inl first ↦
        let at : index 3 address ≡ 0 = (==_iff (index 3 address) 0).0 first in
        fourth_level at
        ∙ walk-other 2 m (tmp_pdp t) (tmp_pd t) address tables.third (omega arith) (omega arith)
            (omega arith)
    | inr other ↦
        walk-other 3 m t (tmp_pdp t) address tables.fourth (omega arith) (omega arith)
          (==_false→ne (index 3 address) 0 other)
  ]

-- When the tables of the entry are aligned, below 4 GB and zero, `entry` ends after 512 rounds of its
-- loop. Every address below 2 ^ 48 is then translated by `cr3` to itself when it is below 1 GB and
-- to nothing otherwise, and the bits for paging, for the address extension and for long mode are set.
pub entry-identity :
    (fuel t : ℕ) (p : EntryState)
    → t % 2 ^ 12 ≡ 0
    → t + 3 * 2 ^ 12 ≤ 2 ^ 32
    → ((x : ℕ) → t ≤ x → x < t + 3 * 2 ^ 12 → p.memory x ≡ 0)
    → 512 ≤ fuel
    → (q : EntryState) × (entry fuel t p ≡ some q)
      × ((address : ℕ) → address < 2 ^ 30 → translate q.memory q.cr3 address ≡ some address)
      × ((address : ℕ)
          → 2 ^ 30 ≤ address
          → address < 2 ^ 48
          → translate q.memory q.cr3 address ≡ none)
      × (bit_and q.cr0 (2 ^ 31) ≡ 2 ^ 31)
      × (bit_and q.cr4 (2 ^ 5) ≡ 2 ^ 5)
      × (bit_and q.efer (2 ^ 8) ≡ 2 ^ 8)
unfolding entry enable_paging bind
entry-identity fuel t p aligned low zeros enough =
    let (m, run, tables) = temporary_tables-Tables fuel t p.memory aligned low zeros enough in
    let lme : bit_and (p.efer / 2 ^ 32 * 2 ^ 32 + bit_or (p.efer % 2 ^ 32) (2 ^ 8)) (2 ^ 8)
        ≡ 2 ^ 8 =
      bit_and_fields 32 (p.efer / 2 ^ 32) (bit_or (p.efer % 2 ^ 32) (2 ^ 8)) (2 ^ 8) (omega arith)
      ∙ bit_and-bit_or_self (p.efer % 2 ^ 32) (2 ^ 8) in
    (
      enable_paging t (record p { memory = m }),
      rw run refl,
      (λ a small. translate-below t m aligned low tables a (omega arith) small),
      (λ a big canonical. translate-above t m aligned low tables a canonical big),
      bit_and-bit_or_self _ (2 ^ 31),
      bit_and-bit_or_self _ (2 ^ 5),
      lme,
    )
