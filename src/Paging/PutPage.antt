-- ===== src/Paging/PutPage.antt =====
-- The end of `mapPage` in src/mm/mm.cpp: the entry of the last level.
use kmd.Base.{
  ℕ, ◌+◌, ◌%◌, ◌≤◌, ◌<◌, ◌≡◌, ◌∙◌, sym, ◌⊎◌, true, arith, bit_and, bit_or, ap, ◌∷◌, ==_iff,
}
use kmd.Base.Bits.{bit_and_low, bit_and_step}
use kmd.Memory.{Memory, load64}
use kmd.Kernel.{Kernel, ok, invlpg}
use kmd.PageMapEntry.{
  PageMapEntry, get_field, entry_at, get_address, get_option, set_address, put_option, set_option,
  pme_present,
}
use kmd.PageMapEntry.Address.{get_address-set_address, get_field-set_address}
use kmd.PageMapEntry.Options.{stored, get_option-put_option-true, get_address-put_option}
use kmd.Paging.{map_index, put_page}
use kmd.Paging.Index.{map_index-eq}
use kmd.Paging.Descent.{IsFrame, set_address-outside, put_option-outside}

-- The entry of `mapPage` in the map at `t`.
abbrev pub entry_in : ℕ → ℕ → ℕ → PageMapEntry
entry_in t dst level = entry_at t (map_index dst level)

-- Options that hold the present bit make the entry present.
present_of_flags :
    (m : Memory) (e : PageMapEntry) (flags : ℕ)
    → flags % 2 ≡ 1
    → get_option m e flags ≡ true
    → get_option m e pme_present ≡ true
unfolding get_option
present_of_flags m e flags odd h =
    let w = load64 m e.field in
    (==_iff (bit_and w 1) 1).1
      (omega (arith, bit_and_low 1 w, bit_and_step w flags, (==_iff (bit_and w flags) flags).0 h))

-- The state after the last entry is written.
abbrev pub put : Kernel → PageMapEntry → ℕ → ℕ → ℕ → Kernel
put k e dst base flags = record k {
  memory = put_option (set_address k.memory e base) e flags true;
  trace = invlpg base ∷ invlpg dst ∷ k.trace;
}

module _ (k : Kernel) (t dst base flags : ℕ) (frame : IsFrame base) (low : flags < 4096)
    (present : flags % 2 ≡ 1) where
  abbrev entry : PageMapEntry
  entry = entry_in t dst 1

  abbrev last : Kernel
  last = put k entry dst base flags

  abbrev addressed : Memory
  addressed = set_address k.memory entry base

  pub put-address : get_address last.memory entry ≡ base
  put-address =
      get_address-put_option addressed entry flags (omega arith) true low
      ∙ get_address-set_address k.memory entry base (omega (arith, frame.bounded)) frame.aligned

  -- The word that is written, from the one that was there.
  pub put-word :
      load64 last.memory entry.field ≡ bit_or (base + load64 k.memory entry.field % 4096) flags
  put-word =
      stored addressed entry flags (omega arith) true
      ∙ ap (λ x. bit_or x flags)
          (unfold get_field in
            get_field-set_address k.memory entry base (omega (arith, frame.bounded)) frame.aligned)

  pub put-flags : get_option last.memory entry flags ≡ true
  put-flags = get_option-put_option-true addressed entry flags (omega arith)

  pub put-present : get_option last.memory entry pme_present ≡ true
  put-present = present_of_flags last.memory entry flags present put-flags

  -- Writing the entry changes no other byte.
  pub put-outside : (x : ℕ) → (x < entry.field) ⊎ (entry.field + 8 ≤ x) → last.memory x ≡ k.memory x
  put-outside x out =
      put_option-outside addressed entry flags true x out
      ∙ set_address-outside k.memory entry base x out

  pub put_page-put : (p : ℕ) → (k.pages p).base ≡ base → put_page dst p flags t k ≡ ok tt last
  unfolding put_page
  put_page-put p same = rw (same, sym (map_index-eq dst 1), set_option, put-address)
