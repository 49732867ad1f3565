-- ===== src/ParseMmap/Records.antt =====
-- The records of pages that `parseMmap` of src/mm/mm.cpp writes for an entry of the memory map.
use kmd.Base.{
  ℕ, zero, suc, ◌+◌, ◌-◌, ◌*◌, ◌^◌, ◌≤◌, ◌<◌, ◌≡◌, ◌⊎◌, inl, inr, ◌∙◌, refl, Bool, arith, some, u64,
  lt→ltb, le→ltb_false, ◌==◌, ==_refl, ap, subst, false,
}
use kmd.Kernel.{Page}
use kmd.Page.{update_page}
use kmd.BootPaging.PhySize.{whole_pages}
use kmd.ParseMmap.{record_loop}

-- The records from `p` to `p + n` are those of the pages from `addr` on, and no other has changed.
pub record Recorded (addr : ℕ) (available : Bool) (n p : ℕ) (pages pages' : ℕ → Page) : Type 0 where
  pub written :
      (j : ℕ)
      → j < n
      → pages' (p + j) ≡ record { base = addr + j * 2 ^ 12; references = 0; available = available }
  pub kept : (q : ℕ) → (q < p) ⊎ (p + n ≤ q) → pages' q ≡ pages q

abbrev pub record_of : ℕ → Bool → Page
record_of base available = record { base = base; references = 0; available = available }

Recorded-none :
    (addr : ℕ) (available : Bool) (p : ℕ) (pages : ℕ → Page)
    → Recorded addr available 0 p pages pages
Recorded-none addr available p pages = record {
  written = λ j h. absurd (omega arith);
  kept = λ q h. refl;
}

-- One page written before the others.
Recorded-suc :
    (addr : ℕ) (available : Bool) (n p : ℕ) (pages pages' : ℕ → Page)
    → Recorded
        (addr + 2 ^ 12)
        available
        n
        (p + 1)
        (update_page pages p (record_of addr available))
        pages'
    → Recorded addr available (suc n) p pages pages'
Recorded-suc addr available n p pages pages' r = record { written = written'; kept = kept' }
  where
    pages1 : ℕ → Page
    pages1 = update_page pages p (record_of addr available)

    written' : (j : ℕ) → j < suc n → pages' (p + j) ≡ record_of (addr + j * 2 ^ 12) available
    written' zero h =
        let here : p + 0 ≡ p = omega arith in
        let base : addr ≡ addr + 0 * 2 ^ 12 = omega arith in
        ap pages' here
        ∙ r.kept p (inl (omega arith))
        ∙ rw (==_refl p) (ap (λ b. record_of b available) base)
    written' (suc j) h =
        let there : p + suc j ≡ p + 1 + j = omega arith in
        let base : addr + 2 ^ 12 + j * 2 ^ 12 ≡ addr + suc j * 2 ^ 12 = omega arith in
        ap pages' there ∙ r.written j (omega arith) ∙ ap (λ b. record_of b available) base

    kept' : (q : ℕ) → (q < p) ⊎ (p + suc n ≤ q) → pages' q ≡ pages q
    kept' q h =
        let apart : (q == p) ≡ false = ground arith in
        r.kept q (elim h [ inl low ↦ inl (omega arith) | inr high ↦ inr (omega arith) ])
        ∙ rw apart refl

module _ (addr end : ℕ) (available : Bool) where
  record_loop-zero :
      (fuel j p : ℕ) (pages : ℕ → Page)
      → end ≤ addr + j * 2 ^ 12
      → addr + j * 2 ^ 12 < 2 ^ 64
      → record_loop (suc fuel) addr end available j p pages ≡ some (p, pages)
  unfolding record_loop
  record_loop-zero fuel j p pages h l =
      let base : u64 (addr + j * 2 ^ 12) ≡ addr + j * 2 ^ 12 = omega arith in
      rw (base, le→ltb_false (addr + j * 2 ^ 12) end h) refl

  record_loop-suc :
      (fuel j p : ℕ) (pages : ℕ → Page)
      → addr + j * 2 ^ 12 < end
      → end + 2 ^ 12 ≤ 2 ^ 64
      → record_loop (suc fuel) addr end available j p pages
        ≡ record_loop fuel addr end available
            (j + 1)
            (p + 1)
            (update_page pages p (record_of (addr + j * 2 ^ 12) available))
  unfolding record_loop
  record_loop-suc fuel j p pages h l =
      let base : u64 (addr + j * 2 ^ 12) ≡ addr + j * 2 ^ 12 = omega arith in
      rw (base, lt→ltb (addr + j * 2 ^ 12) end h) refl

  abbrev Records : ℕ → ℕ → ℕ → ℕ → (ℕ → Page) → Type 0
  Records fuel n j p pages =
      (pages' : ℕ → Page) × (record_loop fuel addr end available j p pages ≡ some (p + n, pages'))
      × Recorded (addr + j * 2 ^ 12) available n p pages pages'

  record_loop-Records :
      (fuel n j p : ℕ) (pages : ℕ → Page)
      → whole_pages (end - (addr + j * 2 ^ 12)) ≡ n
      → end + 2 ^ 12 ≤ 2 ^ 64
      → addr + j * 2 ^ 12 < 2 ^ 64
      → n < fuel
      → Records fuel n j p pages
  record_loop-Records zero n j p pages e h l enough = absurd (omega arith)
  record_loop-Records (suc fuel) zero j p pages e h l enough =
      let here : p ≡ p + 0 = omega arith in
      (
        pages,
        record_loop-zero fuel j p pages (omega arith) l ∙ ap (λ p'. some (p', pages)) here,
        Recorded-none _ available p pages,
      )
  record_loop-Records (suc fuel) (suc n) j p pages e h l enough =
      let base : addr + (j + 1) * 2 ^ 12 ≡ addr + j * 2 ^ 12 + 2 ^ 12 = omega arith in
      let pages1 = update_page pages p (record_of (addr + j * 2 ^ 12) available) in
      let (pages', run, rest) =
        record_loop-Records fuel n (j + 1) (p + 1) pages1 (omega arith) h (omega arith)
          (omega arith) in
      let end_p : p + 1 + n ≡ p + suc n = omega arith in
      (
        pages',
        record_loop-suc fuel j p pages (omega arith) h ∙ run ∙ ap (λ p'. some (p', pages')) end_p,
        Recorded-suc _ available n p pages pages'
            (subst (λ b. Recorded b available n (p + 1) pages1 pages') base rest),
      )

-- The loop over the pages of an entry from `addr` to `end`, not within a page of the end of the
-- addresses, ends when it has written one record for each page of the entry, in order from record
-- `p` on, and no other; all are available or none is. A round for each page and one more is enough.
pub record_loop-Recorded :
    (fuel addr end : ℕ) (available : Bool) (p : ℕ) (pages : ℕ → Page)
    → addr < 2 ^ 64
    → end + 2 ^ 12 ≤ 2 ^ 64
    → whole_pages (end - addr) < fuel
    → (pages' : ℕ → Page) × (record_loop fuel addr end available 0 p pages
        ≡ some (p + whole_pages (end - addr), pages'))
      × Recorded addr available (whole_pages (end - addr)) p pages pages'
record_loop-Recorded fuel addr end available p pages h l enough =
    let first : addr + 0 * 2 ^ 12 ≡ addr = omega arith in
    let n = whole_pages (end - addr) in
    let (pages', run, rest) =
      record_loop-Records addr end available fuel n 0 p pages (omega arith) l (omega arith)
        enough in
    (pages', run, subst (λ b. Recorded b available n p pages pages') first rest)
