-- ===== src/Paging/Space/Pool.antt =====
-- The free pages of the memory manager of src/mm/mm.cpp.
use kmd.Base.{
  ℕ, ◌+◌, ◌^◌, ◌≤◌, ◌<◌, ◌≡◌, ◌≢◌, ◌∙◌, sym, ap, true, false, arith, inl, inr, ◌==◌, Bool-cases,
  ==_iff, ==_false→ne, ne→==,
}
use mathlib.Core.Bool.{true≢false}
use kmd.Kernel.{Page}
use kmd.Page.{is_free, inc_references, update_page}
use kmd.Paging.Descent.{IsFrame, update_page-base}
use kmd.Paging.Tree.{FramesApart}

-- Free pages are pages with no byte in common, and each has the reference of its identity mapping.
pub record IsPool (pages : ℕ → Page) : Type 0 where
  pub frame : (p : ℕ) → is_free (pages p) ≡ true → IsFrame (pages p).base
  pub counted : (p : ℕ) → is_free (pages p) ≡ true → 1 ≤ (pages p).references
  pub distinct :
      (p q : ℕ)
      → is_free (pages p) ≡ true
      → is_free (pages q) ≡ true
      → p ≢ q
      → FramesApart (pages p).base (pages q).base

abbrev pub inc_at : (ℕ → Page) → ℕ → ℕ → Page
inc_at pages p = update_page pages p (inc_references (pages p))

-- The other pages are as free as they were.
pub free-inc_at_other :
    (pages : ℕ → Page) (p q : ℕ)
    → q ≢ p
    → is_free (pages q) ≡ true
    → is_free (inc_at pages p q) ≡ true
free-inc_at_other pages p q ne free = rw (ne→== q p ne) free

module _ (pages : ℕ → Page) (pool : IsPool pages) (p : ℕ) where
  -- One reference more takes a page out of the pool, and no reference is lost by it.
  pub inc_at-used : (pages p).references + 1 < 2 ^ 64 → is_free (inc_at pages p p) ≡ false
  unfolding is_free inc_references
  inc_at-used small = ground (arith, pool.counted p)

  pub free-small : is_free (pages p) ≡ true → (pages p).references + 1 < 2 ^ 64
  unfolding is_free
  free-small free = ground arith

  module _ (used : is_free (inc_at pages p p) ≡ false) where
    -- A page that is free now was free before.
    pub free-inc_at :
        (q : ℕ) → is_free (inc_at pages p q) ≡ true → (q ≢ p) × (is_free (pages q) ≡ true)
    free-inc_at q free = elim (Bool-cases (q == p)) [
      | inl same ↦
          let e : q ≡ p = (==_iff q p).0 same in
          absurd (true≢false (sym free ∙ ap (λ x. is_free (inc_at pages p x)) e ∙ used))
      | inr other ↦ (==_false→ne q p other, rw other at free)
    ]

    pub IsPool-inc_at : IsPool (inc_at pages p)
    IsPool-inc_at = record {
      frame = λ q free. rw (update_page-base pages p q) (pool.frame q (free-inc_at q free).1);
      counted =
          λ q free. let (ne, old) = free-inc_at q free in rw (ne→== q p ne) (pool.counted q old);
      distinct = λ q r free free' ne.
          rw (update_page-base pages p q, update_page-base pages p r)
            (pool.distinct q r (free-inc_at q free).1 (free-inc_at r free').1 ne);
    }
