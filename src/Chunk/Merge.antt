-- ===== src/Chunk/Merge.antt =====
-- `Chunk::merge`: what becomes of the headers of the two chunks, of the one behind, and of all
-- others.
use kmd.Base.{ℕ, ◌+◌, ◌^◌, ◌<◌, ◌≡◌, ◌∙◌, ap, ap₂, arith, u64}
use kmd.Memory.{Memory}
use kmd.Memory.Laws.{load64-lt}
use kmd.Chunk.{Header, get_size, get_next, get_full_size, is_free, set_prev, set_next, merge}
use kmd.Chunk.Fields.{
  header, Disjoint, extent, header-set_size, header-set_prev, header-set_next,
  header-set_size_other, header-set_prev_other, header-set_next_other, get_full_size-header,
}

module _ (m : Memory) (c1 c2 : ℕ) where
  abbrev c3 : ℕ
  c3 = get_next m c2

  abbrev m1 : Memory
  m1 = set_prev m c3 c1

  abbrev m2 : Memory
  m2 = set_next m1 c1 c3

  get_next-lt : c3 < 2 ^ 64
  unfolding get_next
  get_next-lt = load64-lt m (c2 + 24)

  abbrev total : ℕ
  total = u64 ((header m c1).size + extent (header m c2))

  module _ (d12 : Disjoint c1 c2) (d13 : Disjoint c1 c3) (d23 : Disjoint c2 c3) where
    relinked : header m2 c1 ≡ record (header m c1) { next = c3 }
    relinked =
        header-set_next m1 c1 c3 get_next-lt
        ∙ ap (λ (h : Header). record h { next = c3 })
            (header-set_prev_other m c3 c1 c1 (omega arith))

    second : header m2 c2 ≡ header m c2
    second = header-set_next_other m1 c1 c3 c2 d12 ∙ header-set_prev_other m c3 c1 c2 (omega arith)

    summed : u64 (get_size m2 c1 + get_full_size m2 c2) ≡ total
    unfolding get_full_size is_free
    summed =
        ap₂ (λ (a b : ℕ). u64 (a + b)) (ap (λ (h : Header). h.size) relinked)
          (get_full_size-header m m2 c2 second)

    -- The first chunk takes over the second one's extent and successor.
    pub merge-first : header (merge m c1 c2) c1 ≡ record (header m c1) { size = total; next = c3 }
    unfolding merge
    merge-first =
        header-set_size m2 c1 (u64 (get_size m2 c1 + get_full_size m2 c2)) (omega arith)
        ∙ ap (λ (h : Header). record h { size = u64 (get_size m2 c1 + get_full_size m2 c2) })
            relinked
        ∙ ap (λ (s : ℕ). record (header m c1) { size = s; next = c3 }) summed

    -- The chunk behind the second gets the first as its predecessor.
    pub merge-third : c1 < 2 ^ 64 → header (merge m c1 c2) c3 ≡ record (header m c3) { prev = c1 }
    unfolding merge
    merge-third fits =
        header-set_size_other m2 c1 _ c3 d13
        ∙ header-set_next_other m1 c1 c3 c3 d13
        ∙ header-set_prev m c3 c1 fits

  -- Headers apart from the two that are written stay as they are.
  pub merge-other : (d : ℕ) → Disjoint c1 d → Disjoint c3 d → header (merge m c1 c2) d ≡ header m d
  unfolding merge
  merge-other d d1 d3 =
      header-set_size_other m2 c1 _ d d1
      ∙ header-set_next_other m1 c1 c3 d d1
      ∙ header-set_prev_other m c3 c1 d d3

  -- The second chunk's own header is left behind as it was.
  pub merge-second : Disjoint c1 c2 → Disjoint c3 c2 → header (merge m c1 c2) c2 ≡ header m c2
  merge-second d12 d32 = merge-other c2 d12 d32

  -- Merging two neighbours: the first takes over the second one's extent and successor, that
  -- successor gets the first as its predecessor, and the second one's header stays behind.
  pub merge-headers :
      c1 < 2 ^ 64
      → Disjoint c1 c2
      → Disjoint c1 c3
      → Disjoint c2 c3
      → (header (merge m c1 c2) c1 ≡ record (header m c1) { size = total; next = c3 })
        × (header (merge m c1 c2) c3 ≡ record (header m c3) { prev = c1 })
        × (header (merge m c1 c2) c2 ≡ header m c2)
  merge-headers fits d12 d13 d23 =
      (merge-first d12 d13 d23, merge-third d12 d13 d23 fits, merge-second d12 (omega arith))
