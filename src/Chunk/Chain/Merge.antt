-- ===== src/Chunk/Chain/Merge.antt =====
-- `Chunk::merge` and `Chunk::split` on the list of the chunks.
use kmd.Base.{ℕ, ◌^◌, ◌≤◌, ◌<◌, ◌≡◌, ◌∙◌, ap, true, List, ◌∷◌, ◌++◌, All, sub64}
use kmd.Memory.{Memory}
use kmd.Chunk.{Header, get_size, get_next, is_free, merge, cut, split, sizeof_free_chunk}
use kmd.Chunk.Fields.{Disjoint}
use kmd.Chunk.Merge.{merge-first, merge-third, merge-other}
use kmd.Chunk.Split.{second, cut-first, cut-second, cut-third, cut-other, split-cut}
use kmd.Chunk.Chain.{Links, Apart, IsChain}
use kmd.Chunk.Chain.Lists.{
  last_or, Links-append, Links-same, SameLinks, header-SameLinks, All-map, All-both, All-without,
  All-with, All-split, Apart-without, Apart-with, Disjoint-sym,
}

module _ (m : Memory) (e p : ℕ) (pre : List ℕ) (c1 c2 c3 : ℕ) (post : List ℕ)
    (chain : IsChain m e p (pre ++ c1 ∷ c2 ∷ c3 ∷ post)) (fits : c1 < 2 ^ 64) where
  abbrev merged : Memory
  merged = merge m c1 c2

  around : Links m c1 p pre × Links m e (last_or p pre) (c1 ∷ c2 ∷ c3 ∷ post)
  around = (Links-append m e p pre (c1 ∷ c2 ∷ c3 ∷ post)).0 chain.links

  third : get_next m c2 ≡ c3
  unfolding Links
  third = let (_, (_, _, (_, next, _))) = around in next

  -- The first and the third chunk are apart from each other, from the second and from the others.
  apart1 : All (Disjoint c1) (pre ++ c2 ∷ c3 ∷ post) × Apart (pre ++ c2 ∷ c3 ∷ post)
  apart1 = Apart-without pre c1 (c2 ∷ c3 ∷ post) chain.apart

  apart2 : All (Disjoint c2) (pre ++ c3 ∷ post) × Apart (pre ++ c3 ∷ post)
  apart2 = Apart-without pre c2 (c3 ∷ post) apart1.1

  apart3 : All (Disjoint c3) (pre ++ post) × Apart (pre ++ post)
  apart3 = Apart-without pre c3 post apart2.1

  d12 : Disjoint c1 c2
  d12 = (All-without (Disjoint c1) pre c2 (c3 ∷ post) apart1.0).0

  rest1 : All (Disjoint c1) (pre ++ c3 ∷ post)
  rest1 = (All-without (Disjoint c1) pre c2 (c3 ∷ post) apart1.0).1

  d13 : Disjoint c1 c3
  d13 = (All-without (Disjoint c1) pre c3 post rest1).0

  d23 : Disjoint c2 c3
  d23 = (All-without (Disjoint c2) pre c3 post apart2.0).0

  others : All (SameLinks m merged) (pre ++ post)
  others =
      All-map _ _ (pre ++ post)
        (λ d (h1, h3). header-SameLinks m merged d (merge-other m c1 c2 d h1 (rw third h3)))
        (All-both _ _ (pre ++ post) (All-without (Disjoint c1) pre c3 post rest1).1 apart3.0)

  merged-Links : Links merged e (last_or p pre) (c1 ∷ c3 ∷ post)
  unfolding Links
  merged-Links =
      let (_, (prev1, _, (_, _, (_, next3, behind)))) = around in
      let first = merge-first m c1 c2 d12 (rw third d13) (rw third d23) in
      let last = rw third at (merge-third m c1 c2 d12 (rw third d13) (rw third d23) fits) in
      (
        ap (λ (h : Header). h.prev) first ∙ prev1,
        ap (λ (h : Header). h.next) first ∙ third,
        (
          ap (λ (h : Header). h.prev) last,
          ap (λ (h : Header). h.next) last ∙ next3,
          Links-same m merged e c3 post ((All-split _ pre post).0 others).1 behind,
        ),
      )

  -- Merging a chunk with the next takes the next one out of the chain.
  pub merge-IsChain : IsChain merged e p (pre ++ c1 ∷ c3 ∷ post)
  merge-IsChain = record {
    links =
        (Links-append merged e p pre (c1 ∷ c3 ∷ post)).1
          (Links-same m merged c1 p pre ((All-split _ pre post).0 others).0 around.0, merged-Links);
    apart = Apart-with pre c1 (c3 ∷ post) rest1 apart2.1;
  }

-- The chunk at `c` is split, and `c3` is the one behind it.
module _ (m : Memory) (e p : ℕ) (pre : List ℕ) (c c3 : ℕ) (post : List ℕ) (n : ℕ)
    (chain : IsChain m e p (pre ++ c ∷ c3 ∷ post)) (fits : c < 2 ^ 64) (small : n < 2 ^ 64)
    (new : All (Disjoint (second c n)) (pre ++ c ∷ c3 ∷ post)) where
  abbrev c2 : ℕ
  c2 = second c n

  split_around : Links m c p pre × Links m e (last_or p pre) (c ∷ c3 ∷ post)
  split_around = (Links-append m e p pre (c ∷ c3 ∷ post)).0 chain.links

  behind_next : get_next m c ≡ c3
  unfolding Links
  behind_next = let (_, (_, next, _)) = split_around in next

  around_c : All (Disjoint c) (pre ++ c3 ∷ post) × Apart (pre ++ c3 ∷ post)
  around_c = Apart-without pre c (c3 ∷ post) chain.apart

  around_c3 : All (Disjoint c3) (pre ++ post) × Apart (pre ++ post)
  around_c3 = Apart-without pre c3 post around_c.1

  new_c : Disjoint c2 c × All (Disjoint c2) (pre ++ c3 ∷ post)
  new_c = All-without (Disjoint c2) pre c (c3 ∷ post) new

  new_c3 : Disjoint c2 c3 × All (Disjoint c2) (pre ++ post)
  new_c3 = All-without (Disjoint c2) pre c3 post new_c.1

  c_c3 : Disjoint c c3 × All (Disjoint c) (pre ++ post)
  c_c3 = All-without (Disjoint c) pre c3 post around_c.0

  split_others : All (SameLinks m (cut m c n)) (pre ++ post)
  split_others =
      All-map _ _ (pre ++ post)
        (λ d (h1, (h2, h3)).
          header-SameLinks m (cut m c n) d (cut-other m c n small d h1 h2 (rw behind_next h3)))
        (All-both _ _ (pre ++ post) c_c3.1 (All-both _ _ (pre ++ post) new_c3.1 around_c3.0))

  cut-Links : Links (cut m c n) e (last_or p pre) (c ∷ c2 ∷ c3 ∷ post)
  unfolding Links
  cut-Links =
      let (_, (prev1, _, (_, next3, behind))) = split_around in
      let d = Disjoint-sym c2 c new_c.0 in
      let d13 : Disjoint c (get_next m c) = rw behind_next c_c3.0 in
      let d23 : Disjoint c2 (get_next m c) = rw behind_next new_c3.0 in
      let first = cut-first m c n small d d13 d23 in
      let middle = cut-second m c n small d d13 d23 fits in
      let last = rw behind_next at (cut-third m c n small d d13 d23) in
      (
        ap (λ (h : Header). h.prev) first ∙ prev1,
        ap (λ (h : Header). h.next) first,
        (
          ap (λ (h : Header). h.prev) middle,
          ap (λ (h : Header). h.next) middle ∙ behind_next,
          (
            ap (λ (h : Header). h.prev) last,
            ap (λ (h : Header). h.next) last ∙ next3,
            Links-same m (cut m c n) e c3 post ((All-split _ pre post).0 split_others).1 behind,
          ),
        ),
      )

  cut-IsChain : IsChain (cut m c n) e p (pre ++ c ∷ c2 ∷ c3 ∷ post)
  cut-IsChain = record {
    links = (Links-append (cut m c n) e p pre (c ∷ c2 ∷ c3 ∷ post)).1 (
      Links-same m (cut m c n) c p pre ((All-split _ pre post).0 split_others).0 split_around.0,
      cut-Links,
    );
    apart =
        Apart-with pre c (c2 ∷ c3 ∷ post)
          (All-with (Disjoint c) pre c2 (c3 ∷ post) (Disjoint-sym c2 c new_c.0) around_c.0)
          (Apart-with pre c2 (c3 ∷ post) new_c.1 around_c.1);
  }

  -- Splitting a free chunk of a chain that is not its last one, at a 64-bit size for which it is large
  -- enough, puts the second part into the chain, behind the first, when the header of the second
  -- part is apart from all headers of the chain.
  pub split-IsChain :
      is_free m c ≡ true
      → n ≤ sub64 (get_size m c) sizeof_free_chunk
      → IsChain (split m c n) e p (pre ++ c ∷ second c n ∷ c3 ∷ post)
  split-IsChain free room = rw (split-cut m c n small free room) cut-IsChain
