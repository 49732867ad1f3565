-- ===== src/Chunk/Chain/Free.antt =====
-- `Chunk::free` on the list of the chunks.
use kmd.Base.{
  ℕ, ◌+◌, ◌^◌, ◌<◌, ◌≡◌, ◌∙◌, inl, inr, sym, ap, subst, false, Bool-cases, List, [], ◌∷◌, ◌++◌, All,
  arith, if◌then◌else◌,
}
use kmd.Memory.{Memory}
use kmd.Memory.Laws.{load64-lt}
use kmd.Chunk.{Header, get_prev, get_next, is_free, set_free, merge, join_next, join_prev, free}
use kmd.Chunk.Fields.{Disjoint, header, header-set_free, header-set_free_other, is_free-header}
use kmd.Chunk.Merge.{merge-other}
use kmd.Chunk.Chain.{Links, Apart, IsChain}
use kmd.Chunk.Chain.Lists.{
  last_or, Links-append, Links-same, All-map, All-without, All-with, Apart-without, SameLinks,
  header-SameLinks, append-snoc, Disjoint-sym,
}
use kmd.Chunk.Chain.Merge.{merge-IsChain}

-- What stands behind a freed chunk, and the chain that is left of it and its neighbours.
unfoldable pub behind : Memory → ℕ → List ℕ → List ℕ
behind m n rest = if is_free m n then rest else n ∷ rest

unfoldable pub left : Memory → ℕ → ℕ → List ℕ → List ℕ
left m a c rest = if is_free m a then a ∷ rest else a ∷ c ∷ rest

module _ (m : Memory) (e p : ℕ) (pre : List ℕ) (a c n nn : ℕ) (post : List ℕ)
    (chain : IsChain m e p (pre ++ a ∷ c ∷ n ∷ nn ∷ post)) where
  abbrev m1 : Memory
  m1 = set_free m c

  around_a : All (Disjoint a) (pre ++ c ∷ n ∷ nn ∷ post) × Apart (pre ++ c ∷ n ∷ nn ∷ post)
  around_a = Apart-without pre a (c ∷ n ∷ nn ∷ post) chain.apart

  around_c : All (Disjoint c) (pre ++ n ∷ nn ∷ post) × Apart (pre ++ n ∷ nn ∷ post)
  around_c = Apart-without pre c (n ∷ nn ∷ post) around_a.1

  a_c : Disjoint a c × All (Disjoint a) (pre ++ n ∷ nn ∷ post)
  a_c = All-without (Disjoint a) pre c (n ∷ nn ∷ post) around_a.0

  c_n : Disjoint c n × All (Disjoint c) (pre ++ nn ∷ post)
  c_n = All-without (Disjoint c) pre n (nn ∷ post) around_c.0

  a_nn : Disjoint a nn
  a_nn =
      (All-without (Disjoint a) pre nn post (All-without (Disjoint a) pre n (nn ∷ post) a_c.1).1).0

  flag-SameLinks : (d : ℕ) → Disjoint c d → SameLinks m m1 d
  flag-SameLinks d h = header-SameLinks m m1 d (header-set_free_other m c d h)

  -- The flag of a chunk is no link.
  flagged-IsChain : IsChain m1 e p (pre ++ a ∷ c ∷ n ∷ nn ∷ post)
  flagged-IsChain = record {
    links =
        Links-same m m1 e p (pre ++ a ∷ c ∷ n ∷ nn ∷ post)
          (All-with (SameLinks m m1) pre a (c ∷ n ∷ nn ∷ post)
            (flag-SameLinks a (Disjoint-sym a c a_c.0))
            (All-with (SameLinks m m1) pre c (n ∷ nn ∷ post)
              (
                ap (λ (h : Header). h.prev) (header-set_free m c),
                ap (λ (h : Header). h.next) (header-set_free m c),
              )
              (All-map _ _ (pre ++ n ∷ nn ∷ post) flag-SameLinks around_c.0)))
          chain.links;
    apart = chain.apart;
  }

  flagged-Links : Links m1 e (last_or p pre) (a ∷ c ∷ n ∷ nn ∷ post)
  flagged-Links = ((Links-append m1 e p pre (a ∷ c ∷ n ∷ nn ∷ post)).0 flagged-IsChain.links).1

  c_next : get_next m1 c ≡ n
  unfolding Links
  c_next = let (_, _, (_, next, _)) = flagged-Links in next

  n_next : get_next m1 n ≡ nn
  unfolding Links
  n_next = let (_, _, (_, _, (_, next, _))) = flagged-Links in next

  a_next : get_next m1 a ≡ c
  unfolding Links
  a_next = let (_, next, _) = flagged-Links in next

  a-same : header m1 a ≡ header m a
  a-same = header-set_free_other m c a (Disjoint-sym a c a_c.0)

  n-free : is_free m1 n ≡ is_free m n
  n-free = is_free-header m m1 n (header-set_free_other m c n c_n.0)

  a-lt : a < 2 ^ 64
  unfolding Links get_prev
  a-lt = let (_, _, (prev, _, _)) = flagged-Links in omega (arith, prev, load64-lt m1 (c + 16))

  c-lt : c < 2 ^ 64
  unfolding get_next
  c-lt = omega (arith, a_next, load64-lt m1 (a + 24))

  -- Behind the second step: the chain, with the chunk before as it was.
  Joined : Memory → Type 0
  Joined m2 = IsChain m2 e p (pre ++ a ∷ c ∷ behind m n (nn ∷ post)) × (header m2 a ≡ header m a)

  join_next-IsChain : Joined (join_next m1 c)
  unfolding Joined join_next behind
  join_next-IsChain = elim (Bool-cases (is_free m n)) [
    | inl free_next ↦
        let chain' =
          subst (IsChain m1 e p) (sym (append-snoc pre a (c ∷ n ∷ nn ∷ post))) flagged-IsChain in
        let merged =
          subst (IsChain (merge m1 c n) e p) (append-snoc pre a (c ∷ nn ∷ post))
            (merge-IsChain m1 e p (pre ++ a ∷ []) c n nn post chain' c-lt) in
        let same =
          merge-other m1 c n a (Disjoint-sym a c a_c.0) (rw n_next (Disjoint-sym a nn a_nn)) in
        rw (c_next, n-free, free_next) (merged, same ∙ a-same)
    | inr busy_next ↦ rw (c_next, n-free, busy_next) (flagged-IsChain, a-same)
  ]

  -- The third step, with at least one chunk behind.
  join_prev-IsChain :
      (m2 : Memory) (x : ℕ) (rest : List ℕ)
      → IsChain m2 e p (pre ++ a ∷ c ∷ x ∷ rest)
      → header m2 a ≡ header m a
      → IsChain (join_prev m2 c) e p (pre ++ left m a c (x ∷ rest))
  unfolding join_prev left Links
  join_prev-IsChain m2 x rest chain2 same =
      let (_, _, (prev, _, _)) = ((Links-append m2 e p pre (a ∷ c ∷ x ∷ rest)).0 chain2.links).1 in
      let a_free = is_free-header m m2 a same in
      elim (Bool-cases (is_free m a)) [
        | inl free_prev ↦
            rw (prev, a_free, free_prev) (merge-IsChain m2 e p pre a c x rest chain2 a-lt)
        | inr busy_prev ↦ rw (prev, a_free, busy_prev) chain2
      ]

  -- Freeing a chunk in use, with a chunk before it and two behind it, leaves a chain: without the
  -- chunk behind if that is free, and without the freed chunk itself if the chunk before is free.
  pub free-IsChain :
      is_free m c ≡ false → IsChain (free m c) e p (pre ++ left m a c (behind m n (nn ∷ post)))
  unfolding free behind Joined
  free-IsChain busy =
      let (chain2, same) = join_next-IsChain in
      elim (Bool-cases (is_free m n)) [
        | inl free_next ↦
            rw (busy, free_next)
              (join_prev-IsChain (join_next m1 c) nn post (rw free_next at chain2) same)
        | inr busy_next ↦
            rw (busy, busy_next)
              (join_prev-IsChain (join_next m1 c) n (nn ∷ post) (rw busy_next at chain2) same)
      ]
