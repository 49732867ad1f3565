-- ===== src/Smalloc/Again.antt =====
-- A second call of `smalloc` after the first.
use kmd.Base.{
  ℕ, suc, ◌+◌, ◌-◌, ◌<◌, ◌≡◌, ◌≢◌, ◌∙◌, refl, sym, ◌⊎◌, ap, true, Bool-cases, inl, inr, arith, ltb,
  ltb→lt, ltb_false→le, le→leb, ne→==, u64, sub64,
}
use kmd.Memory.{load64}
use kmd.Memory.Laws.{Apart}
use kmd.Chunk.{get_size, get_next, get_full_size, is_free, cut, split}
use kmd.Chunk.Fields.{header, Disjoint, extent, flag, get_full_size-extent, is_free-flag}
use kmd.Chunk.Split.{second, cut-first, split-cut, split-eq_self, load64-cut}
use kmd.Kernel.{Kernel, ok}
use kmd.Smalloc.{align_up, fits, take_from, smalloc_loop, smalloc}
use kmd.Smalloc.Placement.{IsBounded, align_up_lem}

-- The first chunk is taken if it has room.
smalloc-first :
    (k : Kernel) (size alignement fuel i : ℕ)
    → 0 < alignement
    → load64 k.memory k.arena ≡ i
    → i ≢ 0
    → fits k.memory size alignement i ≡ true
    → smalloc (suc fuel) size alignement k ≡ take_from size alignement i k
unfolding smalloc smalloc_loop
smalloc-first k size alignement fuel i pos e ne room =
    rw (e, ne→== i 0 ne, ne→== alignement 0 (omega arith), room)

module _ (k : Kernel) (size alignement : ℕ) where
  -- The first chunk of the free list, and the address of the block in it.
  abbrev pub first : ℕ
  first = load64 k.memory k.arena

  abbrev pub block : ℕ
  block = align_up first alignement

  -- The length that the first chunk is split at.
  abbrev pub kept : ℕ
  kept = sub64 (u64 (block + size)) first

  -- The first chunk is a free chunk with room, no sum wraps, and the headers that a split writes
  -- are apart from one another and from the word that holds the head of the free list.
  pub record IsReady : Type 0 where
    pub ne_null : first ≢ 0
    pub free : is_free k.memory first ≡ true
    pub room : fits k.memory size alignement first ≡ true
    pub bounded : IsBounded k.memory size alignement first
    pub apart_second : Disjoint first (second first kept)
    pub apart_third : Disjoint first (get_next k.memory first)
    pub apart_rest : Disjoint (second first kept) (get_next k.memory first)
    pub head_first : Apart first 32 k.arena 8
    pub head_second : Apart (second first kept) 32 k.arena 8
    pub head_third : Apart (get_next k.memory first) 32 k.arena 8

  -- The state after one call.
  abbrev pub once : Kernel
  once = record k { memory = split k.memory first kept }

  module _ (pos : 0 < alignement) (r : IsReady) where
    kept-eq : kept ≡ block + size - first
    kept-eq = omega (arith, align_up_lem first alignement pos (omega arith))

    -- Either `split` refuses and the memory is as before, or it cuts.
    refused_or_cut :
        (split k.memory first kept ≡ k.memory)
        ⊎ (split k.memory first kept ≡ cut k.memory first kept)
    refused_or_cut = elim (Bool-cases (ltb (sub64 (get_size k.memory first) 48) kept)) [
      | inl small ↦ inl (split-eq_self k.memory first kept (omega arith) (inr (ltb→lt _ _ small)))
      | inr large ↦
          inr (split-cut k.memory first kept (omega arith) r.free (ltb_false→le _ _ large))
    ]

    head_once : load64 (split k.memory first kept) k.arena ≡ first
    head_once = elim refused_or_cut [
      | inl e ↦ rw e
      | inr e ↦ rw e (
          load64-cut k.memory first kept (omega arith) k.arena r.head_first r.head_second
            r.head_third)
    ]

    flag-first : flag (header k.memory first) ≡ true
    flag-first = sym (is_free-flag k.memory first) ∙ r.free

    cut_extent : get_full_size (cut k.memory first kept) first ≡ u64 (kept + 48)
    cut_extent =
        get_full_size-extent (cut k.memory first kept) first
        ∙ ap extent
            (cut-first k.memory first kept (omega arith) r.apart_second r.apart_third r.apart_rest)
        ∙ rw flag-first

    room_once : fits (split k.memory first kept) size alignement first ≡ true
    room_once = elim refused_or_cut [
      | inl e ↦ rw e r.room
      | inr e ↦ rw e (
          unfold fits in
          rw cut_extent
            (le→leb _ _ (omega (arith, kept-eq, align_up_lem first alignement pos (omega arith)))))
    ]

    -- Two calls in a row return the same block: the first leaves the chunk free and at the head of
    -- the free list, with just the size for the second.
    pub smalloc-smalloc :
        (fuel : ℕ)
        → (smalloc (suc fuel) size alignement k ≡ ok block once)
          × (smalloc (suc fuel) size alignement once
              ≡ ok block (record once { memory = split once.memory first kept }))
    smalloc-smalloc fuel = (
      unfold take_from in smalloc-first k size alignement fuel first pos refl r.ne_null r.room,
      unfold take_from in
          smalloc-first once size alignement fuel first pos head_once r.ne_null room_once,
    )
