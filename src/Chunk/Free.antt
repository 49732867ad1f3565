-- ===== src/Chunk/Free.antt =====
-- `Chunk::free`: which of its steps run, and what they leave.
use kmd.Base.{
  ℕ, ◌+◌, ◌≡◌, ◌∙◌, ap, ap₂, arith, u64, true, false, inl, inr, Bool-cases, if◌then◌else◌, bit_or,
}
use kmd.Base.Bits.{bit_and-bit_or_self}
use kmd.Memory.{Memory}
use kmd.Chunk.{
  Header, get_size, get_flags, get_next, get_prev, is_free, get_full_size, set_free, merge,
  join_next, join_prev, free, chunk_free,
}
use kmd.Chunk.Fields.{
  header, Disjoint, extent, get_full_size-extent, flag, header-set_free, header-set_free_other,
  is_free-header,
}
use kmd.Chunk.Merge.{merge-first, merge-second, merge-other}

-- The four headers that `free` may touch have no byte in common: the chunk, its neighbours, and
-- the chunk behind the next one.
pub record AreApart (m : Memory) (c : ℕ) : Type 0 where
  pub next : Disjoint c (get_next m c)
  pub prev : Disjoint c (get_prev m c)
  pub after : Disjoint c (get_next m (get_next m c))
  pub prev_next : Disjoint (get_prev m c) (get_next m c)
  pub next_after : Disjoint (get_next m c) (get_next m (get_next m c))
  pub prev_after : Disjoint (get_prev m c) (get_next m (get_next m c))

free_self : (m : Memory) (c : ℕ) → is_free m c ≡ true → free m c ≡ m
unfolding free
free_self m c already = rw already

full-allocated :
    (m : Memory) (c : ℕ) → is_free m c ≡ false → get_full_size m c ≡ u64 (get_size m c + 32)
unfolding get_full_size
full-allocated m c busy = rw busy

module _ (m : Memory) (c : ℕ) where
  abbrev n : ℕ
  n = get_next m c

  abbrev p : ℕ
  p = get_prev m c

  abbrev nn : ℕ
  nn = get_next m n

  abbrev m1 : Memory
  m1 = set_free m c

  abbrev m2 : Memory
  m2 = join_next m1 c

  -- The header of the freed chunk once its flag is set.
  abbrev freed : Header
  freed = record (header m c) { flags = bit_or (get_flags m c) chunk_free }

  -- The same, with the extent and the successor of a free chunk behind it.
  abbrev pub joined : Header
  joined =
      if is_free m n
      then record freed { size = u64 ((header m c).size + extent (header m n)); next = nn }
      else freed

  prev-joined : joined.prev ≡ get_prev m c
  prev-joined = ground arith

  flag-joined : flag joined ≡ true
  flag-joined = elim (Bool-cases (is_free m n)) [
    | inl yes' ↦ rw (yes', bit_and-bit_or_self (get_flags m c) 1)
    | inr no' ↦ rw (no', bit_and-bit_or_self (get_flags m c) 1)
  ]

  c-freed : header m1 c ≡ freed
  c-freed = header-set_free m c

  n1 : get_next m1 c ≡ n
  n1 = ap (λ (h : Header). h.next) c-freed

  module _ (a : AreApart m c) where
    n-same : header m1 n ≡ header m n
    n-same = header-set_free_other m c n a.next

    p-same : header m1 p ≡ header m p
    p-same = header-set_free_other m c p a.prev

    nn1 : get_next m1 n ≡ nn
    nn1 = ap (λ (h : Header). h.next) n-same

    join_next-alone : is_free m n ≡ false → join_next m1 c ≡ m1
    unfolding join_next
    join_next-alone busy = rw (n1, is_free-header m m1 n n-same, busy)

    join_next-merge : is_free m n ≡ true → join_next m1 c ≡ merge m1 c n
    unfolding join_next
    join_next-merge free_next = rw (n1, is_free-header m m1 n n-same, free_next)

    -- Either way the chunk before keeps its header.
    p-kept : header m2 p ≡ header m p
    p-kept = elim (Bool-cases (is_free m n)) [
      | inl yes' ↦
          rw (join_next-merge yes') (merge-other m1 c n p a.prev (rw nn1 (omega arith)) ∙ p-same)
      | inr no' ↦ rw (join_next-alone no') p-same
    ]

    merged :
        header (merge m1 c n) c
        ≡ record freed { size = u64 ((header m c).size + extent (header m n)); next = nn }
    merged =
        merge-first m1 c n a.next (rw nn1 a.after) (rw nn1 a.next_after)
        ∙ ap₂ (λ (h k : Header). record h { size = u64 (h.size + extent k); next = k.next }) c-freed
            n-same

    c-joined : header m2 c ≡ joined
    c-joined = elim (Bool-cases (is_free m n)) [
      | inl yes' ↦ rw (yes', join_next-merge yes') merged
      | inr no' ↦ rw (no', join_next-alone no') c-freed
    ]

    p2 : get_prev m2 c ≡ p
    p2 = ap (λ (h : Header). h.prev) c-joined ∙ prev-joined

    join_prev-alone : is_free m p ≡ false → join_prev m2 c ≡ m2
    unfolding join_prev
    join_prev-alone busy = rw (p2, is_free-header m m2 p p-kept, busy)

    join_prev-merge : is_free m p ≡ true → join_prev m2 c ≡ merge m2 p c
    unfolding join_prev
    join_prev-merge free_prev = rw (p2, is_free-header m m2 p p-kept, free_prev)

    -- The chunk that follows the freed one at last is apart from it and from the one before.
    after-apart : Disjoint c joined.next × Disjoint p joined.next
    after-apart = elim (Bool-cases (is_free m n)) [
      | inl yes' ↦ rw yes' (a.after, a.prev_after)
      | inr no' ↦ rw no' (a.next, a.prev_next)
    ]

    next2 : get_next m2 c ≡ joined.next
    next2 = ap (λ (h : Header). h.next) c-joined

    free-steps : is_free m c ≡ false → free m c ≡ join_prev m2 c
    unfolding free
    free-steps busy = rw busy

    -- Freeing an allocated chunk sets its free flag, and where the chunk behind is free, it takes
    -- over that chunk's extent and successor. This holds whether or not the chunk before is free.
    pub free-header : is_free m c ≡ false → header (free m c) c ≡ joined
    free-header busy = elim (Bool-cases (is_free m p)) [
      | inl yes' ↦
          rw (free-steps busy, join_prev-merge yes')
            (merge-second m2 p c (omega arith) (rw next2 (omega (arith, after-apart))) ∙ c-joined)
      | inr no' ↦ rw (free-steps busy, join_prev-alone no') c-joined
    ]

    prev-merged :
        header (merge m2 p c) p
        ≡ record (header m p) { size = u64 ((header m p).size + extent joined); next = joined.next }
    prev-merged =
        merge-first m2 p c (omega arith) (rw next2 after-apart.1) (rw next2 after-apart.0)
        ∙ ap₂ (λ (h k : Header). record h { size = u64 (h.size + extent k); next = k.next }) p-kept
            c-joined

    -- If the chunk before is free, it takes over the extent and the successor of the freed chunk,
    -- already joined with the one behind; otherwise its header stays as it was.
    pub free-prev :
        is_free m c ≡ false
        → header (free m c) p ≡ (
            if is_free m p
            then record (header m p) {
              size = u64 ((header m p).size + extent joined);
              next = joined.next;
            }
            else header m p)
    free-prev busy = elim (Bool-cases (is_free m p)) [
      | inl yes' ↦ rw (free-steps busy, join_prev-merge yes', yes') prev-merged
      | inr no' ↦ rw (free-steps busy, join_prev-alone no', no') p-kept
    ]

    freed-is_free : is_free m c ≡ false → is_free (free m c) c ≡ true
    unfolding is_free
    freed-is_free busy = ap flag (free-header busy) ∙ flag-joined

    -- Freeing twice is freeing once.
    pub free-free : free (free m c) c ≡ free m c
    free-free = elim (Bool-cases (is_free m c)) [
      | inl yes' ↦ free_self (free m c) c (rw (free_self m c yes') yes')
      | inr no' ↦ free_self (free m c) c (freed-is_free no')
    ]

    -- Freeing an allocated chunk whose successor is in use makes its extent sixteen bytes larger
    -- than it was: the size stays, and the header counts as a `FreeChunk` from then on.
    pub get_full_size-free :
        is_free m c ≡ false
        → is_free m n ≡ false
        → get_full_size (free m c) c ≡ u64 (get_full_size m c + 16)
    get_full_size-free busy busy_next =
        get_full_size-extent (free m c) c
        ∙ ap extent (free-header busy)
        ∙ rw (busy_next, bit_and-bit_or_self (get_flags m c) 1, full-allocated m c busy)
            (omega arith)
