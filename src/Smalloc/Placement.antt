-- ===== src/Smalloc/Placement.antt =====
-- Where `smalloc` puts what it returns.
use kmd.Base.{
  ℕ, ◌+◌, ◌*◌, ◌/◌, ◌%◌, ◌^◌, ◌≤◌, ◌<◌, ◌≡◌, refl, true, arith, ◌==◌, Bool-cases, inl, inr, u64,
  sub64, ==_iff, ==_false→ne, leb→le, List, [], ◌∷◌, All, In, here, there, some, none, ◌⊎◌, false,
  length,
}
use native.Mathlib.Nat.{mod-eq_of_lt, div-add-mod', mul-mod_left, mod-lt}
use kmd.Memory.{Memory, load64}
use kmd.Chunk.{get_full_size, split}
use kmd.Smalloc.{align_up, fits, take_from, smalloc}
use kmd.Smalloc.FirstFit.{FreeList, first_fit, smalloc-first_fit}
use kmd.Kernel.{Kernel, ok}

module _ (i alignement : ℕ) (pos : 0 < alignement) (small : i + alignement < 2 ^ 64) where
  next_multiple : (i / alignement + 1) * alignement ≡ i / alignement * alignement + alignement
  next_multiple = omega arith

  quotient-lt : i / alignement + 1 < 2 ^ 64
  quotient-lt = grind (arith, div-add-mod' i alignement)

  no_wrap : u64 (u64 (i / alignement + 1) * alignement) ≡ (i / alignement + 1) * alignement
  no_wrap =
      rw (mod-eq_of_lt quotient-lt)
        (mod-eq_of_lt (omega (arith, next_multiple, div-add-mod' i alignement)))

  -- Rounding up to the alignment gives the least multiple that is not below, where it does not
  -- wrap.
  pub align_up_lem :
      (align_up i alignement % alignement ≡ 0)
      × (i ≤ align_up i alignement)
      × (align_up i alignement < i + alignement)
  unfolding align_up
  align_up_lem = elim (Bool-cases (i % alignement == 0)) [
    | inl whole ↦
        rw whole (omega (arith, (==_iff (i % alignement) 0).0 whole), omega arith, omega arith)
    | inr part ↦
        rw (part, no_wrap)
          (
            mul-mod_left (i / alignement + 1) alignement,
            omega (arith, next_multiple, div-add-mod' i alignement, mod-lt i pos),
            omega (
              arith,
              next_multiple,
              div-add-mod' i alignement,
              ==_false→ne (i % alignement) 0 part,
            ),
          )
  ]

  -- What the test for room grants: from the returned address there is room for the block and for
  -- the header of a free chunk inside the chunk at `i`.
  pub fits_room :
      (m : Memory) (size : ℕ)
      → i + alignement + size + 48 < 2 ^ 64
      → i + get_full_size m i < 2 ^ 64
      → fits m size alignement i ≡ true
      → align_up i alignement + size + 48 ≤ i + get_full_size m i
  unfolding fits
  fits_room m size no_wrap_block no_wrap_chunk room = omega (
    arith,
    align_up_lem,
    leb→le (u64 (align_up i alignement + size + 48)) (u64 (i + get_full_size m i)) room,
  )

-- Neither the rounding nor the sums of the test wrap at this chunk.
pub record IsBounded (m : Memory) (size alignement i : ℕ) : Type 0 where
  pub block : i + alignement + size + 48 < 2 ^ 64
  pub chunk : i + get_full_size m i < 2 ^ 64

-- The block at `aa` is aligned, at the least such address that is not below the chunk, and lies inside the chunk at `i`, with room behind it for the
-- header of a free chunk.
pub record IsPlaced (m : Memory) (size alignement i aa : ℕ) : Type 0 where
  pub aligned : aa % alignement ≡ 0
  pub from : i ≤ aa
  pub least : aa < i + alignement
  pub within : aa + size + 48 ≤ i + get_full_size m i

-- What the search can say: no chunk has room, or the chosen one is of the list and has room.
first_fit-cases :
    (m : Memory) (size alignement : ℕ) (xs : List ℕ)
    → ((first_fit m size alignement xs ≡ none) × All (λ i. fits m size alignement i ≡ false) xs)
      ⊎ ((i : ℕ) × (first_fit m size alignement xs ≡ some i)
          × In i xs
          × (fits m size alignement i ≡ true))
unfolding first_fit
first_fit-cases m size alignement [] = inl (refl, tt)
first_fit-cases m size alignement (x ∷ xs) = elim (Bool-cases (fits m size alignement x)) [
  | inl room ↦ inr (x, rw room, here, room)
  | inr tight ↦ elim (first_fit-cases m size alignement xs) [
    | inl (e, rest) ↦ inl (rw tight e, (tight, rest))
    | inr (i, e, at, room) ↦ inr (i, rw tight e, there at, room)
  ]
]

All-In {ℓ κ} : {A : Type ℓ} (P : A → Type κ) {a : A} {xs : List A} → All P xs → In a xs → P a
All-In P h here = h.0
All-In P h (there at) = All-In P h.1 at

-- On a free list that ends, with fuel for its chunks, an alignment that is not zero and chunks at
-- which no sum wraps, `smalloc` returns. Either no chunk has room, and it returns null and leaves
-- the state as it was; or it takes a chunk of the list, and the address that it returns is a
-- multiple of the alignment, the least one that is not below the chunk, and inside the chunk, with
-- room for the block and a free header; nothing but the memory changes, by a split of the chunk
-- behind the block.
pub smalloc-IsPlaced :
    (k : Kernel) (size alignement fuel : ℕ) (xs : List ℕ)
    → 0 < alignement
    → FreeList k.memory (load64 k.memory k.arena) xs
    → length xs < fuel
    → All (IsBounded k.memory size alignement) xs
    → ((smalloc fuel size alignement k ≡ ok 0 k)
        × All (λ i. fits k.memory size alignement i ≡ false) xs)
      ⊎ ((i : ℕ) × (aa : ℕ) × In i xs
          × (smalloc fuel size alignement k
              ≡ ok aa (record k { memory = split k.memory i (sub64 (u64 (aa + size)) i) }))
          × IsPlaced k.memory size alignement i aa)
unfolding take_from
smalloc-IsPlaced k size alignement fuel xs pos l h bounds =
    let found = smalloc-first_fit k size alignement pos fuel xs l h in
    elim (first_fit-cases k.memory size alignement xs) [
      | inl (e, rest) ↦ inl (rw e at found, rest)
      | inr (i, e, at, room) ↦
          inr (i, align_up i alignement, at, rw e at found, placed i (All-In _ bounds at) room)
    ]
  where
    placed :
        (i : ℕ)
        → IsBounded k.memory size alignement i
        → fits k.memory size alignement i ≡ true
        → IsPlaced k.memory size alignement i (align_up i alignement)
    placed i b room =
        let small : i + alignement < 2 ^ 64 = omega arith in
        record {
          aligned = (align_up_lem i alignement pos small).0;
          from = (align_up_lem i alignement pos small).1;
          least = (align_up_lem i alignement pos small).2;
          within = fits_room i alignement pos small k.memory size b.block b.chunk room;
        }
