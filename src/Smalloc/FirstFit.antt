-- ===== src/Smalloc/FirstFit.antt =====
-- `smalloc` is a search of the free list for the first chunk with room.
use kmd.Base.{
  ℕ, zero, suc, ◌<◌, ◌≡◌, ◌≢◌, refl, Bool-cases, inl, inr, List, [], ◌∷◌, Option, none, some, arith,
  if◌then◌else◌, length, ne→==,
}
use kmd.Memory.{Memory, load64}
use kmd.Chunk.{get_next_free}
use kmd.Kernel.{Kernel, Run, ok}
use kmd.Smalloc.{fits, take_from, smalloc_loop, smalloc}

-- From `i` the links of the free list lead through the chunks `xs` to the null pointer.
pub data FreeList (m : Memory) : ℕ → List ℕ → Type 0 where
  nil : FreeList m 0 []
  cons : {i : ℕ} {xs : List ℕ} → i ≢ 0 → FreeList m (get_next_free m i) xs → FreeList m i (i ∷ xs)

-- The first of the chunks that has room.
unfoldable pub first_fit : Memory → ℕ → ℕ → List ℕ → Option ℕ
first_fit m size alignement [] = none
first_fit m size alignement (i ∷ xs) =
    if fits m size alignement i then some i else first_fit m size alignement xs

-- What `smalloc` does with it.
abbrev pub allocated : ℕ → ℕ → Option ℕ → Kernel → Run ℕ
allocated size alignement none k = ok 0 k
allocated size alignement (some i) k = take_from size alignement i k

module _ (k : Kernel) (size alignement : ℕ) (pos : 0 < alignement) where
  smalloc_loop-first_fit :
      (fuel : ℕ) {i : ℕ} {xs : List ℕ}
      → FreeList k.memory i xs
      → length xs < fuel
      → smalloc_loop fuel size alignement i k
        ≡ allocated size alignement (first_fit k.memory size alignement xs) k
  unfolding smalloc_loop first_fit
  smalloc_loop-first_fit zero l h = absurd (omega arith)
  smalloc_loop-first_fit (suc fuel) nil h = refl
  smalloc_loop-first_fit (suc fuel) (cons {i} {xs} ne l) h =
      elim (Bool-cases (fits k.memory size alignement i)) [
        | inl room ↦ rw (ne→== i 0 ne, ne→== alignement 0 (omega arith), room)
        | inr tight ↦
            rw (ne→== i 0 ne, ne→== alignement 0 (omega arith), tight)
              (smalloc_loop-first_fit fuel l (omega arith))
      ]

  -- With a free list that ends, and fuel for its chunks, `smalloc` returns: it takes the first
  -- chunk that has room, and if none has, it returns null and changes nothing.
  pub smalloc-first_fit :
      (fuel : ℕ) (xs : List ℕ)
      → FreeList k.memory (load64 k.memory k.arena) xs
      → length xs < fuel
      → smalloc fuel size alignement k
        ≡ allocated size alignement (first_fit k.memory size alignement xs) k
  unfolding smalloc
  smalloc-first_fit fuel xs l h = smalloc_loop-first_fit fuel l h
