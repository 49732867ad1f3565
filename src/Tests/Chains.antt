-- ===== src/Tests/Chains.antt =====
-- The chunks of the small arena as a list.
use kmd.Base.{◌≡◌, refl, [], ◌∷◌, arith}
use kmd.Chunk.{is_free, get_size, get_prev, get_next, free, split}
use kmd.Chunk.Split.{second}
use kmd.Chunk.Chain.{Links, Apart, IsChain}
use kmd.Chunk.Chain.Merge.{split-IsChain}
use kmd.Chunk.Chain.Free.{behind, left, free-IsChain}
use kmd.Tests.Arena.{arena}

arena-IsChain : IsChain arena 0 0 (1000 ∷ 2000 ∷ 3000 ∷ 4000 ∷ [])
unfolding Links Apart arena get_prev get_next
arena-IsChain = record {
  links = (refl, refl, (refl, refl, (refl, refl, (refl, refl, tt))));
  apart = (
    (omega arith, (omega arith, (omega arith, tt))),
    ((omega arith, (omega arith, tt)), ((omega arith, tt), (tt, tt))),
  );
}

free-IsChain_example :
    IsChain (free arena 2000) 0 0 (left arena 1000 2000 (behind arena 3000 (4000 ∷ [])))
free-IsChain_example =
    free-IsChain arena 0 0 [] 1000 2000 3000 4000 [] arena-IsChain (unfold arena is_free in refl)

left_run : left arena 1000 2000 (behind arena 3000 (4000 ∷ [])) ≡ 1000 ∷ 4000 ∷ []
unfolding left behind arena is_free
left_run = refl

split-IsChain_example :
    IsChain (split arena 1000 200) 0 0 (1000 ∷ second 1000 200 ∷ 2000 ∷ 3000 ∷ 4000 ∷ [])
unfolding arena is_free get_size
split-IsChain_example =
    split-IsChain arena 0 0 [] 1000 2000 (3000 ∷ 4000 ∷ []) 200 arena-IsChain (omega arith)
      (omega arith) (omega arith, (omega arith, (omega arith, (omega arith, tt)))) refl
      (omega arith)
