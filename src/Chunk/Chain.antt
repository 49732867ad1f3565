-- ===== src/Chunk/Chain.antt =====
-- The chunks of the arena as a list: each chunk's links lead to its neighbours, and no two headers
-- have a byte in common.
pub mod Lists
pub mod Merge
pub mod Free
use kmd.Base.{ℕ, ◌≡◌, List, [], ◌∷◌, ◌++◌, All}
use kmd.Memory.{Memory}
use kmd.Chunk.{get_prev, get_next}
use kmd.Chunk.Fields.{Disjoint}

-- The first of the chunks, or what stands behind them.
abbrev pub head_or : ℕ → List ℕ → ℕ
head_or e [] = e
head_or e (c ∷ xs) = c

-- The links of the chunks, from the chunk before them to what stands behind them.
unfoldable pub Links : Memory → ℕ → ℕ → List ℕ → Type 0
Links m e p [] = Unit
Links m e p (c ∷ xs) = (get_prev m c ≡ p) × (get_next m c ≡ head_or e xs) × Links m e c xs

unfoldable pub Apart : List ℕ → Type 0
Apart [] = Unit
Apart (c ∷ xs) = All (Disjoint c) xs × Apart xs

pub record IsChain (m : Memory) (e p : ℕ) (xs : List ℕ) : Type 0 where
  pub links : Links m e p xs
  pub apart : Apart xs
