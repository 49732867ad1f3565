-- ===== src/Paging/Space.antt =====
-- The state of the memory manager of src/mm/mm.cpp in which its page maps are a tree and the free
-- pages are apart from it, and what a round of `mapPage` makes of it.
pub mod Pool
pub mod Round
pub mod Descend
pub mod MapPage
pub mod Mappings
pub mod Steps
use kmd.Base.{ℕ, ◌≤◌, ◌≡◌, ◌↔◌, true, arith}
use kmd.Kernel.{Kernel}
use kmd.Page.{is_free}
use kmd.Paging.Tree.{FramesApart, Node, IsTree, Leaf}
use kmd.Paging.Space.Pool.{IsPool}
use kmd.Zones.Spare.{Loses}

-- The page maps are a tree, and no free page has a byte in common with a map.
pub record IsSpace (k : Kernel) : Type 0 where
  pub tree : IsTree k.memory k.page_map_level4
  pub pool : IsPool k.pages
  pub apart :
      (p a d t : ℕ)
      → is_free (k.pages p) ≡ true
      → d ≤ 3
      → Node k.memory k.page_map_level4 a d t
      → FramesApart (k.pages p).base t

-- The word that the page maps have for an address.
abbrev pub Has : Kernel → ℕ → ℕ → Type 0
Has k a w = Leaf k.memory k.page_map_level4 a w

-- The second state has the words, the root and the pages of the first, no page is free in it that
-- was not, and at most `n` pages are lost.
pub record IsGrown (n : ℕ) (k k' : Kernel) : Type 0 where
  pub root : k'.page_map_level4 ≡ k.page_map_level4
  pub words : (a w : ℕ) → Has k a w ↔ Has k' a w
  pub zones : (k'.zones ≡ k.zones) × (k'.zones_nr ≡ k.zones_nr)
  pub bases : (p : ℕ) → (k'.pages p).base ≡ (k.pages p).base
  pub fewer : (p : ℕ) → is_free (k'.pages p) ≡ true → is_free (k.pages p) ≡ true
  pub lost : Loses n k k'
