-- ===== src/Paging/Tree.antt =====
-- The page maps that src/mm/mm.cpp keeps, as a tree: the maps on the way to an address, and when no
-- two maps of the tree share a byte.
pub mod Write
pub mod Link
pub mod Walk
pub mod Lookup
use kmd.Base.{
  ℕ, zero, suc, ◌+◌, ◌-◌, ◌*◌, ◌≤◌, ◌<◌, ◌≡◌, ◌≢◌, ◌∙◌, ◌⊎◌, sym, refl, ap, ap₂, true, arith, inl,
  inr,
}
use kmd.Memory.{Memory, load64}
use kmd.Memory.Laws.{Apart}
use kmd.PageMapEntry.{PageMapEntry, entry_at, get_address, get_option, pme_present}
use kmd.Paging.{map_index}
use kmd.Paging.Index.{walk_index-lt, map_index-eq}
use kmd.Paging.Descent.{IsFrame, IsLinked}

-- Two pages that have no byte in common.
abbrev pub FramesApart : ℕ → ℕ → Type 0
FramesApart s t = Apart s 4096 t 4096

-- The index of an address in a map that is `d` steps below the root, and its entry there.
abbrev pub index : ℕ → ℕ → ℕ
index a d = map_index a (4 - d)

abbrev pub slot : ℕ → ℕ → ℕ → PageMapEntry
slot t a d = entry_at t (index a d)

pub index-lt : (a d : ℕ) → index a d < 512
index-lt a d = omega (arith, map_index-eq a (4 - d), walk_index-lt a (4 - d))

-- The entry of an index lies in the page of its map.
pub entry_at-bounds :
    (t i : ℕ)
    → IsFrame t
    → i < 512
    → ((entry_at t i).field ≡ t + 8 * i)
      × (t ≤ (entry_at t i).field)
      × ((entry_at t i).field + 8 ≤ t + 4096)
entry_at-bounds t i f h = omega (arith, f.bounded)

-- The map at `t` is `d` steps below the root on the way to the address.
unfoldable pub Node : Memory → ℕ → ℕ → ℕ → ℕ → Type 0
Node m root a zero t = t ≡ root
Node m root a (suc d) t = (u : ℕ) × Node m root a d u × IsLinked m (slot u a d) t

-- The ways to two addresses are the same for `d` steps.
unfoldable pub Same : ℕ → ℕ → ℕ → Type 0
Same a b zero = Unit
Same a b (suc d) = Same a b d × (index a d ≡ index b d)

pub Same-sym : (a b d : ℕ) → Same a b d → Same b a d
unfolding Same
Same-sym a b zero s = tt
Same-sym a b (suc d) (s, e) = (Same-sym a b d s, sym e)

pub Same-trans : (a b c d : ℕ) → Same a b d → Same b c d → Same a c d
unfolding Same
Same-trans a b c zero s r = tt
Same-trans a b c (suc d) (s, e) (r, f) = (Same-trans a b c d s r, e ∙ f)

module _ (m : Memory) (root : ℕ) where
  pub Node-unique : (a d t u : ℕ) → Node m root a d t → Node m root a d u → t ≡ u
  unfolding Node
  Node-unique a zero t u n o = n ∙ sym o
  Node-unique a (suc d) t u (s, n, l) (r, o, k) =
      let same = Node-unique a d s r n o in
      sym l.address ∙ ap (λ x. get_address m (slot x a d)) same ∙ k.address

  pub Node-Same : (a b d t : ℕ) → Same a b d → Node m root a d t → Node m root b d t
  unfolding Node Same
  Node-Same a b zero t s n = n
  Node-Same a b (suc d) t (s, e) (u, n, l) = (u, Node-Same a b d u s n, rw (← e) l)

-- Every map is a page, and two maps are the same step on the same way or have no byte in common.
pub record IsTree (m : Memory) (root : ℕ) : Type 0 where
  pub frames : (a d t : ℕ) → d ≤ 3 → Node m root a d t → IsFrame t
  pub distinct :
      (a d t b e u : ℕ)
      → d ≤ 3
      → e ≤ 3
      → Node m root a d t
      → Node m root b e u
      → ((d ≡ e) × Same a b d) ⊎ FramesApart t u

-- The word that the tree has for an address.
abbrev pub Leaf : Memory → ℕ → ℕ → ℕ → Type 0
Leaf m root a w =
    (t : ℕ) × Node m root a 3 t
    × (get_option m (slot t a 3) pme_present ≡ true)
    × (load64 m (slot t a 3).field ≡ w)
