-- ===== src/Paging/Tree/Write.antt =====
-- A write to an entry of the last level: the tree is the same, and so are the words of all other
-- addresses.
use kmd.Base.{ℕ, zero, suc, ◌+◌, ◌≤◌, ◌<◌, ◌≡◌, ◌≢◌, ◌↔◌, ◌⊎◌, ◌∙◌, sym, true, arith, inl, inr}
use kmd.Memory.{Memory, load64}
use kmd.Memory.Laws.{load64-congr}
use kmd.PageMapEntry.{PageMapEntry, get_option, pme_present}
use kmd.Paging.Descent.{IsFrame, IsLinked-congr}
use kmd.Paging.Tree.{
  FramesApart, index, slot, index-lt, entry_at-bounds, Node, Same, Node-Same, Node-unique, IsTree,
  Leaf,
}

-- The two memories agree on the word of an entry.
abbrev pub Agree : Memory → Memory → PageMapEntry → Type 0
Agree m m' e = (x : ℕ) → e.field ≤ x → x < e.field + 8 → m x ≡ m' x

-- The word of an entry that both have, so they have it for the address.
pub Leaf-Agree :
    (m m' : Memory) (root a w t : ℕ)
    → Node m' root a 3 t
    → Agree m m' (slot t a 3)
    → get_option m (slot t a 3) pme_present ≡ true
    → load64 m (slot t a 3).field ≡ w
    → Leaf m' root a w
unfolding get_option
Leaf-Agree m m' root a w t n same present word =
    let e = load64-congr m m' (slot t a 3).field same in (t, n, rw e at present, sym e ∙ word)

module _ (m m' : Memory) (root c s : ℕ) (tree : IsTree m root) (node : Node m root c 3 s)
    (outside : (x : ℕ) → (x < (slot s c 3).field) ⊎ ((slot s c 3).field + 8 ≤ x) → m' x ≡ m x) where
  written_bounds : (s ≤ (slot s c 3).field) × ((slot s c 3).field + 8 ≤ s + 4096)
  written_bounds =
      omega
        (arith, entry_at-bounds s (index c 3) (tree.frames c 3 s (omega arith) node) (index-lt c 3))

  -- An entry of a map that is apart from the last one is not touched.
  Agree-apart : (a d u : ℕ) → IsFrame u → FramesApart u s → Agree m m' (slot u a d)
  Agree-apart a d u f apart x p q = sym (
      outside x
        (omega (arith, written_bounds, entry_at-bounds u (index a d) f (index-lt a d), apart)))

  Agree-above : (a d u : ℕ) → d ≤ 2 → Node m root a d u → Agree m m' (slot u a d)
  Agree-above a d u h n = elim (tree.distinct a d u c 3 s (omega arith) (omega arith) n node) [
    | inl (e, _) ↦ absurd (omega arith)
    | inr apart ↦ Agree-apart a d u (tree.frames a d u (omega arith) n) apart
  ]

  pub Node-write : (a d t : ℕ) → d ≤ 3 → Node m root a d t → Node m' root a d t
  unfolding Node
  Node-write a zero t h n = n
  Node-write a (suc d) t h (u, n, l) = (
    u,
    Node-write a d u (omega arith) n,
    IsLinked-congr m m' (slot u a d) t (Agree-above a d u (omega arith) n) l,
  )

  pub Node-unwrite : (a d t : ℕ) → d ≤ 3 → Node m' root a d t → Node m root a d t
  unfolding Node
  Node-unwrite a zero t h n = n
  Node-unwrite a (suc d) t h (u, n, l) =
      let old = Node-unwrite a d u (omega arith) n in
      let same = Agree-above a d u (omega arith) old in
      (u, old, IsLinked-congr m' m (slot u a d) t (λ x p q. sym (same x p q)) l)

  pub IsTree-write : IsTree m' root
  IsTree-write = record {
    frames = λ a d t h n. tree.frames a d t h (Node-unwrite a d t h n);
    distinct = λ a d t b e u h h' n n'.
        tree.distinct a d t b e u h h' (Node-unwrite a d t h n) (Node-unwrite b e u h' n');
  }

  -- An entry of the last level for an address on another way is not touched.
  Agree-other : (a t : ℕ) → (Same a c 4 → ⊥) → Node m root a 3 t → Agree m m' (slot t a 3)
  unfolding Same
  Agree-other a t other n =
      let f = tree.frames a 3 t (omega arith) n in
      elim (tree.distinct a 3 t c 3 s (omega arith) (omega arith) n node) [
        | inl (_, same) ↦
            let here : t ≡ s = Node-unique m root c 3 t s (Node-Same m root a c 3 t same n) node in
            let ne : index a 3 ≢ index c 3 = λ e. other (same, e) in
            λ x p q. sym (
              outside x (
                omega (
                  arith,
                  here,
                  ne,
                  entry_at-bounds t (index a 3) f (index-lt a 3),
                  entry_at-bounds s (index c 3) (tree.frames c 3 s (omega arith) node)
                      (index-lt c 3),
                )))
        | inr apart ↦ Agree-apart a 3 t f apart
      ]

  pub Leaf-write : (a w : ℕ) → (Same a c 4 → ⊥) → Leaf m root a w ↔ Leaf m' root a w
  Leaf-write a w other = (
    (λ (t, n, present, word).
        Leaf-Agree m m' root a w t (Node-write a 3 t (omega arith) n) (Agree-other a t other n)
          present word),
    (λ (t, n, present, word).
        let old = Node-unwrite a 3 t (omega arith) n in
        Leaf-Agree m' m root a w t old (λ x p q. sym (Agree-other a t other old x p q)) present
          word),
  )
