-- ===== src/Paging/Tree/Link.antt =====
-- An empty page linked below an entry that was not present: the tree has one map more, and the words
-- of all addresses are the same.
use kmd.Base.{
  ℕ, zero, suc, ◌+◌, ◌*◌, ◌≤◌, ◌<◌, ◌≡◌, ◌↔◌, ◌⊎◌, ◌∙◌, sym, ap, subst, true, false, arith, inl,
  inr, Bool-cases, ◌==◌, ==_iff, ==_false→ne,
}
use mathlib.Core.Bool.{true≢false}
use kmd.Memory.{Memory, load64}
use kmd.PageMapEntry.{entry_at, get_address, get_option, pme_present}
use kmd.Paging.Descent.{IsFrame, IsLinked, IsLinked-congr}
use kmd.Paging.Tree.{
  FramesApart, index, slot, index-lt, entry_at-bounds, Node, Same, Same-sym, Same-trans, Node-Same,
  Node-unique, IsTree, Leaf,
}
use kmd.Paging.Tree.Write.{Agree, Leaf-Agree}

-- What linking the page at `f` below the entry of `c` in the map at `s` does to the memory.
pub record Linking (m m' : Memory) (root c n s f : ℕ) : Type 0 where
  pub depth : n ≤ 2
  pub node : Node m root c n s
  pub absent : get_option m (slot s c n) pme_present ≡ false
  pub frame : IsFrame f
  pub apart : (a d t : ℕ) → d ≤ 3 → Node m root a d t → FramesApart f t
  pub linked : IsLinked m' (slot s c n) f
  pub outside :
      (x : ℕ)
      → (x < (slot s c n).field) ⊎ ((slot s c n).field + 8 ≤ x)
      → (x < f) ⊎ (f + 4096 ≤ x)
      → m' x ≡ m x
  pub empty : (i : ℕ) → i < 512 → get_option m' (entry_at f i) pme_present ≡ false

module _ (m m' : Memory) (root c n s f : ℕ) (tree : IsTree m root)
    (l : Linking m m' root c n s f) where
  slot-bounds :
      (a d u : ℕ)
      → d ≤ 3
      → Node m root a d u
      → ((slot u a d).field ≡ u + 8 * index a d)
        × (u ≤ (slot u a d).field)
        × ((slot u a d).field + 8 ≤ u + 4096)
  slot-bounds a d u h node = entry_at-bounds u (index a d) (tree.frames a d u h node) (index-lt a d)

  link_bounds :
      ((slot s c n).field ≡ s + 8 * index c n)
      × (s ≤ (slot s c n).field)
      × ((slot s c n).field + 8 ≤ s + 4096)
  link_bounds = slot-bounds c n s (omega (arith, l.depth)) l.node

  -- An entry of the tree is the one that is linked, or it is not touched.
  abbrev IsHere : ℕ → ℕ → ℕ → Type 0
  IsHere a d u = (d ≡ n) × (u ≡ s) × Same a c (suc d) × (slot u a d ≡ slot s c n)

  IsHere-or-Agree : (a d u : ℕ) → d ≤ 3 → Node m root a d u → IsHere a d u ⊎ Agree m m' (slot u a d)
  unfolding Same
  IsHere-or-Agree a d u h node =
      elim (tree.distinct a d u c n s h (omega (arith, l.depth)) node l.node) [
        | inl (e, same) ↦ at_depth e same
        | inr apart ↦ inr (λ x p q. sym (
            l.outside x (omega (arith, link_bounds, slot-bounds a d u h node, apart))
              (omega (arith, slot-bounds a d u h node, l.apart a d u h node))))
      ]
    where
      at_depth : d ≡ n → Same a c d → IsHere a d u ⊎ Agree m m' (slot u a d)
      at_depth e same =
          let node' : Node m root c n u =
            subst (λ k. Node m root c k u) e (Node-Same m root a c d u same node) in
          let here : u ≡ s = Node-unique m root c n u s node' l.node in
          let shift : index c d ≡ index c n = ap (index c) e in
          elim (Bool-cases (index a d == index c d)) [
            | inl eq ↦
                let i = (==_iff (index a d) (index c d)).0 eq in
                inl (e, here, (same, i), rw (here, i, shift))
            | inr ne ↦ inr (λ x p q. sym (
                l.outside x
                  (omega (
                    arith,
                    here,
                    shift,
                    ==_false→ne (index a d) (index c d) ne,
                    link_bounds,
                    slot-bounds a d u h node,
                  ))
                  (omega (arith, slot-bounds a d u h node, l.apart a d u h node))))
          ]

  -- An entry that was present was not the one that is linked.
  Agree-present :
      (a d u : ℕ)
      → d ≤ 3
      → Node m root a d u
      → get_option m (slot u a d) pme_present ≡ true
      → Agree m m' (slot u a d)
  Agree-present a d u h node present = elim (IsHere-or-Agree a d u h node) [
    | inl (_, _, _, e) ↦
        absurd (true≢false (sym present ∙ ap (λ x. get_option m x pme_present) e ∙ l.absent))
    | inr agree ↦ agree
  ]

  pub Node-link : (a d t : ℕ) → d ≤ 3 → Node m root a d t → Node m' root a d t
  unfolding Node
  Node-link a zero t h node = node
  Node-link a (suc d) t h (u, node, k) = (
    u,
    Node-link a d u (omega arith) node,
    IsLinked-congr m m' (slot u a d) t (Agree-present a d u (omega arith) node k.present) k,
  )

  -- The map that is linked.
  pub Node-new : Node m' root c (suc n) f
  unfolding Node
  Node-new = (s, Node-link c n s (omega (arith, l.depth)) l.node, l.linked)

  -- A map of the new tree is one of the old tree or the one that is linked.
  abbrev pub IsNew : ℕ → ℕ → ℕ → Type 0
  IsNew a d t = (d ≡ suc n) × Same a c d × (t ≡ f)

  pub Node-unlink : (a d t : ℕ) → d ≤ 3 → Node m' root a d t → Node m root a d t ⊎ IsNew a d t
  unfolding Node
  Node-unlink a zero t h node = inl node
  Node-unlink a (suc d) t h (u, node, k) = below (Node-unlink a d u (omega arith) node)
    where
      below :
          Node m root a d u ⊎ IsNew a d u
          → ((v : ℕ) × Node m root a d v × IsLinked m (slot v a d) t) ⊎ IsNew a (suc d) t
      below (inl old) = elim (IsHere-or-Agree a d u (omega arith) old) [
        | inl (e, _, same, at) ↦
            let address : get_address m' (slot u a d) ≡ get_address m' (slot s c n) =
              ap (get_address m') at in
            inr (ap suc e, same, sym k.address ∙ address ∙ l.linked.address)
        | inr agree ↦
            inl (u, old, IsLinked-congr m' m (slot u a d) t (λ x p q. sym (agree x p q)) k)
      ]
      below (inr (_, _, e)) =
          let here = ap (λ x. get_option m' (entry_at x (index a d)) pme_present) e in
          absurd (true≢false (sym k.present ∙ here ∙ l.empty (index a d) (index-lt a d)))

  IsFrame-link : (a d t : ℕ) → d ≤ 3 → Node m root a d t ⊎ IsNew a d t → IsFrame t
  IsFrame-link a d t h (inl old) = tree.frames a d t h old
  IsFrame-link a d t h (inr (_, _, e)) = rw e l.frame

  distinct-link :
      (a d t b e u : ℕ)
      → d ≤ 3
      → e ≤ 3
      → Node m root a d t ⊎ IsNew a d t
      → Node m root b e u ⊎ IsNew b e u
      → ((d ≡ e) × Same a b d) ⊎ FramesApart t u
  distinct-link a d t b e u h h' (inl old) (inl old') = tree.distinct a d t b e u h h' old old'
  distinct-link a d t b e u h h' (inl old) (inr (_, _, at)) =
      inr (omega (arith, l.apart a d t h old, at))
  distinct-link a d t b e u h h' (inr (_, _, at)) (inl old) =
      inr (omega (arith, l.apart b e u h' old, at))
  distinct-link a d t b e u h h' (inr (p, same, _)) (inr (q, same', _)) =
      let depth : e ≡ d = q ∙ sym p in
      inl (sym depth, Same-trans a c b d same (Same-sym b c d (subst (Same b c) depth same')))

  pub IsTree-link : IsTree m' root
  IsTree-link = record {
    frames = λ a d t h node. IsFrame-link a d t h (Node-unlink a d t h node);
    distinct = λ a d t b e u h h' node node'.
        distinct-link a d t b e u h h' (Node-unlink a d t h node) (Node-unlink b e u h' node');
  }

  -- The linked map is empty, so no address has a new word, and none loses the one that it had.
  pub Leaf-link : (a w : ℕ) → Leaf m root a w ↔ Leaf m' root a w
  Leaf-link a w = (
    (λ (t, node, present, word).
        Leaf-Agree m m' root a w t (Node-link a 3 t (omega arith) node)
          (Agree-present a 3 t (omega arith) node present) present word),
    (λ (t, node, present, word). back t present word (Node-unlink a 3 t (omega arith) node)),
  )
    where
      back :
          (t : ℕ)
          → get_option m' (slot t a 3) pme_present ≡ true
          → load64 m' (slot t a 3).field ≡ w
          → Node m root a 3 t ⊎ IsNew a 3 t
          → Leaf m root a w
      back t present word (inl old) = elim (IsHere-or-Agree a 3 t (omega arith) old) [
        | inl (e, _, _, _) ↦ absurd (omega (arith, l.depth))
        | inr agree ↦ Leaf-Agree m' m root a w t old (λ x p q. sym (agree x p q)) present word
      ]
      back t present word (inr (_, _, e)) =
          let here = ap (λ x. get_option m' (entry_at x (index a 3)) pme_present) e in
          absurd (true≢false (sym present ∙ here ∙ l.empty (index a 3) (index-lt a 3)))
