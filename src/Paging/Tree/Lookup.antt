-- ===== src/Paging/Tree/Lookup.antt =====
-- `getPME` of src/mm/mm.cpp finds the entry that the tree has for an address.
use kmd.Base.{
  ℕ, zero, suc, ◌+◌, ◌-◌, ◌≤◌, ◌≡◌, ◌∙◌, ◌⊎◌, sym, refl, ap, subst, true, false, arith, inl, inr,
  Bool-cases, ◌==◌, ==_iff, ==_false→ne,
}
use mathlib.Core.Bool.{true≢false}
use kmd.Memory.{Memory, load64}
use kmd.PageMapEntry.{PageMapEntry, null_entry, get_address, get_option, pme_present}
use kmd.PageMap.{map_at, map_of_entry}
use kmd.Paging.{walk_index, get_pme_loop, get_pme}
use kmd.Paging.Index.{map_index-eq}
use kmd.Paging.Tree.{index, slot, Node, Node-unique, Leaf}

-- How the walk ends: at the present entry that the tree has, or at the null entry when the tree has
-- none.
abbrev pub Found : Memory → ℕ → ℕ → PageMapEntry → Type 0
Found m root a e =
    ((get_option m e pme_present ≡ true) × Leaf m root a (load64 m e.field))
    ⊎ ((e ≡ null_entry) × ((w : ℕ) → Leaf m root a w → ⊥))

module _ (m : Memory) (root a : ℕ) where
  -- A map on the way to an address has all the maps above it.
  Node-above : (e d t : ℕ) → d ≤ e → Node m root a e t → (u : ℕ) × Node m root a d u
  unfolding Node
  Node-above zero d t h n =
      let top : zero ≡ d = omega arith in (t, subst (λ x. Node m root a x t) top n)
  Node-above (suc e) d t h (u, n, l) = elim (Bool-cases (suc e == d)) [
    | inl same ↦ (t, subst (λ x. Node m root a x t) ((==_iff (suc e) d).0 same) (u, n, l))
    | inr other ↦ Node-above e d u (omega (arith, ==_false→ne (suc e) d other)) n
  ]

  -- A map that is not the last one, and whose entry for the address is not present, ends the way.
  Leaf-absent :
      (d s : ℕ)
      → d ≤ 2
      → Node m root a d s
      → get_option m (slot s a d) pme_present ≡ false
      → (w : ℕ) → Leaf m root a w
      → ⊥
  unfolding Node
  Leaf-absent d s h node absent w (t, n, _, _) =
      let (v, (u, n', l)) = Node-above 3 (suc d) t (omega arith) n in
      let same = Node-unique m root a d u s n' node in
      true≢false (sym l.present ∙ ap (λ x. get_option m (slot x a d) pme_present) same ∙ absent)

  Leaf-absent_last :
      (s : ℕ)
      → Node m root a 3 s
      → get_option m (slot s a 3) pme_present ≡ false
      → (w : ℕ) → Leaf m root a w
      → ⊥
  Leaf-absent_last s node absent w (t, n, present, _) =
      let same = Node-unique m root a 3 t s n node in
      true≢false (sym present ∙ ap (λ x. get_option m (slot x a 3) pme_present) same ∙ absent)

  get_pme_loop-Found :
      (l d s : ℕ)
      → d + l ≡ 3
      → Node m root a d s
      → Found m root a (get_pme_loop (suc l) m (map_at s) a)
  unfolding get_pme_loop map_of_entry
  get_pme_loop-Found zero d s e node =
      let depth : d ≡ 3 = omega arith in
      let node' = subst (λ x. Node m root a x s) depth node in
      elim (Bool-cases (get_option m (slot s a 3) pme_present)) [
        | inl present ↦
            rw (sym (map_index-eq a 1), present) (inl (present, (s, node', present, refl)))
        | inr absent ↦
            rw (sym (map_index-eq a 1), absent) (inr (refl, Leaf-absent_last s node' absent))
      ]
  get_pme_loop-Found (suc l) d s e node =
      let level : suc (suc l) ≡ 4 - d = omega arith in
      let index-same : walk_index a (suc (suc l)) ≡ index a d =
        ap (walk_index a) level ∙ sym (map_index-eq a (4 - d)) in
      elim (Bool-cases (get_option m (slot s a d) pme_present)) [
        | inl present ↦
            rw (index-same, present)
              (get_pme_loop-Found l (suc d) (get_address m (slot s a d)) (omega arith)
                (unfold Node in (s, node, record { present = present; address = refl })))
        | inr absent ↦
            rw (index-same, absent) (inr (refl, Leaf-absent d s (omega arith) node absent))
      ]

  -- `getPME` returns the present entry that holds the word that the page maps have for the address,
  -- or the null entry when they have none.
  pub get_pme-Found : Found m root a (get_pme m (map_at root) a)
  unfolding get_pme
  get_pme-Found = get_pme_loop-Found 3 0 root refl (unfold Node in refl)
