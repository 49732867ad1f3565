-- ===== src/Paging/Space/Descend.antt =====
-- The whole loop of `mapPage` in src/mm/mm.cpp, from the root to the last level.
use kmd.Base.{ℕ, zero, suc, ◌+◌, ◌-◌, ◌≡◌, inl, inr, refl, ap, subst, Bool, ◌||◌, arith}
use kmd.Kernel.{Kernel, Run}
use kmd.Zones.FreePage.{CanScan}
use kmd.Paging.{map_index, descend, descend_all}
use kmd.Paging.Tree.{Node}
use kmd.Paging.Space.{IsSpace, IsGrown}
use kmd.Zones.Spare.{Loses, HasSpare, HasSpare-less, get_free_page-spare}
use kmd.Paging.Space.Round.{
  IsGrown-refl, IsGrown-trans, Reached, Exhausted, Outcome, descend-Outcome,
}

-- What is reached from a state that has grown is reached from the first.
Reached-trans :
    (m n fuel : ℕ) (k k' k'' : Kernel) (c d t : ℕ)
    → IsGrown m k k'
    → Reached n fuel k' c d k'' t
    → Reached (m + n) fuel k c d k'' t
Reached-trans m n fuel k k' k'' c d t g r = record {
  space = r.space;
  scan = r.scan;
  grown = IsGrown-trans m n k k' k'' g r.grown;
  node = r.node;
}

pub Exhausted-trans :
    (m n fuel : ℕ) (k k' : Kernel) → IsGrown m k k' → Exhausted n fuel k' → Exhausted (m + n) fuel k
Exhausted-trans m n fuel k k' g (l, lt, kx, h, can, none_left) =
    (m + l, omega arith, kx, IsGrown-trans m l k k' kx g h, can, none_left)

Outcome-trans :
    (m n fuel : ℕ) (k k' : Kernel) (c d : ℕ) (run : Run (Bool × ℕ))
    → IsGrown m k k'
    → Outcome n fuel k' c d run
    → Outcome (m + n) fuel k c d run
Outcome-trans m n fuel k k' c d run g (inl (e, x)) = inl (e, Exhausted-trans m n fuel k k' g x)
Outcome-trans m n fuel k k' c d run g (inr (new, t, k'', e, r)) =
    inr (new, t, k'', e, Reached-trans m n fuel k k' k'' c d t g r)

-- No more pages are used in a round than there are rounds.
Outcome-more :
    (n fuel : ℕ) (k : Kernel) (c d : ℕ) (run : Run (Bool × ℕ))
    → Outcome (1 + n) fuel k c d run
    → Outcome (suc n) fuel k c d run
Outcome-more n fuel k c d run o =
    let e : 1 + n ≡ suc n = omega arith in subst (λ x. Outcome x fuel k c d run) e o

-- The loop with `n` rounds to go, at the map `d` steps below the root.
pub descend_all-Outcome :
    (fuel c n d s : ℕ) (pt_mod : Bool) (k : Kernel)
    → d + n ≡ 3
    → IsSpace k
    → CanScan k fuel
    → Node k.memory k.page_map_level4 c d s
    → Outcome n fuel k c 3 (descend_all (suc fuel) n c pt_mod s k)
unfolding descend_all
descend_all-Outcome fuel c zero d s pt_mod k e space can node =
    let depth : d ≡ 3 = omega arith in
    inr (
      pt_mod,
      s,
      k,
      refl,
      record {
        space = space;
        scan = can;
        grown = IsGrown-refl k;
        node = subst (λ x. Node k.memory k.page_map_level4 c x s) depth node;
      },
    )
descend_all-Outcome fuel c (suc n) d s pt_mod k e space can node =
    let level : 4 - d ≡ n + 2 = omega arith in
    let round =
      rw (ap (map_index c) level) at (descend-Outcome fuel k c d s space can (omega arith) node) in
    rounds
      (λ s' pt' k' space' can' node'.
        descend_all-Outcome fuel c n (suc d) s' pt' k' (omega arith) space' can' node')
      round
  where
    rounds :
        ((s' : ℕ) (pt' : Bool) (k' : Kernel)
          → IsSpace k'
          → CanScan k' fuel
          → Node k'.memory k'.page_map_level4 c (suc d) s'
          → Outcome n fuel k' c 3 (descend_all (suc fuel) n c pt' s' k'))
        → Outcome 1 fuel k c (suc d) (descend (suc fuel) s (map_index c (n + 2)) k)
        → Outcome (suc n) fuel k c 3 (descend_all (suc fuel) (suc n) c pt_mod s k)
    rounds rest (inl (run, (l, lt, kx, g, can', none_left))) =
        inl (rw run refl, (l, omega arith, kx, g, can', none_left))
    rounds rest (inr (new, t, k', run, r)) =
        let next = descend_all (suc fuel) n c (pt_mod || new) t k' in
        rw run (
          Outcome-more n fuel k c 3 next (
            Outcome-trans 1 n fuel k k' c 3 next r.grown
              (rest t (pt_mod || new) k' r.space r.scan r.node)))

-- While there are as many spare pages as are needed, none are missing.
pub Exhausted-spare : (n fuel : ℕ) (k : Kernel) → HasSpare k n → Exhausted n fuel k → ⊥
unfolding Loses
Exhausted-spare n fuel k h (l, lt, k', g, can, none_left) =
    get_free_page-spare k' fuel can (g.lost 1 (HasSpare-less (l + 1) n k (omega arith) h)) none_left
