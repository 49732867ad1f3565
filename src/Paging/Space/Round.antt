-- ===== src/Paging/Space/Round.antt =====
-- The rounds of the loop of `mapPage` in src/mm/mm.cpp, from a tree of page maps to a tree.
use kmd.Base.{
  ℕ, suc, ◌+◌, ◌≤◌, ◌<◌, ◌≡◌, ◌∙◌, ◌⊎◌, inl, inr, refl, Bool, true, false, Option, none, some,
  arith, Bool-cases,
}
use kmd.Kernel.{Kernel, Run, ok, fault}
use kmd.PageMapEntry.{PageMapEntry, entry_at, get_address, get_option, pme_present}
use kmd.PageMap.{map_at}
use kmd.PageMap.Clear.{load64-clear}
use kmd.Page.{is_free}
use kmd.Zones.{get_free_page}
use kmd.Zones.FreePage.{CanScan, Search, one_free, get_free_page-Search}
use kmd.Paging.{descend}
use kmd.Paging.Descent.{
  IsFrame, Descent, follow, add, added, IsDescended, Descent-descend, Descent-IsDescended,
  update_page-base,
}
use kmd.Paging.Tree.{index, slot, index-lt, entry_at-bounds, Node}
use kmd.Paging.Tree.Link.{Linking, IsTree-link, Node-new, Node-unlink, Leaf-link}
use kmd.Paging.Space.{IsSpace, IsGrown}
use kmd.Zones.Spare.{Loses-none, Loses-trans, Loses-more, Loses-one}
use kmd.Paging.Space.Pool.{
  free-inc_at_other, inc_at, inc_at-used, free-small, free-inc_at, IsPool-inc_at,
}

pub IsGrown-refl : (k : Kernel) → IsGrown 0 k k
IsGrown-refl k = record {
  root = refl;
  words = λ a w. ((λ l. l), (λ l. l));
  zones = (refl, refl);
  bases = λ p. refl;
  fewer = λ p free. free;
  lost = Loses-none k;
}

pub IsGrown-trans :
    (m n : ℕ) (k k' k'' : Kernel) → IsGrown m k k' → IsGrown n k' k'' → IsGrown (m + n) k k''
IsGrown-trans m n k k' k'' g h = record {
  root = h.root ∙ g.root;
  words = λ a w.
      ((λ l. (h.words a w).0 ((g.words a w).0 l)), (λ l. (g.words a w).1 ((h.words a w).1 l)));
  zones = (h.zones.0 ∙ g.zones.0, h.zones.1 ∙ g.zones.1);
  bases = λ p. h.bases p ∙ g.bases p;
  fewer = λ p free. g.fewer p (h.fewer p free);
  lost = Loses-trans m n k k' k'' g.lost h.lost;
}

IsGrown-more : (m n : ℕ) (k k' : Kernel) → m ≤ n → IsGrown m k k' → IsGrown n k k'
IsGrown-more m n k k' le g = record {
  root = g.root;
  words = g.words;
  zones = g.zones;
  bases = g.bases;
  fewer = g.fewer;
  lost = Loses-more m n k k' le g.lost;
}

-- The state is a good one that has the words of the first and at most `n` spare pages less, and the
-- map at `t` is `d` steps below the root on the way to `c`.
pub record Reached (n fuel : ℕ) (k : Kernel) (c d : ℕ) (k' : Kernel) (t : ℕ) : Type 0 where
  pub space : IsSpace k'
  pub scan : CanScan k' fuel
  pub grown : IsGrown n k k'
  pub node : Node k'.memory k'.page_map_level4 c d t

-- No page is free in a state that has the words of the first, and fewer than `n` pages are lost
-- there.
abbrev pub Exhausted : ℕ → ℕ → Kernel → Type 0
Exhausted n fuel k =
    (m : ℕ) × (m < n)
    × (k' : Kernel) × IsGrown m k k'
    × CanScan k' fuel
    × (get_free_page (suc fuel) k' ≡ ok none k')

-- The outcomes of going down to depth `d`, for at most `n` pages.
abbrev pub Outcome : ℕ → ℕ → Kernel → ℕ → ℕ → Run (Bool × ℕ) → Type 0
Outcome n fuel k c d run =
    ((run ≡ fault) × Exhausted n fuel k)
    ⊎ ((new : Bool) × (t : ℕ) × (k' : Kernel) × (run ≡ ok (new, t) k') × Reached n fuel k c d k' t)

pub Search-free : {k : Kernel} {i hi p : ℕ} → Search k i hi (some p) → is_free (k.pages p) ≡ true
Search-free (one_free j p lt scanned free) = free

-- The zones are as they were.
CanScan-added :
    (k : Kernel) (fuel : ℕ) (e : PageMapEntry) (p : ℕ) → CanScan k fuel → CanScan (added k e p) fuel
CanScan-added k fuel e p can = record {
  in_array = can.in_array;
  has_pages = can.has_pages;
  bounded = can.bounded;
}

module _ (fuel : ℕ) (k : Kernel) (c n s : ℕ) (space : IsSpace k) (can : CanScan k fuel)
    (depth : n ≤ 2) (node : Node k.memory k.page_map_level4 c n s) where
  abbrev root : ℕ
  root = k.page_map_level4

  s-IsFrame : IsFrame s
  s-IsFrame = space.tree.frames c n s (omega arith) node

  follow-Reached :
      get_option k.memory (slot s c n) pme_present ≡ true
      → Reached 1 fuel k c (suc n) k (get_address k.memory (slot s c n))
  unfolding Node
  follow-Reached present = record {
    space = space;
    scan = can;
    grown = IsGrown-more 0 1 k k (omega arith) (IsGrown-refl k);
    node = (s, node, record { present = present; address = refl });
  }

  module _ (p : ℕ) (free : is_free (k.pages p) ≡ true)
      (absent : get_option k.memory (slot s c n) pme_present ≡ false)
      (found : get_free_page (suc fuel) k ≡ ok (some p) k) where
    abbrev base : ℕ
    base = (k.pages p).base

    abbrev next : Kernel
    next = added k (slot s c n) p

    base-IsFrame : IsFrame base
    base-IsFrame = space.pool.frame p free

    add-Descent : Descent (suc fuel) k s (index c n) true base next
    add-Descent = add p absent found refl refl refl

    add-IsDescended : IsDescended k (slot s c n) base next
    add-IsDescended =
        Descent-IsDescended base-IsFrame
          (omega (
            arith,
            space.apart p c n s free (omega arith) node,
            entry_at-bounds s (index c n) s-IsFrame (index-lt c n),
          ))
          add-Descent

    add-empty : (i : ℕ) → i < 512 → get_option next.memory (entry_at base i) pme_present ≡ false
    unfolding get_option
    add-empty i h =
        let at = (entry_at-bounds base i base-IsFrame h).0 in
        rw (at, load64-clear (map_at base) base-IsFrame.bounded _ i h) refl

    add-Linking : Linking k.memory next.memory root c n s base
    add-Linking = record {
      depth = depth;
      node = node;
      absent = absent;
      frame = base-IsFrame;
      apart = λ a d t h o. space.apart p a d t free h o;
      linked = add-IsDescended.linked_to;
      outside = add-IsDescended.outside;
      empty = add-empty;
    }

    p-used : is_free (inc_at k.pages p p) ≡ false
    p-used = inc_at-used k.pages space.pool p (free-small k.pages space.pool p free)

    add-IsSpace : IsSpace next
    add-IsSpace = record {
      tree = IsTree-link k.memory next.memory root c n s base space.tree add-Linking;
      pool = IsPool-inc_at k.pages space.pool p p-used;
      apart = λ q a d t free' h o.
          let (ne, old) = free-inc_at k.pages space.pool p p-used q free' in
          rw (update_page-base k.pages p q)
            (elim (Node-unlink k.memory next.memory root c n s base space.tree add-Linking a d t h
              o) [
                | inl o' ↦ space.apart q a d t old h o'
                | inr (_, _, e) ↦ rw e (space.pool.distinct q p old free ne)
              ]);
    }

    add-Reached : Reached 1 fuel k c (suc n) next base
    add-Reached = record {
      space = add-IsSpace;
      scan = CanScan-added k fuel (slot s c n) p can;
      grown = record {
        root = refl;
        words = Leaf-link k.memory next.memory root c n s base space.tree add-Linking;
        zones = (refl, refl);
        bases = update_page-base k.pages p;
        fewer = λ q free'. (free-inc_at k.pages space.pool p p-used q free').1;
        lost = Loses-one k next p refl refl (free-inc_at_other k.pages p);
      };
      node = Node-new k.memory next.memory root c n s base space.tree add-Linking;
    }

  -- A round follows the map that is there, or adds a free page as an empty map, or faults when no
  -- page is free.
  pub descend-Outcome : Outcome 1 fuel k c (suc n) (descend (suc fuel) s (index c n) k)
  descend-Outcome = elim (Bool-cases (get_option k.memory (slot s c n) pme_present)) [
    | inl present ↦
        let t = get_address k.memory (slot s c n) in
        let reached = follow-Reached present in
        let frame = reached.space.tree.frames c (suc n) t (omega arith) reached.node in
        inr (false, t, k, Descent-descend frame (follow present refl refl refl), reached)
    | inr absent ↦ from absent (get_free_page-Search k fuel can)
  ]
    where
      from :
          get_option k.memory (slot s c n) pme_present ≡ false
          → (r : Option ℕ) × (get_free_page (suc fuel) k ≡ ok r k) × Search k 0 k.zones_nr r
          → Outcome 1 fuel k c (suc n) (descend (suc fuel) s (index c n) k)
      from absent (none, run, _) =
          inl (
            (unfold descend in rw (absent, run) refl),
            (0, omega arith, k, IsGrown-refl k, can, run),
          )
      from absent (some p, run, search) =
          let free = Search-free search in
          inr (
            true,
            base p free absent run,
            next p free absent run,
            Descent-descend (base-IsFrame p free absent run) (add-Descent p free absent run),
            add-Reached p free absent run,
          )
