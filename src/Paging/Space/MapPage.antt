-- ===== src/Paging/Space/MapPage.antt =====
-- `mapPage` of src/mm/mm.cpp as an update of the map from addresses to words.
use kmd.Base.{
  ℕ, suc, ◌+◌, ◌-◌, ◌%◌, ◌^◌, ◌<◌, ◌≡◌, ◌≢◌, ◌∙◌, ◌↔◌, ◌⊎◌, inl, inr, refl, Bool, false, true, some,
  arith, bit_and, bit_or, ==_iff, ap, sym,
}
use kmd.Memory.{Memory, load64}
use kmd.Kernel.{Kernel, Run, ok, fault}
use kmd.PageMapEntry.{get_address, get_option}
use kmd.Page.{is_free, inc_page}
use kmd.Zones.{get_page}
use kmd.Zones.FreePage.{CanScan}
use kmd.Paging.{descend_all, map_known, map_page}
use kmd.Paging.Descent.{IsFrame, update_page-base}
use kmd.Paging.PutPage.{
  put, put-address, put-word, put-flags, put-present, put-outside, put_page-put,
}
use kmd.Paging.MapPage.{counted}
use kmd.Paging.Tree.{slot, Node, Node-unique, Leaf}
use kmd.Paging.Tree.Write.{IsTree-write, Node-write, Node-unwrite, Leaf-write}
use kmd.Paging.Tree.Walk.{page_number, Same-iff}
use kmd.Paging.Space.{IsSpace, Has, IsGrown}
use kmd.Zones.Spare.{Loses, Loses-one, Loses-same, HasSpare}
use kmd.Paging.Space.Pool.{free-inc_at_other, inc_at-used, free-inc_at, IsPool-inc_at}
use kmd.Paging.Space.Round.{IsGrown-trans, Reached, Exhausted, Outcome}
use kmd.Paging.Space.Descend.{descend_all-Outcome, Exhausted-trans, Exhausted-spare}

-- A word that maps the page at `base` with the options of `flags`.
abbrev pub IsWord : ℕ → ℕ → ℕ → Type 0
IsWord base flags w = (bit_and w (2 ^ 64 - 4096) ≡ base) × (bit_and w flags ≡ flags)

-- The word of an address stands in the last map on its way.
Leaf-node :
    (m : Memory) (root a t w : ℕ)
    → Leaf m root a w
    → Node m root a 3 t
    → w ≡ load64 m (slot t a 3).field
Leaf-node m root a t w (s, node, present, word) n =
    sym word ∙ ap (λ x. load64 m (slot x a 3).field) (Node-unique m root a 3 s t node n)

-- Counting a reference to the mapped page does not touch the page maps, and takes the page out of
-- the pool if it was in it.
module _ (k : Kernel) (p : ℕ) (space : IsSpace k)
    (small : (k.pages p).references + 1 < 2 ^ 64) where
  counted-IsSpace : IsSpace (counted k p)
  counted-IsSpace = record {
    tree = space.tree;
    pool = IsPool-inc_at k.pages space.pool p (inc_at-used k.pages space.pool p small);
    apart = λ q a d t free h n.
        let old =
          (free-inc_at k.pages space.pool p (inc_at-used k.pages space.pool p small) q free).1 in
        rw (update_page-base k.pages p q) (space.apart q a d t old h n);
  }

  -- It is not free any more.
  counted-free :
      (q : ℕ) → is_free ((counted k p).pages q) ≡ true → (q ≢ p) × (is_free (k.pages q) ≡ true)
  counted-free = free-inc_at k.pages space.pool p (inc_at-used k.pages space.pool p small)

  counted-IsGrown : IsGrown 1 k (counted k p)
  counted-IsGrown = record {
    root = refl;
    words = λ a w. ((λ l. l), (λ l. l));
    zones = (refl, refl);
    bases = update_page-base k.pages p;
    fewer = λ q free. (counted-free q free).1;
    lost = Loses-one k (counted k p) p refl refl (free-inc_at_other k.pages p);
  }

-- The last entry is written in a state that has the words of the first.
module _ (fuel : ℕ) (k0 k : Kernel) (dst t base flags : ℕ) (n : ℕ) (r : Reached n fuel k0 dst 3 k t)
    (frame : IsFrame base) (low : flags < 4096) (present : flags % 2 ≡ 1) where
  abbrev last : Kernel
  last = put k (slot t dst 3) dst base flags

  put-IsWord : IsWord base flags (load64 last.memory (slot t dst 3).field)
  unfolding get_address get_option
  put-IsWord = (
    put-address k t dst base flags frame low present,
    (==_iff (bit_and (load64 last.memory (slot t dst 3).field) flags) flags).0
        (put-flags k t dst base flags frame low present),
  )

  put-Has : Has last dst (load64 last.memory (slot t dst 3).field)
  put-Has = (
    t,
    Node-write k.memory last.memory k.page_map_level4 dst t r.space.tree r.node
        (put-outside k t dst base flags frame low present) dst 3 t (omega arith) r.node,
    put-present k t dst base flags frame low present,
    refl,
  )

  put-old : (w : ℕ) → Has k0 dst w → w ≡ load64 k.memory (slot t dst 3).field
  put-old w h = Leaf-node k.memory k.page_map_level4 dst t w ((r.grown.words dst w).0 h) r.node

  put-others : (a w : ℕ) → page_number a ≢ page_number dst → Has k0 a w ↔ Has last a w
  put-others a w other =
      let step =
        Leaf-write k.memory last.memory k.page_map_level4 dst t r.space.tree r.node
          (put-outside k t dst base flags frame low present) a w
          (λ s. other ((Same-iff a dst).0 s)) in
      ((λ h. step.0 ((r.grown.words a w).0 h)), (λ h. (r.grown.words a w).1 (step.1 h)))

  put-IsSpace : IsSpace last
  put-IsSpace = record {
    tree =
        IsTree-write k.memory last.memory k.page_map_level4 dst t r.space.tree r.node
          (put-outside k t dst base flags frame low present);
    pool = r.space.pool;
    apart = λ p a d u free h n. r.space.apart p a d u free h (
        Node-unwrite k.memory last.memory k.page_map_level4 dst t r.space.tree r.node
          (put-outside k t dst base flags frame low present) a d u h n);
  }

-- What `mapPage` does to the map from addresses to words: the address has a word that maps the page,
-- with the low bits of the old word and the flags, and
-- every address of another page has the words that it had, and the mapped page is not free.
pub record IsMapped (k : Kernel) (dst p flags : ℕ) (k' : Kernel) : Type 0 where
  pub space : IsSpace k'
  pub root : k'.page_map_level4 ≡ k.page_map_level4
  pub word : ℕ
  pub has : Has k' dst word
  pub maps : IsWord (k.pages p).base flags word
  pub old : ℕ
  pub written : word ≡ bit_or ((k.pages p).base + old % 4096) flags
  pub was : (w : ℕ) → Has k dst w → w ≡ old
  pub others : (a w : ℕ) → page_number a ≢ page_number dst → Has k a w ↔ Has k' a w
  pub zones : (k'.zones ≡ k.zones) × (k'.zones_nr ≡ k.zones_nr)
  pub bases : (q : ℕ) → (k'.pages q).base ≡ (k.pages q).base
  pub fewer : (q : ℕ) → is_free (k'.pages q) ≡ true → (q ≢ p) × (is_free (k.pages q) ≡ true)
  pub lost : Loses 4 k k'

module _ (fuel : ℕ) (k : Kernel) (dst src flags p : ℕ) (space : IsSpace k) (can : CanScan k fuel)
    (frame : IsFrame (k.pages p).base) (small : (k.pages p).references + 1 < 2 ^ 64)
    (low : flags < 4096) (present : flags % 2 ≡ 1) where
  abbrev kc : Kernel
  kc = counted k p

  abbrev Maps : Run Bool → Type 0
  Maps run =
      ((run ≡ fault) × Exhausted 4 fuel k)
      ⊎ ((new : Bool) × (k' : Kernel) × (run ≡ ok new k') × IsMapped k dst p flags k')

  IsMapped-put :
      (k' : Kernel) (t : ℕ)
      → Reached 3 fuel kc dst 3 k' t
      → IsMapped k dst p flags (put k' (slot t dst 3) dst (k.pages p).base flags)
  IsMapped-put k' t r =
      let grown = IsGrown-trans 1 3 k kc k' (counted-IsGrown k p space small) r.grown in
      record {
        space = put-IsSpace fuel kc k' dst t (k.pages p).base flags 3 r frame low present;
        root = grown.root;
        word =
            load64 (put k' (slot t dst 3) dst (k.pages p).base flags).memory (slot t dst 3).field;
        has = put-Has fuel kc k' dst t (k.pages p).base flags 3 r frame low present;
        maps = put-IsWord fuel kc k' dst t (k.pages p).base flags 3 r frame low present;
        old = load64 k'.memory (slot t dst 3).field;
        written = put-word k' t dst (k.pages p).base flags frame low present;
        was = put-old fuel kc k' dst t (k.pages p).base flags 3 r frame low present;
        others = put-others fuel kc k' dst t (k.pages p).base flags 3 r frame low present;
        zones = grown.zones;
        bases = grown.bases;
        fewer = λ q free. counted-free k p space small q (r.grown.fewer q free);
        lost =
            Loses-same 4 k k' (put k' (slot t dst 3) dst (k.pages p).base flags) refl refl
              (λ q. refl) grown.lost;
      }

  kc-CanScan : CanScan kc fuel
  kc-CanScan = record { in_array = can.in_array; has_pages = can.has_pages; bounded = can.bounded }

  kc-Node : Node kc.memory kc.page_map_level4 dst 0 k.page_map_level4
  unfolding Node
  kc-Node = refl

  kc-Outcome : Outcome 3 fuel kc dst 3 (descend_all (suc fuel) 3 dst false k.page_map_level4 kc)
  kc-Outcome =
      descend_all-Outcome fuel dst 3 0 k.page_map_level4 false kc refl
        (counted-IsSpace k p space small) kc-CanScan kc-Node

  map_known-Maps :
      Outcome 3 fuel kc dst 3 (descend_all (suc fuel) 3 dst false k.page_map_level4 kc)
      → Maps (map_known (suc fuel) dst p flags k)
  unfolding map_known inc_page
  map_known-Maps (inl (run, x)) =
      inl (rw run refl, Exhausted-trans 1 3 fuel k kc (counted-IsGrown k p space small) x)
  map_known-Maps (inr (new, t, k', run, r)) =
      let same : (k'.pages p).base ≡ (k.pages p).base =
        r.grown.bases p ∙ update_page-base k.pages p p in
      inr (
        new,
        put k' (slot t dst 3) dst (k.pages p).base flags,
        rw (run, put_page-put k' t dst (k.pages p).base flags frame low present p same) refl,
        IsMapped-put k' t r,
      )

  -- `mapPage` of a known page, whose references are not used up, with flags that have the present bit
  -- and only option bits, in a state where the page maps are a tree apart from the free pages: either
  -- it faults on a null page, in a state where no page is free and no address has another word, or it
  -- returns, the page maps are such a tree again, the address has a word that maps the page with
  -- the flags, and the low twelve bits of the word that it had, if it had one, the addresses of all
  -- other pages have exactly the words that they had, and the page is not free.
  pub map_page-IsMapped :
      get_page src k ≡ ok (some p) k
      → ((map_page (suc fuel) dst src flags k ≡ fault) × Exhausted 4 fuel k)
        ⊎ ((new : Bool) × (k' : Kernel) × (map_page (suc fuel) dst src flags k ≡ ok new k')
            × IsMapped k dst p flags k')
  unfolding map_page
  map_page-IsMapped known = rw known (map_known-Maps kc-Outcome)

  -- `mapPage` of a known page, whose references are not used up, with flags that have the present bit
  -- and only option bits, in a state where the page maps are a tree apart from the free pages,
  -- returns when `getFreePage` can still find four pages. The address then has a word that maps the
  -- page with the flags, the addresses of all other pages have the words that they had, the page maps
  -- are such a tree again, the page is not free, and at most four pages that could be found before
  -- cannot be found any more.
  pub map_page-returns :
      HasSpare k 4
      → get_page src k ≡ ok (some p) k
      → (new : Bool) × (k' : Kernel) × (map_page (suc fuel) dst src flags k ≡ ok new k')
        × IsMapped k dst p flags k'
  map_page-returns spare known = elim (map_page-IsMapped known) [
    | inl (_, x) ↦ absurd (Exhausted-spare 4 fuel k spare x)
    | inr done ↦ done
  ]
