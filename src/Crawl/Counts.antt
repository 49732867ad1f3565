-- ===== src/Crawl/Counts.antt =====
-- How many references `crawlPagingTree` of src/mm/mm.cpp adds to each page.
use kmd.Base.{
  ℕ, suc, ◌+◌, ◌*◌, ◌/◌, ◌^◌, ◌<◌, ◌≡◌, ◌∙◌, refl, ap, sym, arith, subst, true, false, ◌==◌, ==_iff,
  ==_refl, if◌then◌else◌, Bool-cases, inl, inr, Option, none, some, List, [], ◌∷◌, get_elem?, All,
  u64,
}
use mathlib.Core.Bool.{true≢false}
use kmd.Kernel.{Page, Zone, Kernel, ok}
use kmd.Page.{update_page, inc_references, inc_page}
use kmd.Zones.{in_zone, get_page}
use kmd.Zones.GetPage.{IsZoned, Found, missing, found, get_page-Found}
use kmd.Zones.Unchanged.{get_page-unchanged}
use kmd.Crawl.{count_page, crawl_paging_tree}
use kmd.Crawl.Leaves.{leaves, count_all, crawl_paging_tree-leaves}

-- A zone in use holds the address.
abbrev pub InZone : Kernel → ℕ → Type 0
InZone k a =
    (j : ℕ) × (z : Zone) × (j < k.zones_nr) × (get_elem? k.zones j ≡ some z) × (in_zone z a ≡ true)

-- The indices of the records of the pages that the addresses lie in.
unfoldable pub Indexed : Kernel → List ℕ → List ℕ → Type 0
Indexed k [] [] = Unit
Indexed k (a ∷ l) (p ∷ ps) =
    (get_page a k ≡ ok (some p) k) × ((k.pages p).base ≡ a / 4096 * 4096) × Indexed k l ps
Indexed k _ _ = ⊥

unfoldable pub occurrences : ℕ → List ℕ → ℕ
occurrences q [] = 0
occurrences q (p ∷ ps) = let rest = occurrences q ps in if q == p then suc rest else rest

get_page-page :
    (k : Kernel) (a : ℕ)
    → IsZoned k
    → InZone k a
    → (p : ℕ) × (get_page a k ≡ ok (some p) k) × ((k.pages p).base ≡ a / 4096 * 4096)
get_page-page k a zoned (j, z, lt, at, inside) = of_result (get_page-Found k a zoned)
  where
    of_result :
        (r : Option ℕ) × (get_page a k ≡ ok r k) × Found k a 0 k.zones_nr r
        → (p : ℕ) × (get_page a k ≡ ok (some p) k) × ((k.pages p).base ≡ a / 4096 * 4096)
    of_result (none, run, missing unseen) =
        absurd (true≢false (sym inside ∙ unseen j z (omega arith) lt at))
    of_result (some p, run, found _ _ _ _ _ _ base) = (p, run, base)

Indexed-total :
    (k : Kernel) (l : List ℕ) → IsZoned k → All (InZone k) l → (ps : List ℕ) × Indexed k l ps
unfolding Indexed
Indexed-total k [] zoned _ = ([], tt)
Indexed-total k (a ∷ l) zoned (here, there) =
    let (p, run, base) = get_page-page k a zoned here in
    let (ps, rest) = Indexed-total k l zoned there in (p ∷ ps, (run, base, rest))

-- What is counted: the references of each page, and nothing else.
abbrev pub Counted : List ℕ → (ℕ → Page) → (ℕ → Page) → Type 0
Counted ps pages pages' =
    (q : ℕ)
    → pages' q ≡ record (pages q) { references = u64 ((pages q).references + occurrences q ps) }

-- The records are of 64 bits.
abbrev pub Fits : (ℕ → Page) → Type 0
Fits pages = (q : ℕ) → (pages q).references < 2 ^ 64

abbrev referenced : Page → ℕ → Page
referenced p n = record p { references = n }

module _ (p : ℕ) (pages : ℕ → Page) where
  abbrev one_more : ℕ → Page
  one_more = update_page pages p (referenced (pages p) (u64 ((pages p).references + 1)))

  one_more-Fits : Fits pages → Fits one_more
  one_more-Fits fits q = elim (Bool-cases (q == p)) [
    | inl same ↦ rw same (omega arith)
    | inr other ↦ rw other (fits q)
  ]

  one_more-base : (q : ℕ) → (one_more q).base ≡ (pages q).base
  one_more-base q = elim (Bool-cases (q == p)) [
    | inl same ↦ rw same (ap (λ i. (pages i).base) (sym ((==_iff q p).0 same)))
    | inr other ↦ rw other refl
  ]

  abbrev Adds : List ℕ → ℕ → Type 0
  Adds ps q =
      referenced (one_more q) (u64 ((one_more q).references + occurrences q ps))
      ≡ referenced (pages q) (u64 ((pages q).references + occurrences q (p ∷ ps)))

  Adds-here : (ps : List ℕ) → Adds ps p
  unfolding occurrences
  Adds-here ps =
      let wraps : (n : ℕ)
          → u64 (u64 ((pages p).references + 1) + n) ≡ u64 ((pages p).references + suc n) =
        λ n. omega arith in
      rw (==_refl p) (ap (referenced (pages p)) (wraps (occurrences p ps)))

  Adds-there : (ps : List ℕ) (q : ℕ) → (q == p) ≡ false → Adds ps q
  unfolding occurrences
  Adds-there ps q other = rw other refl

  Counted-cons :
      (ps : List ℕ) (pages' : ℕ → Page) → Counted ps one_more pages' → Counted (p ∷ ps) pages pages'
  Counted-cons ps pages' h q = h q ∙ elim (Bool-cases (q == p)) [
    | inl same ↦ subst (Adds ps) (sym ((==_iff q p).0 same)) (Adds-here ps)
    | inr other ↦ Adds-there ps q other
  ]

Indexed-unchanged :
    (k k' : Kernel) (l ps : List ℕ)
    → k'.zones ≡ k.zones
    → k'.zones_nr ≡ k.zones_nr
    → ((q : ℕ) → (k'.pages q).base ≡ (k.pages q).base)
    → Indexed k l ps
    → Indexed k' l ps
unfolding Indexed
Indexed-unchanged k k' [] [] e n b h = tt
Indexed-unchanged k k' [] (p ∷ ps) e n b h = h
Indexed-unchanged k k' (a ∷ l) [] e n b h = h
Indexed-unchanged k k' (a ∷ l) (p ∷ ps) e n b (run, base, rest) =
    (get_page-unchanged k k' (some p) a e n run, b p ∙ base, Indexed-unchanged k k' l ps e n b rest)

count_page-run :
    (k : Kernel) (a p : ℕ)
    → get_page a k ≡ ok (some p) k
    → count_page a k ≡ ok tt (record k { pages = one_more p k.pages })
unfolding count_page inc_page inc_references
count_page-run k a p run = rw run refl

u64-small : (n : ℕ) → n < 2 ^ 64 → n ≡ u64 (n + 0)
u64-small n lt = omega arith

count_all-Counted :
    (k : Kernel) (l ps : List ℕ)
    → Fits k.pages
    → Indexed k l ps
    → (pages : ℕ → Page) × (count_all l k ≡ ok tt (record k { pages = pages }))
      × Counted ps k.pages pages
unfolding count_all Indexed occurrences
count_all-Counted k [] [] fits h =
    (k.pages, refl, λ q. ap (referenced (k.pages q)) (u64-small (k.pages q).references (fits q)))
count_all-Counted k [] (p ∷ ps) fits h = absurd h
count_all-Counted k (a ∷ l) [] fits h = absurd h
count_all-Counted k (a ∷ l) (p ∷ ps) fits (run, base, rest) =
    let k1 = record k { pages = one_more p k.pages } in
    let (pages, more, counted) =
      count_all-Counted k1 l ps (one_more-Fits p k.pages fits)
        (Indexed-unchanged k k1 l ps refl refl (one_more-base p k.pages) rest) in
    (pages, rw (count_page-run k a p run) more, Counted-cons p k.pages ps pages counted)

-- When the zones are set up and each page that the tree maps lies in a zone, `crawlPagingTree` ends,
-- and adds to the references of each page, on 64 bits, the number of entries of the last level,
-- reached through present entries, that lead into it; nothing else changes.
pub crawl_paging_tree-counts :
    (level root : ℕ) (k : Kernel)
    → IsZoned k
    → All (InZone k) (leaves (suc level) k.memory root)
    → Fits k.pages
    → (ps : List ℕ) × (pages : ℕ → Page) × Indexed k (leaves (suc level) k.memory root) ps
      × Counted ps k.pages pages
      × (crawl_paging_tree (suc level) root k ≡ ok tt (record k { pages = pages }))
crawl_paging_tree-counts level root k zoned inside fits =
    let l = leaves (suc level) k.memory root in
    let (ps, indexed) = Indexed-total k l zoned inside in
    let (pages, run, counted) = count_all-Counted k l ps fits indexed in
    (ps, pages, indexed, counted, crawl_paging_tree-leaves level root k ∙ run)
