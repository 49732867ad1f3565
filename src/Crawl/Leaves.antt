-- ===== src/Crawl/Leaves.antt =====
-- `crawlPagingTree` of src/mm/mm.cpp against the list of the pages that a tree maps.
use kmd.Base.{
  ℕ, zero, suc, ◌+◌, ◌≡◌, ◌∙◌, subst, get_elem?, sub64, ◌>>>◌, refl, sym, ap, Bool, true, false,
  List, [], ◌∷◌, ◌++◌, if◌then◌else◌, Bool-cases, inl, inr, Option, none, some,
}
use kmd.Memory.{Memory}
use kmd.Kernel.{Kernel, Zone, Run, ok, fault, out_of_fuel, Cmd, and_then, ◌>>◌}
use kmd.PageMapEntry.{get_address, get_option, pme_present}
use kmd.PageMap.{get_entry}
use kmd.Page.{inc_page}
use kmd.Zones.{in_zone, get_page, get_page_loop, page_in}
use kmd.Crawl.{count_page, crawl_loop, crawl_paging_tree}

-- The pages under the entries of a map from `i` on; `under` is what is under one entry.
unfoldable entries : (ℕ → List ℕ) → ℕ → ℕ → Memory → ℕ → List ℕ
entries under zero i m root = []
entries under (suc left) i m root =
    let pme = get_entry (record { fields = root }) i in
    let rest = entries under left (i + 1) m root in
    if get_option m pme pme_present then under (get_address m pme) ++ rest else rest

-- The addresses in the last entries of the tree at `root`, from left to right.
unfoldable pub leaves : ℕ → Memory → ℕ → List ℕ
unfolding entries
leaves zero m root = root ∷ []
leaves (suc level) m root = entries (leaves level m) 512 0 m root

unfoldable pub count_all : List ℕ → Cmd (Unit {0})
count_all [] k = ok tt k
count_all (a ∷ rest) k = (count_page a >> count_all rest) k

-- A run that leaves the memory alone, if it ends.
unfoldable Keeps {ℓ} : {A : Type ℓ} → Memory → Run A → Type 0
Keeps m (ok a k) = k.memory ≡ m
Keeps m fault = Unit
Keeps m out_of_fuel = Unit

module _ {ℓ κ} {A : Type ℓ} {B : Type κ} (m : Memory) where
  Keeps-and_then :
      (r : Run A) (f : A → Cmd B)
      → Keeps m r
      → ((a : A) (k : Kernel) → k.memory ≡ m → Keeps m (f a k))
      → Keeps m (and_then r f)
  unfolding Keeps
  Keeps-and_then (ok a k) f e h = h a k e
  Keeps-and_then fault f e h = tt
  Keeps-and_then out_of_fuel f e h = tt

  and_then-congr :
      (r : Run A) (f g : A → Cmd B)
      → Keeps m r
      → ((a : A) (k : Kernel) → k.memory ≡ m → f a k ≡ g a k)
      → and_then r f ≡ and_then r g
  unfolding Keeps
  and_then-congr (ok a k) f g e h = h a k e
  and_then-congr fault f g e h = refl
  and_then-congr out_of_fuel f g e h = refl

and_then-and_then :
    (r : Run (Unit {0})) (f g : Cmd (Unit {0}))
    → and_then (and_then r (λ _. f)) (λ _. g) ≡ and_then r (λ _ k. and_then (f k) (λ _. g))
and_then-and_then (ok a k) f g = refl
and_then-and_then fault f g = refl
and_then-and_then out_of_fuel f g = refl

page_in-Keeps : (z : Zone) (offset : ℕ) (k : Kernel) → Keeps k.memory (page_in z offset k)
unfolding page_in Keeps
page_in-Keeps z offset k =
    elim z.pages
      as (λ o.
        Keeps k.memory
          (elim o as (λ _. Run (Option ℕ)) [ none ↦ fault | some p ↦ ok (some (p + offset)) k ])) [
            | none ↦ tt
            | some p ↦ refl
          ]

get_page_loop-Keeps : (left i base : ℕ) (k : Kernel) → Keeps k.memory (get_page_loop left i base k)
unfolding Keeps get_page_loop page_in
get_page_loop-Keeps zero i base k = refl
get_page_loop-Keeps (suc left) i base k =
    let rest = get_page_loop-Keeps left (i + 1) base k in
    elim (get_elem? k.zones i)
      as (λ o. Keeps k.memory (elim o as (λ _. Run (Option ℕ)) [
        | none ↦ fault
        | some z ↦
            if in_zone z base
            then page_in z (sub64 base z.begin >>> 12) k
            else get_page_loop left (i + 1) base k
      ])) [ none ↦ tt | some z ↦ inside z (in_zone z base) _ rest ]
  where
    inside :
        (z : Zone) (b : Bool) (r : Run (Option ℕ))
        → Keeps k.memory r
        → Keeps k.memory (if b then page_in z (sub64 base z.begin >>> 12) k else r)
    inside z true r h = page_in-Keeps z (sub64 base z.begin >>> 12) k
    inside z false r h = h

count_page-Keeps : (a : ℕ) (k : Kernel) → Keeps k.memory (count_page a k)
unfolding count_page get_page inc_page Keeps
count_page-Keeps a k =
    Keeps-and_then k.memory (get_page a k) _ (get_page_loop-Keeps k.zones_nr 0 a k) (λ o k' e.
      elim o
        as (λ o.
          Keeps k.memory
            ((elim o as (λ _. Cmd (Unit {0})) [ none ↦ λ _. fault | some p ↦ inc_page p ]) k')) [
              | none ↦ tt
              | some p ↦ e
            ])

count_all-Keeps : (l : List ℕ) (k : Kernel) → Keeps k.memory (count_all l k)
unfolding count_all Keeps
count_all-Keeps [] k = refl
count_all-Keeps (a ∷ rest) k =
    Keeps-and_then k.memory (count_page a k) _ (count_page-Keeps a k)
      (λ u k' e. subst (λ m. Keeps m (count_all rest k')) e (count_all-Keeps rest k'))

count_all-append :
    (xs ys : List ℕ) (k : Kernel)
    → count_all (xs ++ ys) k ≡ and_then (count_all xs k) (λ _. count_all ys)
unfolding count_all
count_all-append [] ys k = refl
count_all-append (a ∷ xs) ys k =
    and_then-congr k.memory (count_page a k) _ _ (count_page-Keeps a k)
      (λ u k' e. count_all-append xs ys k')
    ∙ sym (and_then-and_then (count_page a k) (count_all xs) (count_all ys))

-- What is asked of a visit: that it counts the pages under an entry.
abbrev Counts : Memory → (ℕ → Cmd (Unit {0})) → (ℕ → List ℕ) → Type 0
Counts m visit under = (a : ℕ) (k : Kernel) → k.memory ≡ m → visit a k ≡ count_all (under a) k

crawl_loop-entries :
    (visit : ℕ → Cmd (Unit {0})) (under : ℕ → List ℕ) (m : Memory)
    → Counts m visit under
    → (left i root : ℕ) (k : Kernel) → k.memory ≡ m
    → crawl_loop visit left i (record { fields = root }) k
      ≡ count_all (entries under left i m root) k
unfolding crawl_loop entries
crawl_loop-entries visit under m h zero i root k e = unfold count_all in refl
crawl_loop-entries visit under m h (suc left) i root k e =
    let next = crawl_loop-entries visit under m h left (i + 1) root in
    let pme = get_entry (record { fields = root }) i in
    let test = ap (λ m'. get_option m' pme pme_present) e in
    let addr = ap (λ m'. get_address m' pme) e in
    elim (Bool-cases (get_option m pme pme_present)) [
      | inl present ↦
          let here = under (get_address m pme) in
          let counted = h (get_address m pme) k e in
          rw
            (
              test,
              present,
              addr,
              counted,
              count_all-append here (entries under left (i + 1) m root) k,
            )
            (and_then-congr m (count_all here k) _ _
              (subst (λ m'. Keeps m' (count_all here k)) e (count_all-Keeps here k))
              (λ u k' e'. next k' e'))
      | inr absent ↦ rw (test, absent) (next k e)
    ]

count_one : (a : ℕ) (k : Kernel) → count_page a k ≡ count_all (a ∷ []) k
unfolding count_all
count_one a k = ends (count_page a k)
  where
    ends : (r : Run (Unit {0})) → r ≡ and_then r (λ _. count_all [])
    ends (ok u k') = refl
    ends fault = refl
    ends out_of_fuel = refl

crawl-Counts :
    (level : ℕ) (m : Memory) → Counts m (crawl_paging_tree (suc level)) (leaves (suc level) m)
unfolding crawl_paging_tree leaves
crawl-Counts zero m root k e =
    crawl_loop-entries count_page (leaves zero m) m (λ a k' e'. count_one a k') 512 0 root k e
crawl-Counts (suc level) m root k e =
    crawl_loop-entries (crawl_paging_tree (suc level)) (leaves (suc level) m) m
      (crawl-Counts level m) 512 0 root k e

-- `crawlPagingTree` counts one more reference to the page of each present entry of the last level
-- that is reached through present entries, in the order of the tree, and nothing else.
pub crawl_paging_tree-leaves :
    (level root : ℕ) (k : Kernel)
    → crawl_paging_tree (suc level) root k ≡ count_all (leaves (suc level) k.memory root) k
crawl_paging_tree-leaves level root k = crawl-Counts level k.memory root k refl
