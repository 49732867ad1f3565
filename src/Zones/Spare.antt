-- ===== src/Zones/Spare.antt =====
-- How many free pages `getFreePage` of src/mm/mm.cpp can still return.
pub mod Runs
use kmd.Base.{
  ℕ, suc, ◌+◌, ◌<◌, ◌≤◌, ◌≡◌, ◌≢◌, ◌∙◌, sym, subst, true, List, [], ◌∷◌, length, Option, none, some,
  arith,
}
use mathlib.Core.Bool.{true≢false}
use kmd.Kernel.{Kernel, ok}
use kmd.Page.{is_free}
use kmd.Zones.{get_free_page}
use kmd.Zones.FreePage.{CanScan, IsScanned, Search, none_free, get_free_page-Search}

-- The page is free, and the search of the zones comes to it.
pub record IsSpare (k : Kernel) (p : ℕ) : Type 0 where
  pub free : is_free (k.pages p) ≡ true
  pub zone : ℕ
  pub in_use : zone < k.zones_nr
  pub scanned : IsScanned k zone p

unfoldable pub NotIn : ℕ → List ℕ → Type 0
NotIn p [] = Unit
NotIn p (q ∷ l) = (p ≢ q) × NotIn p l

-- There are at least `n` spare pages: besides fewer than `n` pages there is always one more.
unfoldable pub HasSpare : Kernel → ℕ → Type 0
HasSpare k n = (l : List ℕ) → length l < n → (p : ℕ) × IsSpare k p × NotIn p l

-- At most `n` pages are not spare any more.
unfoldable pub Loses : ℕ → Kernel → Kernel → Type 0
Loses n k k' = (m : ℕ) → HasSpare k (n + m) → HasSpare k' m

pub Loses-none : (k : Kernel) → Loses 0 k k
unfolding Loses
Loses-none k m h = subst (HasSpare k) (omega arith) h

pub Loses-trans :
    (a b : ℕ) (k k' k'' : Kernel) → Loses a k k' → Loses b k' k'' → Loses (a + b) k k''
unfolding Loses
Loses-trans a b k k' k'' f g m h =
    let e : a + b + m ≡ a + (b + m) = omega arith in g m (f (b + m) (subst (HasSpare k) e h))

pub Loses-more : (a b : ℕ) (k k' : Kernel) → a ≤ b → Loses a k k' → Loses b k k'
unfolding Loses HasSpare
Loses-more a b k k' le f m h = f m (λ l lt. h l (omega arith))

pub IsSpare-kept :
    (k k' : Kernel) (p : ℕ)
    → k'.zones ≡ k.zones
    → k'.zones_nr ≡ k.zones_nr
    → is_free (k'.pages p) ≡ true
    → IsSpare k p
    → IsSpare k' p
IsSpare-kept k k' p e n free s = record {
  free = free;
  zone = s.zone;
  in_use = rw n s.in_use;
  scanned = record {
    zone = s.scanned.zone;
    at = rw e s.scanned.at;
    first = s.scanned.first;
    pages_eq = s.scanned.pages_eq;
    page = s.scanned.page;
    below = s.scanned.below;
    index = s.scanned.index;
  };
}

-- When all free pages but one stay free, at most one is lost.
pub Loses-one :
    (k k' : Kernel) (q : ℕ)
    → k'.zones ≡ k.zones
    → k'.zones_nr ≡ k.zones_nr
    → ((p : ℕ) → p ≢ q → is_free (k.pages p) ≡ true → is_free (k'.pages p) ≡ true)
    → Loses 1 k k'
unfolding Loses HasSpare NotIn
Loses-one k k' q e n kept m h l lt =
    let (p, s, (ne, out)) = h (q ∷ l) (omega arith) in
    (p, IsSpare-kept k k' p e n (kept p ne s.free) s, out)

-- What is not in the pages and the zones does not matter.
pub Loses-same :
    (n : ℕ) (k k' k'' : Kernel)
    → k''.zones ≡ k'.zones
    → k''.zones_nr ≡ k'.zones_nr
    → ((p : ℕ) → k''.pages p ≡ k'.pages p)
    → Loses n k k'
    → Loses n k k''
unfolding Loses HasSpare
Loses-same n k k' k'' e nr same f m h l lt =
    let (p, s, out) = f m h l lt in (p, IsSpare-kept k' k'' p e nr (rw (same p) s.free) s, out)

pub HasSpare-less : (m n : ℕ) (k : Kernel) → m ≤ n → HasSpare k n → HasSpare k m
unfolding HasSpare
HasSpare-less m n k le h l lt = h l (omega arith)

-- While a page is spare, `getFreePage` returns one.
pub get_free_page-spare :
    (k : Kernel) (fuel : ℕ) → CanScan k fuel → HasSpare k 1 → get_free_page (suc fuel) k ≢ ok none k
unfolding HasSpare
get_free_page-spare k fuel can h run =
    let (p, s, _) = h [] (omega arith) in from p s (get_free_page-Search k fuel can)
  where
    from :
        (p : ℕ)
        → IsSpare k p
        → (r : Option ℕ) × (get_free_page (suc fuel) k ≡ ok r k) × Search k 0 k.zones_nr r
        → ⊥
    from p s (none, _, none_free all) =
        true≢false (sym s.free ∙ all s.zone p (omega arith) s.in_use s.scanned)
    from p s (some q, run', _) = let e : ok none k ≡ ok (some q) k = sym run ∙ run' in absurd (cc e)
