-- ===== src/Ranges/MapFirst.antt =====
-- `mapFirst` of src/mm/mm.cpp maps each page of a range to a free page of its own.
pub mod Step
pub mod Loop
use kmd.Base.{
  ℕ, zero, suc, ◌+◌, ◌-◌, ◌*◌, ◌/◌, ◌%◌, ◌^◌, ◌≤◌, ◌<◌, ◌≡◌, ◌≢◌, ◌∙◌, ◌↔◌, ◌⊎◌, inl, inr, sym,
  refl, ap, Bool, true, false, ◌||◌, ◌==◌, if◌then◌else◌, Option, none, some, arith, Bool-cases,
  ==_iff, ==_false→ne, ne→==, ==_refl, u64, ◌<<<◌,
}
use kmd.Kernel.{Kernel, Run, ok, fault}
use kmd.Page.{is_free}
use kmd.Zones.{get_page, get_free_page}
use kmd.Zones.FreePage.{CanScan, Search, get_free_page-Search}
use kmd.Zones.Spare.{Loses, Loses-none}
use kmd.Zones.Unchanged.{get_page-unchanged, CanScan-unchanged}
use kmd.Paging.{map_page, flush_tlb}
use kmd.Paging.Tree.Walk.{page_number}
use kmd.Paging.Space.{IsSpace, Has}
use kmd.Paging.Space.Pool.{free-small}
use kmd.Paging.Space.Round.{Search-free, Exhausted}
use kmd.Paging.Space.MapPage.{IsWord, IsMapped, map_page-IsMapped}
use kmd.Ranges.{nr_pages, page_dst, free_base, map_first_loop, map_first, flush_if}

-- The page maps are a tree apart from the free pages, `getFreePage` can search the zones, and
-- `getPage` finds each free page at its address.
pub record IsReady (fuel : ℕ) (k : Kernel) : Type 0 where
  pub space : IsSpace k
  pub scan : CanScan k fuel
  pub known : (p : ℕ) → is_free (k.pages p) ≡ true → get_page (k.pages p).base k ≡ ok (some p) k

-- A state with no free page, in which no page is free that was not free in the first, and fewer than
-- `n` pages are lost.
abbrev pub Empty : ℕ → ℕ → Kernel → Type 0
Empty n fuel k =
    (m : ℕ) × (m < n)
    × (k' : Kernel) × Loses m k k'
    × CanScan k' fuel
    × ((p : ℕ) → is_free (k'.pages p) ≡ true → is_free (k.pages p) ≡ true)
    × (get_free_page (suc fuel) k' ≡ ok none k')

-- The pages of the range from page `i` to page `i + n`.
abbrev pub InRange : ℕ → ℕ → ℕ → Type 0
InRange i n j = (i ≤ j) × (j < i + n)

-- Each page of the range is mapped to a page of its own that was free and is not free any more, and
-- all other addresses have the words that they had. At most four pages are lost for each page.
pub record IsRange (fuel : ℕ) (k : Kernel) (dst i n flags : ℕ) (k' : Kernel) : Type 0 where
  pub ready : IsReady fuel k'
  pub page : ℕ → ℕ
  pub was_free : (j : ℕ) → InRange i n j → is_free (k.pages (page j)) ≡ true
  pub own : (j l : ℕ) → InRange i n j → InRange i n l → j ≢ l → page j ≢ page l
  pub taken : (q : ℕ) → is_free (k'.pages q) ≡ true → (j : ℕ) → InRange i n j → q ≢ page j
  pub maps :
      (j : ℕ)
      → InRange i n j
      → (w : ℕ) × Has k' (page_dst dst j) w × IsWord (k.pages (page j)).base flags w
  pub others :
      (a w : ℕ)
      → ((j : ℕ) → InRange i n j → page_number a ≢ page_number (page_dst dst j))
      → Has k a w ↔ Has k' a w
  pub root : k'.page_map_level4 ≡ k.page_map_level4
  pub fewer : (q : ℕ) → is_free (k'.pages q) ≡ true → is_free (k.pages q) ≡ true
  pub lost : Loses (4 * n) k k'

pub IsReady-mapped :
    (fuel : ℕ) (k : Kernel) (dst p flags : ℕ) (k' : Kernel)
    → IsReady fuel k
    → IsMapped k dst p flags k'
    → IsReady fuel k'
IsReady-mapped fuel k dst p flags k' r m = record {
  space = m.space;
  scan = CanScan-unchanged k k' fuel m.zones.0 m.zones.1 r.scan;
  known = λ q free.
      get_page-unchanged k k' (some q) (k'.pages q).base m.zones.0 m.zones.1
        (rw (m.bases q) (r.known q (m.fewer q free).1));
}

pub IsRange-none :
    (fuel : ℕ) (k : Kernel) (dst i flags : ℕ) → IsReady fuel k → IsRange fuel k dst i 0 flags k
IsRange-none fuel k dst i flags r = record {
  ready = r;
  page = λ j. 0;
  was_free = λ j h. absurd (omega arith);
  own = λ j l h h' ne. absurd (omega arith);
  taken = λ q free j h. absurd (omega arith);
  maps = λ j h. absurd (omega arith);
  others = λ a w h. ((λ x. x), (λ x. x));
  root = refl;
  fewer = λ q free. free;
  lost = Loses-none k;
}

-- Two pages of a range of at most 2 ^ 36 pages have different numbers.
pub page_number-page_dst :
    (dst i j : ℕ)
    → i < j
    → j < i + 2 ^ 36
    → j < 2 ^ 52
    → page_number (page_dst dst i) ≢ page_number (page_dst dst j)
page_number-page_dst dst i j h h' h'' e = omega arith
