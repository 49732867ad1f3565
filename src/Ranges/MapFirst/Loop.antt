-- ===== src/Ranges/MapFirst/Loop.antt =====
-- The loop of `mapFirst` of src/mm/mm.cpp, and all of it.
use kmd.Base.{
  ◌∷◌, ℕ, zero, suc, ◌+◌, ◌*◌, ◌%◌, ◌^◌, ◌≤◌, ◌<◌, ◌≡◌, ◌⊎◌, inl, inr, refl, Bool, true, false,
  ◌||◌, Option, none, some, arith, Bool-cases,
}
use kmd.Kernel.{Kernel, Run, ok, fault, load_cr3}
use kmd.Page.{is_free}
use kmd.Zones.{get_free_page}
use kmd.Zones.FreePage.{Search, get_free_page-Search}
use kmd.Zones.Unchanged.{get_page-unchanged, CanScan-unchanged}
use kmd.Paging.{map_page, flush_tlb}
use kmd.Paging.Space.Pool.{free-small}
use kmd.Paging.Space.Round.{Search-free}
use kmd.Paging.Space.MapPage.{IsMapped, map_page-IsMapped}
use kmd.Ranges.{nr_pages, page_dst, free_base, map_first_loop, map_first}
use kmd.Zones.Spare.{
  Loses-none, Loses-trans, Loses-same, HasSpare, HasSpare-less, Loses, get_free_page-spare,
}
use kmd.Ranges.MapFirst.{IsReady, Empty, IsRange, IsReady-mapped, IsRange-none}
use kmd.Ranges.MapFirst.Step.{IsRange-suc}

-- The outcomes of the loop at page `i`: a fault, for which no page is left, or the range is mapped.
abbrev pub Ranges : ℕ → Kernel → ℕ → ℕ → ℕ → ℕ → Run Bool → Type 0
Ranges fuel k dst i n flags run =
    ((run ≡ fault) × Empty (4 * n) fuel k)
    ⊎ ((new : Bool) × (k' : Kernel) × (run ≡ ok new k') × IsRange fuel k dst i n flags k')

free_base-run :
    (fuel : ℕ) (k : Kernel) (r : Option ℕ)
    → get_free_page fuel k ≡ ok r k
    → free_base fuel k ≡ elim r [ none ↦ fault | some p ↦ ok (k.pages p).base k ]
unfolding free_base
free_base-run fuel k none run = rw run refl
free_base-run fuel k (some p) run = rw run refl

module _ (fuel dst flags : ℕ) (low : flags < 4096) (present : flags % 2 ≡ 1) where
  abbrev Loops : ℕ → ℕ → Bool → Kernel → Type 0
  Loops n i pt k = Ranges fuel k dst i n flags (map_first_loop (suc fuel) n i dst flags pt k)

  module _ (n i : ℕ) (pt : Bool) (k : Kernel) (r : IsReady fuel k) (bound : i + suc n ≤ 2 ^ 36)
      (later : (new : Bool) (k' : Kernel) → IsReady fuel k' → Loops n (i + 1) (pt || new) k') where
    module _ (p : ℕ) (free : is_free (k.pages p) ≡ true)
        (at : free_base (suc fuel) k ≡ ok (k.pages p).base k) where
      mapped :
          (new : Bool) (k1 : Kernel)
          → map_page (suc fuel) (page_dst dst i) (k.pages p).base flags k ≡ ok new k1
          → IsMapped k (page_dst dst i) p flags k1
          → Loops n (i + 1) (pt || new) k1
          → Loops (suc n) i pt k
      unfolding map_first_loop
      mapped new k1 run m (inl (run', (l, lt, k', lost, can, fewer, none_left))) = inl (
        rw (at, run, run') refl,
        (
          4 + l,
          omega arith,
          k',
          Loses-trans 4 l k k1 k' m.lost lost,
          can,
          (λ q f. (m.fewer q (fewer q f)).1),
          none_left,
        ),
      )
      mapped new k1 run m (inr (b, k2, run', rest)) = inr (
        b,
        k2,
        rw (at, run, run') refl,
        IsRange-suc fuel k k1 k2 dst i n flags p free m rest bound,
      )

      free-Loops : Loops (suc n) i pt k
      unfolding map_first_loop
      free-Loops =
          elim (map_page-IsMapped fuel k (page_dst dst i) (k.pages p).base flags p r.space r.scan
            (r.space.pool.frame p free) (free-small k.pages r.space.pool p free) low present
            (r.known p free)) [
              | inl (run, (l, lt, k', g, can, none_left)) ↦
                  inl (rw (at, run) refl, (l, omega arith, k', g.lost, can, g.fewer, none_left))
              | inr (new, k1, run, m) ↦
                  mapped new k1 run m
                    (later new k1 (IsReady-mapped fuel k (page_dst dst i) p flags k1 r m))
            ]

    suc-Loops :
        (q : Option ℕ) × (get_free_page (suc fuel) k ≡ ok q k) × Search k 0 k.zones_nr q
        → Loops (suc n) i pt k
    unfolding map_first_loop
    suc-Loops (none, run, _) = inl (
      rw (free_base-run (suc fuel) k none run) refl,
      (0, omega arith, k, Loses-none k, r.scan, (λ q f. f), run),
    )
    suc-Loops (some p, run, found) =
        free-Loops p (Search-free found) (free_base-run (suc fuel) k (some p) run)

  map_first_loop-Ranges :
      (n i : ℕ) (pt : Bool) (k : Kernel) → IsReady fuel k → i + n ≤ 2 ^ 36 → Loops n i pt k
  unfolding map_first_loop
  map_first_loop-Ranges zero i pt k r bound = inr (pt, k, refl, IsRange-none fuel k dst i flags r)
  map_first_loop-Ranges (suc n) i pt k r bound =
      suc-Loops n i pt k r bound
        (λ new k' r'. map_first_loop-Ranges n (i + 1) (pt || new) k' r' (omega arith))
        (get_free_page-Search k fuel r.scan)

nr_pages-bound : (len : ℕ) → len ≤ 2 ^ 48 → 0 + nr_pages len ≤ 2 ^ 36
unfolding nr_pages
nr_pages-bound len h = ground arith

-- What the processor is told is no part of it.
module _ (fuel : ℕ) (k : Kernel) (dst n flags : ℕ) (k' : Kernel)
    (range : IsRange fuel k dst 0 n flags k') where
  abbrev flushed : Kernel
  flushed = record k' { trace = load_cr3 k'.cr3 ∷ k'.trace }

  IsReady-flushed : IsReady fuel flushed
  IsReady-flushed = record {
    space = record {
      tree = range.ready.space.tree;
      pool = range.ready.space.pool;
      apart = range.ready.space.apart;
    };
    scan = CanScan-unchanged k' flushed fuel refl refl range.ready.scan;
    known = λ q free.
        get_page-unchanged k' flushed (some q) (k'.pages q).base refl refl
          (range.ready.known q free);
  }

  IsRange-flushed : IsRange fuel k dst 0 n flags flushed
  IsRange-flushed = record {
    ready = IsReady-flushed;
    page = range.page;
    was_free = range.was_free;
    own = range.own;
    taken = range.taken;
    maps = range.maps;
    others = range.others;
    root = range.root;
    fewer = range.fewer;
    lost = Loses-same (4 * n) k k' flushed refl refl (λ q. refl) range.lost;
  }

-- `mapFirst` of a length of at most 2 ^ 48 bytes, with flags that have the present bit and only
-- option bits, in a state where the page maps are a tree apart from the free pages and `getPage`
-- finds each free page at its address: either it faults, and there is a state with no free page in
-- which no page is free that was not free before; or it returns, each page of the range is mapped
-- with the flags to a page that was free and is not free any more, no two pages of the range to
-- the same one, the addresses of all other pages have the words that they had, the root is the
-- same, and the state is such a state again.
pub map_first-IsRange :
    (fuel : ℕ) (k : Kernel) (dst len flags : ℕ)
    → flags < 4096
    → flags % 2 ≡ 1
    → IsReady fuel k
    → len ≤ 2 ^ 48
    → ((map_first (suc fuel) dst len flags k ≡ fault) × Empty (4 * nr_pages len) fuel k)
      ⊎ ((k' : Kernel) × (map_first (suc fuel) dst len flags k ≡ ok tt k')
          × IsRange fuel k dst 0 (nr_pages len) flags k')
unfolding map_first flush_tlb
map_first-IsRange fuel k dst len flags low present r bound =
    elim (map_first_loop-Ranges fuel dst flags low present (nr_pages len) 0 false k r
      (nr_pages-bound len bound)) [
        | inl (run, left) ↦ inl (rw run refl, left)
        | inr (new, k', run, range) ↦ elim (Bool-cases new) [
          | inl changed ↦ inr (
            flushed fuel k dst (nr_pages len) flags k' range,
            rw (run, changed) refl,
            IsRange-flushed fuel k dst (nr_pages len) flags k' range,
          )
          | inr same ↦ inr (k', rw (run, same) refl, range)
        ]
      ]

Empty-spare : (n fuel : ℕ) (k : Kernel) → HasSpare k n → Empty n fuel k → ⊥
unfolding Loses
Empty-spare n fuel k h (l, lt, k', lost, can, _, none_left) =
    get_free_page-spare k' fuel can (lost 1 (HasSpare-less (l + 1) n k (omega arith) h)) none_left

-- `mapFirst` of a length of at most 2 ^ 48 bytes, with flags that have the present bit and only
-- option bits, in a state where the page maps are a tree apart from the free pages and `getPage`
-- finds each free page at its address, returns when `getFreePage` can still find four pages for
-- each page of the range. Each page of the range is then mapped with the flags to a page of its
-- own that was free, and the addresses of all other pages have the words that they had.
pub map_first-returns :
    (fuel : ℕ) (k : Kernel) (dst len flags : ℕ)
    → flags < 4096
    → flags % 2 ≡ 1
    → IsReady fuel k
    → len ≤ 2 ^ 48
    → HasSpare k (4 * nr_pages len)
    → (k' : Kernel) × (map_first (suc fuel) dst len flags k ≡ ok tt k')
      × IsRange fuel k dst 0 (nr_pages len) flags k'
map_first-returns fuel k dst len flags low present r bound spare =
    elim (map_first-IsRange fuel k dst len flags low present r bound) [
      | inl (_, x) ↦ absurd (Empty-spare (4 * nr_pages len) fuel k spare x)
      | inr done ↦ done
    ]
