-- ===== src/Tests/Space.antt =====
-- `mapPage`, `mapFirst` and `getPME` on a small machine whose page maps are a root with no entries.
use kmd.Base.{
  ℕ, zero, suc, ◌+◌, ◌*◌, ◌^◌, ◌≤◌, ◌<◌, ◌≡◌, ◌≢◌, ◌⊎◌, inl, inr, refl, sym, ◌∙◌, Bool, true, [],
  ◌∷◌, arith, some, if◌then◌else◌, ltb, get_elem?, ◌>>>◌, sub64,
}
use mathlib.Core.Bool.{true≢false}
use kmd.Memory.{Memory, load64, load_bytes}
use kmd.Kernel.{Kernel, Page, Zone, ok, fault}
use kmd.PageMapEntry.{get_option}
use kmd.PageMap.{map_at}
use kmd.Page.{is_free}
use kmd.Zones.{get_page, in_zone}
use kmd.Zones.FreePage.{CanScan}
use kmd.Paging.{get_pme, map_page}
use kmd.Paging.Tree.{FramesApart, Node, Same, IsTree}
use kmd.Paging.Tree.Lookup.{Found, get_pme-Found}
use kmd.Paging.Space.{IsSpace}
use kmd.Paging.Space.Pool.{IsPool}
use kmd.Paging.Space.Round.{Exhausted}
use kmd.Paging.Space.MapPage.{IsMapped, map_page-IsMapped, map_page-returns}
use kmd.Paging.Space.Mappings.{Mapping, lookup, Steps, start, step, IsStepped}
use kmd.Paging.Space.Steps.{Answers, Steps-IsStepped, Steps-get_pme, Exact}
use kmd.Ranges.Sources.{map-IsMapped}
use kmd.Ranges.{map, map_first, nr_pages}
use kmd.Ranges.MapFirst.{IsReady, Empty, IsRange}
use kmd.Ranges.MapFirst.Loop.{map_first-IsRange, map_first-returns}
use kmd.Zones.Spare.{IsSpare, HasSpare, HasSpare-less}
use kmd.Zones.Spare.Runs.{HasSpare-run}

-- Page 1 is the root, the pages from 2 to 15 are free, and no entry is present.
abbrev pub pages : ℕ → Page
pages p = record { base = p * 4096; references = if ltb p 2 then 2 else 1; available = ltb p 16 }

abbrev zone : Zone
zone = record { begin = 0; end = 0xFFFF; pages = some 0 }

abbrev empty : Memory
empty = λ _. 0

abbrev pub machine : Kernel
machine = record {
  memory = empty;
  page_map_level4 = 0x1000;
  zones = zone ∷ [];
  zones_nr = 1;
  arena = 0;
  pages = pages;
  cr3 = 0x1000;
  trace = [];
}

only_root : (a d t : ℕ) → Node empty 0x1000 a d t → (d ≡ 0) × (t ≡ 0x1000)
unfolding Node get_option load64 load_bytes
only_root a zero t n = (refl, n)
only_root a (suc d) t (u, n, l) = absurd (true≢false (sym l.present))

pub pages-bounds : (p : ℕ) → is_free (pages p) ≡ true → (2 ≤ p) × (p < 16)
unfolding is_free
pages-bounds p free = ground arith

machine-IsTree : IsTree empty 0x1000
unfolding Same
machine-IsTree = record {
  frames =
      λ a d t h n. rw ((only_root a d t n).1) (record { aligned = refl; bounded = omega arith });
  distinct = λ a d t b e u h h' n n'.
      let (z, _) = only_root a d t n in
      let (z', _) = only_root b e u n' in inl (z ∙ sym z', rw z tt);
}

pub machine-IsPool : IsPool pages
machine-IsPool = record {
  frame = λ p free.
      let (lo, hi) = pages-bounds p free in record { aligned = omega arith; bounded = omega arith };
  counted = λ p free. ground arith;
  distinct = λ p q free free' ne. apart p q ne;
}
  where
    apart : (p q : ℕ) → p ≢ q → FramesApart (p * 4096) (q * 4096)
    apart p q ne = omega arith

machine-IsSpace : IsSpace machine
machine-IsSpace = record {
  tree = machine-IsTree;
  pool = machine-IsPool;
  apart = λ p a d t free h n.
      let (lo, hi) = pages-bounds p free in rw ((only_root a d t n).1) (inr (omega arith));
}

pub machine-CanScan : CanScan machine 20
machine-CanScan = record { in_array = omega arith; has_pages = has_pages; bounded = bounded }
  where
    only : (i : ℕ) (z : Zone) → get_elem? machine.zones i ≡ some z → i < 1 → z ≡ zone
    only zero z at lt = cc at
    only (suc i) z at lt = absurd (omega arith)

    has_pages :
        (i : ℕ) (z : Zone)
        → get_elem? machine.zones i ≡ some z
        → i < 1
        → (p : ℕ) × (z.pages ≡ some p)
    has_pages i z at lt = rw (only i z at lt) (0, refl)

    bounded :
        (i : ℕ) (z : Zone)
        → get_elem? machine.zones i ≡ some z
        → i < 1
        → (z.end + 4096 ≤ 2 ^ 64) × (z.end ≤ 20 * 4096)
    bounded i z at lt = rw (only i z at lt) (omega arith)

pub machine-known : (p : ℕ) → p < 16 → get_page (p * 4096) machine ≡ ok (some p) machine
unfolding get_page
machine-known p h =
    let inside : in_zone zone (p * 4096) ≡ true = ground arith in
    let offset : 0 + (sub64 (p * 4096) 0 >>> 12) ≡ p = omega arith in rw (inside, offset) refl

page_5_known : get_page 0x5123 machine ≡ ok (some 5) machine
unfolding get_page
page_5_known = refl

machine-IsReady : IsReady 20 machine
machine-IsReady = record {
  space = machine-IsSpace;
  scan = machine-CanScan;
  known = λ p free. machine-known p (pages-bounds p free).1;
}

map_page-IsMapped_example :
    ((map_page 21 0xABC123 0x5123 3 machine ≡ fault) × Exhausted 4 20 machine)
    ⊎ ((new : Bool) × (k' : Kernel) × (map_page 21 0xABC123 0x5123 3 machine ≡ ok new k')
        × IsMapped machine 0xABC123 5 3 k')
map_page-IsMapped_example =
    map_page-IsMapped 20 machine 0xABC123 0x5123 3 5 machine-IsSpace machine-CanScan
      (record { aligned = refl; bounded = omega arith }) (omega arith) (omega arith) refl
      page_5_known

map_first-IsRange_example :
    ((map_first 21 0x200000 0x3000 3 machine ≡ fault) × Empty (4 * nr_pages 0x3000) 20 machine)
    ⊎ ((k' : Kernel) × (map_first 21 0x200000 0x3000 3 machine ≡ ok tt k')
        × IsRange 20 machine 0x200000 0 (nr_pages 0x3000) 3 k')
map_first-IsRange_example =
    map_first-IsRange 20 machine 0x200000 0x3000 3 (omega arith) refl machine-IsReady (omega arith)

-- Fourteen pages are spare.
pub machine-IsSpare : (p : ℕ) → 2 ≤ p → p < 2 + 14 → IsSpare machine p
unfolding is_free
machine-IsSpare p lo hi = record {
  free = ground arith;
  zone = 0;
  in_use = omega arith;
  scanned = record {
    zone = zone;
    at = refl;
    first = 0;
    pages_eq = refl;
    page = p;
    below = omega arith;
    index = omega arith;
  };
}

machine-HasSpare : HasSpare machine 14
machine-HasSpare = HasSpare-run machine 2 14 machine-IsSpare

map_page-returns_example :
    (new : Bool) × (k' : Kernel) × (map_page 21 0xABC123 0x5123 3 machine ≡ ok new k')
    × IsMapped machine 0xABC123 5 3 k'
map_page-returns_example =
    map_page-returns 20 machine 0xABC123 0x5123 3 5 machine-IsSpace machine-CanScan
      (record { aligned = refl; bounded = omega arith }) (omega arith) (omega arith) refl
      (HasSpare-less 4 14 machine (omega arith) machine-HasSpare) page_5_known

page_5_begins : get_page (5 * 4096) machine ≡ ok (some 5) machine
unfolding get_page
page_5_begins = refl

map-IsMapped_example :
    (k' : Kernel) × (map 21 0xABC123 5 4096 3 machine ≡ ok tt k') × IsMapped machine 0xABC123 5 3 k'
map-IsMapped_example =
    map-IsMapped 20 machine 0xABC123 5 3 5 machine-IsSpace machine-CanScan
      (record { aligned = refl; bounded = omega arith }) (omega arith) (omega arith) refl
      (omega arith) (omega arith) (HasSpare-less 4 14 machine (omega arith) machine-HasSpare)
      page_5_begins

map_first-returns_example :
    (k' : Kernel) × (map_first 21 0x200000 0x3000 3 machine ≡ ok tt k')
    × IsRange 20 machine 0x200000 0 (nr_pages 0x3000) 3 k'
unfolding nr_pages
map_first-returns_example =
    map_first-returns 20 machine 0x200000 0x3000 3 (omega arith) refl machine-IsReady (omega arith)
      (HasSpare-less 12 14 machine (omega arith) machine-HasSpare)

-- The way to 0x5123 ends at the root.
get_pme-Found_example : Found empty 0x1000 0x5123 (get_pme empty (map_at 0x1000) 0x5123)
get_pme-Found_example = get_pme-Found empty 0x1000 0x5123

-- A call of `mapPage`, and the state that it leads to.
abbrev mapping : Mapping
mapping = record { dst = 0xABC123; page = 5; flags = 3 }

called :
    (new : Bool) × (k' : Kernel) × (map_page 21 0xABC123 0x5123 3 machine ≡ ok new k')
    × IsMapped machine 0xABC123 5 3 k'
called =
    map_page-returns 20 machine 0xABC123 0x5123 3 5 machine-IsSpace machine-CanScan
      (record { aligned = refl; bounded = omega arith }) (omega arith) (omega arith) refl
      (HasSpare-less 4 14 machine (omega arith) machine-HasSpare) page_5_known

after : Kernel
after = called.1

one_step : Steps 20 machine after (mapping ∷ [])
unfolding after
one_step =
    step mapping 0x5123 called.0 start page_5_known
      (record { aligned = refl; bounded = omega arith }) (omega arith) (omega arith) refl called.2

Steps-IsStepped_example : IsStepped 20 machine after (mapping ∷ [])
Steps-IsStepped_example =
    Steps-IsStepped 20 machine after (mapping ∷ []) machine-IsSpace machine-CanScan one_step

Steps-get_pme_example :
    Answers machine after 0xABC456 (lookup 0xABC456 (mapping ∷ []))
    × Exact machine after 0xABC456 (mapping ∷ [])
Steps-get_pme_example =
    Steps-get_pme 20 machine after (mapping ∷ []) 0xABC456 machine-IsSpace machine-CanScan one_step

lookup_run : lookup 0xABC456 (mapping ∷ []) ≡ some mapping
unfolding lookup
lookup_run = refl
