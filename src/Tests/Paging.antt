-- ===== src/Tests/Paging.antt =====
-- Zones, pages and page maps: a small machine with sixteen pages.
use kmd.Base.{
  ℕ, zero, suc, ◌+◌, ◌*◌, ◌^◌, ◌≤◌, ◌<◌, ◌≡◌, refl, true, false, [], ◌∷◌, arith, some, Option,
  if◌then◌else◌, ltb, get_elem?,
}
use kmd.Memory.{Memory, load_bytes, store_bytes, load64, store64}
use kmd.Kernel.{Kernel, Zone, ok}
use kmd.PageMapEntry.{PageMapEntry, entry_at, get_address, get_option, put_option}
use kmd.PageMapEntry.Options.{get_option-put_option-true}
use kmd.Ranges.{nr_pages, page_src, map}
use kmd.Ranges.Errors.{IsUnknown, map-unknown}
use kmd.Page.{is_free, inc_references}
use kmd.Zones.{in_zone, get_page, get_free_page}
use kmd.Zones.GetPage.{IsZone, IsZoned}
use kmd.Zones.Held.{IsFilled, AreFilled, Outcome, get_page-Outcome}
use kmd.Zones.FreePage.{CanScan, Search, get_free_page-Search}
use kmd.Paging.Descent.{IsFrame, follow, add, added}
use kmd.Paging.PutPage.{entry_in}
use kmd.Paging.MapPage.{Way, counted}

-- Page 1 is the root, page 2 the map of the third level and page 3 that of the second, on the way
-- to address 0. The map of the first level is missing. The pages from 4 on are free.
memory : Memory
unfolding load64 store64 load_bytes store_bytes
memory = store64 (store64 (λ _. 0) 0x1000 0x2003) 0x2000 0x3003

machine : Kernel
unfolding memory
machine = record {
  memory = memory;
  page_map_level4 = 0x1000;
  zones = record { begin = 0; end = 0xFFFF; pages = some 0 } ∷ [];
  zones_nr = 1;
  arena = 0;
  pages = λ p. record { base = p * 4096; references = if ltb p 4 then 2 else 1; available = true };
  cr3 = 0x1000;
  trace = [];
}

machine-IsZoned : IsZoned machine
unfolding machine
machine-IsZoned = record { in_array = omega arith; each = each }
  where
    each :
        (i : ℕ) (z : Zone)
        → get_elem? machine.zones i ≡ some z
        → i < machine.zones_nr
        → IsZone machine.pages z
    each zero z at lt =
        let e : record { begin = 0; end = 0xFFFF; pages = some 0 } ≡ z = cc at in
        rw (← e) (record {
          first = 0;
          pages_eq = refl;
          aligned = refl;
          bounded = omega arith;
          bases = λ j h. omega arith;
        })
    each (suc i) z at lt = absurd (omega arith)

machine-AreFilled : AreFilled machine
unfolding machine
machine-AreFilled = record { in_array = omega arith; each = each }
  where
    each :
        (i : ℕ) (z : Zone)
        → get_elem? machine.zones i ≡ some z
        → i < machine.zones_nr
        → IsFilled machine.pages z
    each zero z at lt =
        let e : record { begin = 0; end = 0xFFFF; pages = some 0 } ≡ z = cc at in
        rw (← e) (record {
          first = 0;
          pages_eq = refl;
          aligned = refl;
          bounded = omega arith;
          bases = λ j h. omega arith;
        })
    each (suc i) z at lt = absurd (omega arith)

get_page-Outcome_example :
    (r : Option ℕ) × (get_page 0x5123 machine ≡ ok r machine) × Outcome machine 0x5123 0 r
get_page-Outcome_example = get_page-Outcome machine 0x5123 machine-AreFilled

get_page_run : get_page 0x5123 machine ≡ ok (some 5) machine
unfolding machine get_page
get_page_run = refl

machine-CanScan : CanScan machine 20
unfolding machine
machine-CanScan = record { in_array = omega arith; has_pages = has_pages; bounded = bounded }
  where
    only :
        (i : ℕ) (z : Zone)
        → get_elem? machine.zones i ≡ some z
        → i < machine.zones_nr
        → z ≡ record { begin = 0; end = 0xFFFF; pages = some 0 }
    only zero z at lt = cc at
    only (suc i) z at lt = absurd (omega arith)

    has_pages :
        (i : ℕ) (z : Zone)
        → get_elem? machine.zones i ≡ some z
        → i < machine.zones_nr
        → (p : ℕ) × (z.pages ≡ some p)
    has_pages i z at lt = rw (only i z at lt) (0, refl)

    bounded :
        (i : ℕ) (z : Zone)
        → get_elem? machine.zones i ≡ some z
        → i < machine.zones_nr
        → (z.end + 4096 ≤ 2 ^ 64) × (z.end ≤ 20 * 4096)
    bounded i z at lt = rw (only i z at lt) (omega arith)

get_free_page-Search_example :
    (r : Option ℕ) × (get_free_page 21 machine ≡ ok r machine) × Search machine 0 machine.zones_nr r
get_free_page-Search_example = get_free_page-Search machine 20 machine-CanScan

way : Way 21 (counted machine 5) 0
unfolding machine inc_references get_option get_address get_free_page is_free
way = record {
  t3 = 0x2000;
  t2 = 0x3000;
  t1 = 0x4000;
  new3 = false;
  new2 = false;
  new1 = true;
  k3 = counted machine 5;
  k2 = counted machine 5;
  k1 = added (counted machine 5) (entry_in 0x3000 0 2) 4;
  down3 = follow refl refl refl refl;
  down2 = follow refl refl refl refl;
  down1 = add 4 refl refl refl refl refl;
  frame4 = record { aligned = refl; bounded = omega arith };
  frame3 = record { aligned = refl; bounded = omega arith };
  frame2 = record { aligned = refl; bounded = omega arith };
  frame1 = record { aligned = refl; bounded = omega arith };
  apart43 = omega arith;
  apart42 = omega arith;
  apart41 = omega arith;
  apart32 = omega arith;
  apart31 = omega arith;
  apart21 = omega arith;
}

page_5-IsFrame : IsFrame (machine.pages 5).base
unfolding machine
page_5-IsFrame = record { aligned = refl; bounded = omega arith }

-- The entry of the root.
abbrev root_entry : PageMapEntry
root_entry = entry_at 0x1000 0

get_option-put_option-true_example :
    get_option (put_option memory root_entry 16 true) root_entry 16 ≡ true
get_option-put_option-true_example = get_option-put_option-true memory root_entry 16 (omega arith)

-- The pages from 0x100000 on are in no zone.
no_zone : (j : ℕ) → j < nr_pages 0x2000 → IsUnknown machine (page_src 0x100 j)
unfolding machine nr_pages
no_zone j h i z lt at = by_zone i z lt at
  where
    by_zone :
        (i : ℕ) (z : Zone)
        → i < machine.zones_nr
        → get_elem? machine.zones i ≡ some z
        → in_zone z (page_src 0x100 j) ≡ false
    by_zone zero z lt at =
        let e : z ≡ record { begin = 0; end = 0xFFFF; pages = some 0 } = cc at in
        rw e (ground arith)
    by_zone (suc i) z lt at = absurd (omega arith)

map-unknown_example : map 21 0 0x100 0x2000 3 machine ≡ ok tt machine
map-unknown_example = map-unknown machine machine-IsZoned 21 0 0x100 0x2000 3 no_zone
