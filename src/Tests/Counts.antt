-- ===== src/Tests/Counts.antt =====
-- The references that `crawlPagingTree` counts, in a tree of two maps.
use kmd.Base.{ℕ, zero, suc, ◌*◌, ◌<◌, ◌≡◌, subst, refl, arith, some, List, [], ◌∷◌, get_elem?, All}
use mathlib.Core.Option.{some_inj, none-ne-some}
use kmd.Memory.{Memory, load64, load_bytes, store64, store_bytes}
use kmd.Kernel.{Kernel, Page, Zone, ok}
use kmd.Page.{page_at}
use kmd.PageMapEntry.{get_address, get_option, get_field}
use kmd.Zones.GetPage.{IsZone, IsZoned}
use kmd.Crawl.{crawl_paging_tree}
use kmd.Crawl.Leaves.{leaves}
use kmd.Crawl.Counts.{InZone, Indexed, Counted, crawl_paging_tree-counts}

-- The map at 0x1000 has one entry, for the map at 0x2000, which has one for the page at 0x5000.
tables : Memory
unfolding store64 store_bytes
tables = store64 (store64 (λ _. 0) 0x1000 0x2003) 0x2000 0x5003

machine : Kernel
unfolding tables
machine = record {
  memory = tables;
  page_map_level4 = 0x1000;
  zones = record { begin = 0; end = 0xFFFF; pages = some 0 } ∷ [];
  zones_nr = 1;
  arena = 0;
  pages = λ p. page_at (p * 4096);
  cr3 = 0x1000;
  trace = [];
}

first_zone : Zone
first_zone = record { begin = 0; end = 0xFFFF; pages = some 0 }

first_zone-IsZone : IsZone machine.pages first_zone
unfolding machine first_zone
first_zone-IsZone = record {
  first = 0;
  pages_eq = refl;
  aligned = refl;
  bounded = omega arith;
  bases = λ j le. omega arith;
}

machine-IsZoned : IsZoned machine
unfolding machine first_zone
machine-IsZoned = record { in_array = omega arith; each = each' }
  where
    each' :
        (i : ℕ) (z : Zone)
        → get_elem? machine.zones i ≡ some z
        → i < machine.zones_nr
        → IsZone machine.pages z
    each' zero z at lt = subst (IsZone machine.pages) (some_inj.0 at) first_zone-IsZone
    each' (suc i) z at lt = absurd (none-ne-some z at)

one_leaf : leaves 2 machine.memory 0x1000 ≡ 0x5000 ∷ []
unfolding leaves machine tables load64 load_bytes store64 store_bytes get_address get_option
    get_field
one_leaf = refl

leaf-InZone : All (InZone machine) (leaves 2 machine.memory 0x1000)
unfolding machine first_zone
leaf-InZone = rw one_leaf ((0, first_zone, omega arith, refl, refl), tt)

crawl_paging_tree-counts_example :
    (ps : List ℕ) × (pages : ℕ → Page) × Indexed machine (leaves 2 machine.memory 0x1000) ps
    × Counted ps machine.pages pages
    × (crawl_paging_tree 2 0x1000 machine ≡ ok tt (record machine { pages = pages }))
unfolding machine
crawl_paging_tree-counts_example =
    crawl_paging_tree-counts 1 0x1000 machine machine-IsZoned leaf-InZone (λ q. omega arith)
