-- ===== src/ParseMmap.antt =====
-- `parseMmap` of src/mm/mm.cpp: from the boot loader's map of the memory to the zones and the records
-- of the pages. `qsort` of src/runtime/qsort.cpp is a parameter: from a comparison, which returns an
-- `int`, and a list to the list in the order that it leaves.
pub mod Records
pub mod Merged
pub mod Claims
pub mod Listed
pub mod Zones
pub mod Whole
use kmd.Base.{
  ℕ, zero, suc, ◌+◌, ◌-◌, ◌*◌, ◌%◌, ◌^◌, Bool, ◌==◌, ltb, leb, if◌then◌else◌, Option, none, some,
  List, [], ◌∷◌, ◌++◌, get_elem?, set, u8, u64,
}
use kmd.Memory.{Memory}
use kmd.Kernel.{Page, Zone, Kernel, Run, ok, fault, out_of_fuel, Cmd, pure, ◌>>=◌, ◌>>◌}
use kmd.Page.{page_at, set_available, update_page}
use kmd.Mmap.{fin, entry_addr, entry_end, entry_type}
use mathlib.Core.Option.{bind}

abbrev pub Compare : Type 0
Compare = Zone → Zone → ℕ

-- The comparison that `qsort` is given: 1 for greater, 0 for everything else.
abbrev pub compare_begins : Compare
compare_begins a b = if ltb b.begin a.begin then 1 else 0

-- `zones[i]`, and `zones[i] = z`. The array has 255 elements.
unfoldable pub zone_at : ℕ → Cmd Zone
zone_at i k = elim (get_elem? k.zones i) [ none ↦ fault | some z ↦ ok z k ]

unfoldable pub put_zone : ℕ → Zone → Cmd (Unit {0})
put_zone i z k = elim (get_elem? k.zones i) [
  | none ↦ fault
  | some _ ↦ ok tt (record k { zones = set k.zones i z })
]

-- The first loop over `entries` entries, from entry `i`. `i` is a byte, and the result is where it ends.
unfoldable pub fill_zones : ℕ → ℕ → ℕ → ℕ → Cmd ℕ
unfolding put_zone
fill_zones zero entries mmap i k = out_of_fuel
fill_zones (suc fuel) entries mmap i k =
    let z : Zone = record {
      begin = entry_addr k.memory mmap i;
      end = entry_end k.memory mmap i;
      pages = none;
    } in
    let next = (put_zone i z >> fill_zones fuel entries mmap (u8 (i + 1))) k in
    if ltb i entries then next else ok i k

-- The first `n` elements of the array, and the others.
unfoldable pub take_zones : ℕ → List Zone → List Zone
take_zones zero zs = []
take_zones (suc n) [] = []
take_zones (suc n) (z ∷ zs) = z ∷ take_zones n zs

unfoldable pub drop_zones : ℕ → List Zone → List Zone
drop_zones zero zs = zs
drop_zones (suc n) [] = []
drop_zones (suc n) (z ∷ zs) = drop_zones n zs

unfoldable pub sort_zones : (Compare → List Zone → List Zone) → ℕ → Cmd (Unit {0})
unfolding take_zones drop_zones
sort_zones qsort n k =
    let sorted = qsort compare_begins (take_zones n k.zones) in
    ok tt (record k { zones = sorted ++ drop_zones n k.zones })

-- The body of the loop that joins zones: the zone that is being built is `z1`.
unfoldable pub merge_step : ℕ → ℕ → Cmd ℕ
unfolding zone_at put_zone
merge_step z1 i = do
  last ← zone_at z1
  z ← zone_at i
  if leb z.begin last.end
      then put_zone z1 (record last { end = z.end }) >> pure z1
      else put_zone (u8 (z1 + 1)) z >> pure (u8 (z1 + 1))

-- The loop that joins zones, from zone `i`, with `left` zones to go. The result is the last `z1`.
unfoldable pub merge_loop : ℕ → ℕ → ℕ → Cmd ℕ
unfolding merge_step
merge_loop zero z1 i = pure z1
merge_loop (suc left) z1 i = do z1' ← merge_step z1 i; merge_loop left z1' (i + 1)

-- The loop over the pages of one entry, from page `j`, whose record is `p`. The result is the next
-- record to write, and `none` means that the fuel ran out.
unfoldable pub record_loop : ℕ → ℕ → ℕ → Bool → ℕ → ℕ → (ℕ → Page) → Option (ℕ × (ℕ → Page))
record_loop zero addr end available j p pages = none
record_loop (suc fuel) addr end available j p pages =
    let base = u64 (addr + j * 2 ^ 12) in
    let page = set_available (page_at base) available in
    let rest = record_loop fuel addr end available (j + 1) (p + 1) (update_page pages p page) in
    if ltb base end then rest else some (p, pages)

-- The zone that an entry belongs to, and its first record if it has none yet.
unfoldable pub claim_zone : ℕ → ℕ → ℕ → Cmd ℕ
unfolding zone_at put_zone
claim_zone addr z1 p = do
  last ← zone_at z1
  let z1' = if ltb last.end addr then u8 (z1 + 1) else z1
  z ← zone_at z1'
  elim z.pages [ none ↦ put_zone z1' (record z { pages = some p }) >> pure z1' | some _ ↦ pure z1' ]

-- The body of the last loop, for entry `i`; the result is the next `z1` and `p`.
unfoldable pub record_entry : ℕ → ℕ → ℕ → ℕ → ℕ → Cmd (ℕ × ℕ)
unfolding claim_zone record_loop
record_entry fuel mmap i z1 p k =
    let addr = entry_addr k.memory mmap i in
    let end = entry_end k.memory mmap i in
    let available = entry_type k.memory mmap i == 1 in
    (do
      z1' ← claim_zone addr z1 p
      (λ k'. elim (record_loop fuel addr end available 0 p k'.pages) [
        | none ↦ out_of_fuel
        | some (p', pages') ↦ ok (z1', p') (record k' { pages = pages' })
      ]))
      k

-- The last loop, from entry `i`.
unfoldable pub record_entries : ℕ → ℕ → ℕ → ℕ → ℕ → ℕ → Cmd (Unit {0})
unfolding record_entry
record_entries zero entries mmap i z1 p k = out_of_fuel
record_entries (suc fuel) entries mmap i z1 p k =
    let next =
      (do
        (z1', p') ← record_entry fuel mmap i z1 p
        record_entries fuel entries mmap (u8 (i + 1)) z1' p')
        k in
    if ltb i entries then next else ok tt k

-- The number of entries, which is computed once.
unfoldable pub fin_of : ℕ → Cmd ℕ
unfolding fin
fin_of mmap k = elim (fin k.memory mmap) [ none ↦ fault | some entries ↦ ok entries k ]

abbrev pub set_zones_nr : ℕ → Cmd (Unit {0})
set_zones_nr n k = ok tt (record k { zones_nr = n })

-- The function behind the division.
unfoldable pub parse_entries : (Compare → List Zone → List Zone) → ℕ → ℕ → ℕ → Cmd (Unit {0})
unfolding fill_zones sort_zones merge_loop record_entries
parse_entries qsort fuel mmap entries = do
  i ← fill_zones fuel entries mmap 0
  let nr = u8 (i + 1)
  sort_zones qsort nr
  z1 ← merge_loop (nr - 1) 0 1
  set_zones_nr z1
  record_entries fuel entries mmap 0 0 0

unfoldable pub parse_mmap : (Compare → List Zone → List Zone) → ℕ → ℕ → Cmd (Unit {0})
unfolding fin_of parse_entries
parse_mmap qsort fuel mmap = fin_of mmap >>= parse_entries qsort fuel mmap

unfoldable pub init_zones : (Compare → List Zone → List Zone) → ℕ → ℕ → Cmd (Unit {0})
unfolding parse_mmap
init_zones qsort fuel mmap = set_zones_nr 0 >> parse_mmap qsort fuel mmap
