-- ===== src/ParseMmap/Whole.antt =====
-- The whole of `parseMmap` of src/mm/mm.cpp.
use kmd.Base.{
  ℕ, suc, ◌+◌, ◌≤◌, ◌<◌, ◌≡◌, ◌∙◌, ap, sym, false, arith, Option, some, List, [], ◌∷◌, length,
  get_elem?, leb, Bool-cases, inl, inr,
}
use mathlib.Core.Option.{some_inj, none-ne-some}
use kmd.Kernel.{Page, Zone, Kernel, ok}
use kmd.Mmap.{fin}
use kmd.ParseMmap.{Compare, compare_begins, take_zones, parse_mmap}
use kmd.ParseMmap.Merged.{join}
use kmd.ParseMmap.Zones.{Filled, parse_mmap-zones}
use kmd.ParseMmap.Listed.{Listed, Readable, first_record, Ended, record_entries-Ended}

-- Each zone ends before the next one begins.
unfoldable pub Separated : List Zone → Type 0
Separated [] = Unit
Separated (y ∷ zs) = ((z : Zone) → get_elem? zs 0 ≡ some z → y.end < z.begin) × Separated zs

-- What joining makes begins where the first zone begins.
join-begin :
    (last : Zone) (pending : List Zone) (z : Zone)
    → get_elem? (join last pending) 0 ≡ some z
    → z.begin ≡ last.begin
unfolding join
join-begin last [] z at = ap (λ y. y.begin) (sym (some_inj.0 at))
join-begin last (y ∷ pending) z at = elim (Bool-cases (leb y.begin last.end)) [
  | inl near ↦ join-begin (record last { end = y.end }) pending z (rw near at at)
  | inr apart ↦ ap (λ y. y.begin) (sym (some_inj.0 (rw apart at at)))
]

leb_false→lt : (a b : ℕ) → leb a b ≡ false → b < a
leb_false→lt a b h = ground arith

join-Separated : (last : Zone) (pending : List Zone) → Separated (join last pending)
unfolding join Separated
join-Separated last [] = ((λ z at. absurd (none-ne-some z at)), tt)
join-Separated last (y ∷ pending) = elim (Bool-cases (leb y.begin last.end)) [
  | inl near ↦ rw near (join-Separated (record last { end = y.end }) pending)
  | inr apart ↦ rw apart (
    (λ z at. omega (arith, join-begin y pending z at, leb_false→lt y.begin last.end apart)),
    join-Separated y pending,
  )
]

-- `parseMmap`, when the array has 255 zones, the size of an entry is not 0, there are at most 254 entries, none of which reaches the
-- last page of the addresses, `qsort` keeps the number of elements, and there is fuel for the entries
-- and, with a round for each of them to spare, for the pages of each: all loops end without a fault.
-- The zones are what joining makes of the sorted zones of the entries and of the element behind them,
-- each ends before the next one begins, and their number is set to one less than it is. The pages of
-- all entries are recorded one behind the other, in the order of the entries, with their addresses
-- and whether they are available, and no other record has changed.
pub parse_mmap-parses :
    (qsort : Compare → List Zone → List Zone)
    (keeps : (l : List Zone) → length (qsort compare_begins l) ≡ length l) (mmap fuel entries : ℕ)
    (k : Kernel) (array : length k.zones ≡ 255) (counted : fin k.memory mmap ≡ some entries)
    (few : entries ≤ 254) (enough : entries < fuel)
    (readable : Readable fuel entries entries k.memory mmap)
    → (filled : List Zone) × (first : Zone) × (pending : List Zone) × (zs : List Zone) × (n : ℕ)
      × (pages : ℕ → Page) × Filled k.memory mmap 0 entries k.zones filled
      × (qsort compare_begins (take_zones (suc entries) filled) ≡ first ∷ pending)
      × Separated (join first pending)
      × (length (join first pending) ≡ suc n)
      × ((j : ℕ) (z : Zone)
          → get_elem? (join first pending) j ≡ some z
          → (p : Option ℕ) × (get_elem? zs j ≡ some (record z { pages = p })))
      × Listed k.memory mmap 0 entries k.pages pages
      × (parse_mmap qsort fuel mmap k
          ≡ ok tt (record k { zones = zs; zones_nr = n; pages = pages }))
unfolding Ended first_record
parse_mmap-parses qsort keeps mmap fuel entries k array counted few enough readable =
    let (filled, first, pending, zs, n, is_filled, sorted, joined, holds, len, run) =
      parse_mmap-zones qsort keeps mmap fuel entries k array counted few enough in
    let (zs', pages, rest, same, listed) =
      record_entries-Ended mmap entries entries fuel 0 0 (record k { zones = zs; zones_nr = n })
        (omega arith) few (omega arith) len enough readable in
    (
      filled,
      first,
      pending,
      zs',
      n,
      pages,
      is_filled,
      sorted,
      join-Separated first pending,
      joined,
      (λ j z at.
          let at_j : 0 + j ≡ j = omega arith in
          same.same_bounds j z (ap (get_elem? zs) (sym at_j) ∙ holds j z at)),
      listed,
      run ∙ rest,
    )
