-- ===== src/Zones.antt =====
-- `getPage` and `getFreePage` of src/mm/mm.cpp: from the zones to the records of pages.
pub mod GetPage
pub mod Held
pub mod FreePage
pub mod Unchanged
pub mod Spare
use kmd.Base.{
  ℕ, zero, suc, ◌+◌, ◌-◌, Bool, true, false, ◌&&◌, leb, ltb, if◌then◌else◌, Option, none, some,
  get_elem?, List, ◌<<<◌, ◌>>>◌, sub64,
}
use kmd.Kernel.{Page, Zone, Kernel, Run, ok, fault, out_of_fuel, Cmd}
use kmd.Page.{is_free}

-- `zone.pages + offset`; there is no arithmetic on a null pointer.
unfoldable pub page_in : Zone → ℕ → Cmd (Option ℕ)
page_in z offset k = elim z.pages [ none ↦ fault | some p ↦ ok (some (p + offset)) k ]

-- The test of `getPage`: both ends count as inside.
abbrev pub in_zone : Zone → ℕ → Bool
in_zone z base = leb z.begin base && leb base z.end

-- The loop of `getPage` at zone `i`, with `left` zones to go. The array `zones` has 255 elements,
-- and reading beyond it is a fault.
unfoldable pub get_page_loop : ℕ → ℕ → ℕ → Cmd (Option ℕ)
get_page_loop zero i base k = ok none k
get_page_loop (suc left) i base k =
    let rest = get_page_loop left (i + 1) base k in
    elim (get_elem? k.zones i) [
      | none ↦ fault
      | some z ↦ if in_zone z base then page_in z (sub64 base z.begin >>> 12) k else rest
    ]

unfoldable pub get_page : ℕ → Cmd (Option ℕ)
unfolding get_page_loop page_in
get_page base k = get_page_loop k.zones_nr 0 base k

-- The inner loop of `getFreePage` at page `j` of a zone. The result is that of the loop alone:
-- `none` when it ends with no page found.
unfoldable pub scan_zone : ℕ → Zone → ℕ → Cmd (Option ℕ)
scan_zone zero z j k = out_of_fuel
scan_zone (suc fuel) z j k =
    let rest = scan_zone fuel z (j + 1) k in
    if ltb (j <<< 12) z.end
    then elim z.pages [
      | none ↦ fault
      | some p ↦ if is_free (k.pages (p + j)) then ok (some (p + j)) k else rest
    ]
    else ok none k

-- What the outer loop does with the result of the inner one.
abbrev pub or_else : Run (Option ℕ) → Run (Option ℕ) → Run (Option ℕ)
or_else (ok none k) rest = rest
or_else (ok (some p) k) rest = ok (some p) k
or_else fault rest = fault
or_else out_of_fuel rest = out_of_fuel

-- The outer loop at zone `i`, with `left` zones to go; the fuel is for the pages of one zone.
unfoldable pub get_free_page_loop : ℕ → ℕ → ℕ → Cmd (Option ℕ)
get_free_page_loop fuel zero i k = ok none k
get_free_page_loop fuel (suc left) i k =
    let rest = get_free_page_loop fuel left (i + 1) k in
    elim (get_elem? k.zones i) [ none ↦ fault | some z ↦ or_else (scan_zone fuel z 0 k) rest ]

unfoldable pub get_free_page : ℕ → Cmd (Option ℕ)
unfolding get_free_page_loop scan_zone
get_free_page fuel k = get_free_page_loop fuel k.zones_nr 0 k
