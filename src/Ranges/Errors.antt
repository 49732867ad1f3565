-- ===== src/Ranges/Errors.antt =====
-- What the ranges of src/mm/mm.cpp do when there is nothing to map: no zone holds the pages,
-- or no chunk has room.
use kmd.Base.{
  ℕ, zero, suc, ◌+◌, ◌≤◌, ◌<◌, ◌≡◌, ◌≢◌, ◌∙◌, sym, refl, Bool, true, false, ◌||◌, Option, none,
  some, List, [], ◌∷◌, length, arith, All, get_elem?, ne→==,
}
use mathlib.Core.Bool.{true≢false}
use kmd.Memory.{load64}
use kmd.Kernel.{Zone, Kernel, ok, fault}
use kmd.Zones.{in_zone, get_page}
use kmd.Zones.GetPage.{IsZoned, Found, found, get_page-Found}
use kmd.Paging.{map_page}
use kmd.Smalloc.{fits, smalloc_loop, smalloc}
use kmd.Smalloc.FirstFit.{FreeList, first_fit, smalloc-first_fit}
use kmd.Ranges.{nr_pages, page_src, map_loop, map, kalloc, salloc}

-- No zone in use holds the address.
abbrev pub IsUnknown : Kernel → ℕ → Type 0
IsUnknown k base =
    (j : ℕ) (z : Zone) → j < k.zones_nr → get_elem? k.zones j ≡ some z → in_zone z base ≡ false

module _ (k : Kernel) (zoned : IsZoned k) where
  get_page-unknown : (base : ℕ) → IsUnknown k base → get_page base k ≡ ok none k
  get_page-unknown base unknown = from (get_page-Found k base zoned)
    where
      from :
          (r : Option ℕ) × (get_page base k ≡ ok r k) × Found k base 0 k.zones_nr r
          → get_page base k ≡ ok none k
      from (none, run, _) = run
      from (some p, _, found j z q lt at inside _) =
          absurd (true≢false (sym inside ∙ unknown j z lt at))

  map_page-unknown :
      (fuel dst src flags : ℕ) → IsUnknown k src → map_page fuel dst src flags k ≡ ok false k
  unfolding map_page
  map_page-unknown fuel dst src flags unknown = rw (get_page-unknown src unknown) refl

  map_loop-unknown :
      (fuel left i dst src flags : ℕ) (pt_mod : Bool)
      → ((j : ℕ) → i ≤ j → j < i + left → IsUnknown k (page_src src j))
      → map_loop fuel left i dst src flags pt_mod k ≡ ok pt_mod k
  unfolding map_loop
  map_loop-unknown fuel zero i dst src flags pt_mod unknown = refl
  map_loop-unknown fuel (suc left) i dst src flags pt_mod unknown =
      rw
        (
          map_page-unknown fuel _ (page_src src i) flags (unknown i (omega arith) (omega arith)),
          map_loop-unknown fuel left (i + 1) dst src flags (pt_mod || false)
              (λ j lo hi. unknown j (omega arith) (omega arith)),
        )
        (or_false pt_mod)
    where
      or_false : (b : Bool) → ok (b || false) k ≡ ok b k
      or_false true = refl
      or_false false = refl

  -- When the zones in use lie in the array and describe their page records, and none of them holds a
  -- page that a range would be mapped to, `map` changes nothing: the page maps, the references and
  -- the processor's translations are as they were.
  pub map-unknown :
      (fuel dst src len flags : ℕ)
      → ((j : ℕ) → j < nr_pages len → IsUnknown k (page_src src j))
      → map fuel dst src len flags k ≡ ok tt k
  unfolding map
  map-unknown fuel dst src len flags unknown =
      rw
        (map_loop-unknown fuel (nr_pages len) 0 dst src flags false
          (λ j lo hi. unknown j (omega arith)))
        refl

first_fit-none :
    (k : Kernel) (size alignement : ℕ) (xs : List ℕ)
    → All (λ i. fits k.memory size alignement i ≡ false) xs
    → first_fit k.memory size alignement xs ≡ none
unfolding first_fit
first_fit-none k size alignement [] tight = refl
first_fit-none k size alignement (i ∷ xs) (here, rest) =
    rw here (first_fit-none k size alignement xs rest)

-- When no chunk of the free list has room, and the list ends within the fuel and the alignment is
-- not zero, `kalloc` and `salloc` return null, map nothing and change nothing.
pub kalloc-no_room :
    (k : Kernel) (fuel src size alignement flags : ℕ) (xs : List ℕ)
    → 0 < alignement
    → FreeList k.memory (load64 k.memory k.arena) xs
    → length xs < fuel
    → All (λ i. fits k.memory size alignement i ≡ false) xs
    → (kalloc fuel size alignement flags k ≡ ok 0 k)
      × (salloc fuel src size alignement flags k ≡ ok 0 k)
unfolding kalloc salloc
kalloc-no_room k fuel src size alignement flags xs pos l h tight =
    let run =
      rw (first_fit-none k size alignement xs tight) at
        (smalloc-first_fit k size alignement pos fuel xs l h) in
    (rw run refl, rw run refl)

-- With an alignment of zero and a chunk in the free list, `kalloc` and `salloc` divide by zero.
pub kalloc-no_alignement :
    (k : Kernel) (fuel src size flags : ℕ)
    → load64 k.memory k.arena ≢ 0
    → (kalloc (suc fuel) size 0 flags k ≡ fault) × (salloc (suc fuel) src size 0 flags k ≡ fault)
unfolding kalloc salloc smalloc smalloc_loop
kalloc-no_alignement k fuel src size flags ne = (rw (ne→== _ 0 ne) refl, rw (ne→== _ 0 ne) refl)
