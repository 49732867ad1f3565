-- ===== src/Tests/Parse.antt =====
-- `parseMmap` with a map of two entries and an insertion sort.
use kmd.Base.{
  ℕ, zero, suc, ◌≡◌, ◌∙◌, refl, ap, List, [], ◌∷◌, length, false, none, some, Option, get_elem?,
  arith, ◌==◌, if◌then◌else◌, Bool-cases, inl, inr,
}
use kmd.Memory.{Memory, load32, load64, load_bytes}
use kmd.Kernel.{Kernel, Page, Zone, ok}
use kmd.Mmap.{fin, entry_addr, entry_len, entry_end}
use kmd.ParseMmap.{Compare, compare_begins, take_zones, parse_mmap}
use kmd.ParseMmap.Merged.{join}
use kmd.ParseMmap.Zones.{Filled}
use kmd.ParseMmap.Listed.{Listed, Readable}
use kmd.ParseMmap.Whole.{Separated, parse_mmap-parses}

insert : Compare → Zone → List Zone → List Zone
insert compare a [] = a ∷ []
insert compare a (b ∷ l) =
    let rest = insert compare a l in if compare a b == 0 then a ∷ b ∷ l else b ∷ rest

sort : Compare → List Zone → List Zone
sort compare [] = []
sort compare (a ∷ l) = insert compare a (sort compare l)

length-insert :
    (compare : Compare) (a : Zone) (l : List Zone) → length (insert compare a l) ≡ suc (length l)
unfolding insert
length-insert compare a [] = refl
length-insert compare a (b ∷ l) = elim (Bool-cases (compare a b == 0)) [
  | inl first ↦ rw first refl
  | inr later ↦ rw later (ap suc (length-insert compare a l))
]

length-sort : (compare : Compare) (l : List Zone) → length (sort compare l) ≡ length l
unfolding sort
length-sort compare [] = refl
length-sort compare (a ∷ l) =
    length-insert compare a (sort compare l) ∙ ap suc (length-sort compare l)

-- Two entries of 24 bytes: from 0 to 0x1000, which is available, and from 0x1000 to 0x3000.
abbrev memory : Memory
memory a =
    if a == 0x104
    then 64
    else if a == 0x108
    then 24
    else if a == 0x119
    then 0x10
    else if a == 0x120
    then 1
    else if a == 0x129
    then 0x10
    else if a == 0x131
    then 0x20
    else if a == 0x138
    then 2
    else 0

zeros : ℕ → List Zone
zeros zero = []
zeros (suc n) = record { begin = 0; end = 0; pages = none } ∷ zeros n

abbrev kernel : Kernel
kernel = record {
  memory = memory;
  page_map_level4 = 0;
  zones = zeros 255;
  zones_nr = 0;
  arena = 0;
  pages = λ p. record { base = 0; references = 0; available = false };
  cr3 = 0;
  trace = [];
}

two : fin memory 0x100 ≡ some 2
unfolding fin load32 load_bytes
two = refl

-- Where the entries begin and end.
from : (entry_addr memory 0x100 0 ≡ 0) × (entry_addr memory 0x100 1 ≡ 0x1000)
unfolding entry_addr load64 load_bytes
from = (refl, refl)

to : (entry_end memory 0x100 0 ≡ 0x1000) × (entry_end memory 0x100 1 ≡ 0x3000)
unfolding entry_end entry_addr entry_len load64 load_bytes
to = (refl, refl)

readable : Readable 20 2 2 memory 0x100
readable zero lt = (omega (arith, to.0), omega (arith, to.0, from.0))
readable (suc zero) lt = (omega (arith, to.1), omega (arith, to.1, from.1))
readable (suc (suc e)) lt = absurd (omega arith)

parse_mmap-parses_example :
    (filled : List Zone) × (first : Zone) × (pending : List Zone) × (zs : List Zone) × (n : ℕ)
    × (pages : ℕ → Page) × Filled memory 0x100 0 2 (zeros 255) filled
    × (sort compare_begins (take_zones (suc 2) filled) ≡ first ∷ pending)
    × Separated (join first pending)
    × (length (join first pending) ≡ suc n)
    × ((j : ℕ) (z : Zone)
        → get_elem? (join first pending) j ≡ some z
        → (p : Option ℕ) × (get_elem? zs j ≡ some (record z { pages = p })))
    × Listed memory 0x100 0 2 kernel.pages pages
    × (parse_mmap sort 20 0x100 kernel
        ≡ ok tt (record kernel { zones = zs; zones_nr = n; pages = pages }))
unfolding zeros
parse_mmap-parses_example =
    parse_mmap-parses sort (length-sort compare_begins) 0x100 20 2 kernel refl two (omega arith)
      (omega arith) readable
