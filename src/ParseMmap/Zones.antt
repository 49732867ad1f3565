-- ===== src/ParseMmap/Zones.antt =====
-- The zones that `parseMmap` of src/mm/mm.cpp makes of the boot loader's map.
use kmd.Base.{
  ℕ, zero, suc, ◌+◌, ◌-◌, ◌≤◌, ◌<◌, ◌≡◌, ◌∙◌, ◌⊎◌, inl, inr, refl, ap, subst, List, [], ◌∷◌, ◌++◌,
  length, get_elem?, set, none, some, arith, u8, ltb, lt→ltb, le→ltb_false, get_elem?-some,
  get_elem?-set_self, get_elem?-set_ne, Bool-cases, ◌==◌, ==_iff, ==_false→ne, false, length-set,
  length-append,
}
use kmd.Memory.{Memory}
use kmd.Kernel.{Run, fault, and_then, Zone, Kernel, ok}
use kmd.Mmap.{fin, entry_addr, entry_end}
use kmd.ParseMmap.{
  fin_of, parse_entries, Compare, compare_begins, put_zone, fill_zones, take_zones, drop_zones,
  sort_zones, record_entries, parse_mmap,
}
use kmd.ParseMmap.Merged.{join, Holds, merge_loop-join}

-- The zone of an entry.
abbrev pub entry_zone : Memory → ℕ → ℕ → Zone
entry_zone m mmap i = record { begin = entry_addr m mmap i; end = entry_end m mmap i; pages = none }

-- The array has the zones of the entries from `i` to `n`, and is otherwise as it was.
pub record Filled (m : Memory) (mmap i n : ℕ) (zs zs' : List Zone) : Type 0 where
  pub same_length : length zs' ≡ length zs
  pub filled : (j : ℕ) → i ≤ j → j < n → get_elem? zs' j ≡ some (entry_zone m mmap j)
  pub kept : (j : ℕ) → (j < i) ⊎ (n ≤ j) → get_elem? zs' j ≡ get_elem? zs j

Filled-none : (m : Memory) (mmap n : ℕ) (zs : List Zone) → Filled m mmap n n zs zs
Filled-none m mmap n zs = record {
  same_length = refl;
  filled = λ j lo hi. absurd (omega arith);
  kept = λ j h. refl;
}

Filled-suc :
    (m : Memory) (mmap i n : ℕ) (zs zs' : List Zone)
    → i < n
    → i < length zs
    → Filled m mmap (i + 1) n (set zs i (entry_zone m mmap i)) zs'
    → Filled m mmap i n zs zs'
Filled-suc m mmap i n zs zs' lt small f = record {
  same_length = f.same_length ∙ length-set zs i (entry_zone m mmap i);
  filled = λ j lo hi. elim (Bool-cases (j == i)) [
    | inl same ↦
        let e = (==_iff j i).0 same in
        rw e (f.kept i (inl (omega arith)) ∙ get_elem?-set_self zs i (entry_zone m mmap i) small)
    | inr other ↦ f.filled j (omega (arith, ==_false→ne j i other)) hi
  ];
  kept =
      λ j h. f.kept j (omega arith) ∙ get_elem?-set_ne zs i j (entry_zone m mmap i) (omega arith);
}

put_zone-run :
    (k : Kernel) (i : ℕ) (z : Zone)
    → i < length k.zones
    → put_zone i z k ≡ ok tt (record k { zones = set k.zones i z })
unfolding put_zone
put_zone-run k i z lt = let (old, at) = get_elem?-some k.zones i lt in rw (put_zone, at) refl

module _ (entries mmap fuel i : ℕ) (k : Kernel) where
  fill_zones-suc :
      i < entries
      → i < 255
      → i < length k.zones
      → fill_zones (suc fuel) entries mmap i k
        ≡ fill_zones fuel entries mmap
            (i + 1)
            (record k { zones = set k.zones i (entry_zone k.memory mmap i) })
  unfolding fill_zones
  fill_zones-suc lt small room =
      let next : u8 (i + 1) ≡ i + 1 = omega arith in
      rw (lt→ltb i entries lt, next, put_zone-run k i (entry_zone k.memory mmap i) room) refl

  fill_zones-end : i ≡ entries → fill_zones (suc fuel) entries mmap i k ≡ ok i k
  unfolding fill_zones
  fill_zones-end e =
      let over : ltb i entries ≡ false = le→ltb_false _ _ (omega arith) in rw over refl

-- The first loop ends at the number of entries, when there are fewer than 256.
fill_zones-Filled :
    (entries mmap left fuel i : ℕ) (k : Kernel)
    → i + left ≡ entries
    → entries < 256
    → entries ≤ length k.zones
    → left < fuel
    → (zs : List Zone) × (fill_zones fuel entries mmap i k ≡ ok entries (record k { zones = zs }))
      × Filled k.memory mmap i entries k.zones zs
fill_zones-Filled entries mmap left zero i k e small room enough = absurd (omega arith)
fill_zones-Filled entries mmap zero (suc fuel) i k e small room enough =
    let at : i ≡ entries = omega arith in
    (
      k.zones,
      fill_zones-end entries mmap fuel i k at ∙ ap (λ n. ok n k) at,
      rw at (Filled-none k.memory mmap entries k.zones),
    )
fill_zones-Filled entries mmap (suc left) (suc fuel) i k e small room enough =
    let k1 = record k { zones = set k.zones i (entry_zone k.memory mmap i) } in
    let same = length-set k.zones i (entry_zone k.memory mmap i) in
    let (zs, run, filled) =
      fill_zones-Filled entries mmap left fuel (i + 1) k1 (omega arith) small (rw same room)
        (omega arith) in
    (
      zs,
      fill_zones-suc entries mmap fuel i k (omega arith) (omega arith) (omega arith) ∙ run,
      Filled-suc k.memory mmap i entries k.zones zs (omega arith) (omega arith) filled,
    )

length-take_zones : (n : ℕ) (zs : List Zone) → n ≤ length zs → length (take_zones n zs) ≡ n
unfolding take_zones
length-take_zones zero zs h = refl
length-take_zones (suc n) [] h = absurd (omega arith)
length-take_zones (suc n) (z ∷ zs) h = omega (arith, length-take_zones n zs (omega arith))

length-drop_zones :
    (n : ℕ) (zs : List Zone) → n ≤ length zs → length (drop_zones n zs) + n ≡ length zs
unfolding drop_zones
length-drop_zones zero zs h = omega arith
length-drop_zones (suc n) [] h = absurd (omega arith)
length-drop_zones (suc n) (z ∷ zs) h = omega (arith, length-drop_zones n zs (omega arith))

Holds-append : (xs ys : List Zone) → Holds (xs ++ ys) 0 xs
Holds-append xs ys j z at = subst (λ i. get_elem? (xs ++ ys) i ≡ some z) (omega arith) (go xs j at)
  where
    go : (xs : List Zone) (j : ℕ) → get_elem? xs j ≡ some z → get_elem? (xs ++ ys) j ≡ some z
    go [] j e = absurd (cc e)
    go (x ∷ xs) zero e = e
    go (x ∷ xs) (suc j) e = go xs j e

length-suc :
    (n : ℕ) (zs : List Zone)
    → length zs ≡ suc n
    → (z : Zone) × (rest : List Zone) × (zs ≡ z ∷ rest) × (length rest ≡ n)
length-suc n [] e = absurd (omega arith)
length-suc n (z ∷ rest) e = (z, rest, refl, omega arith)

module _ (qsort : Compare → List Zone → List Zone)
    (keeps : (l : List Zone) → length (qsort compare_begins l) ≡ length l) (mmap fuel entries : ℕ)
    (k : Kernel) (array : length k.zones ≡ 255) (counted : fin k.memory mmap ≡ some entries)
    (few : entries ≤ 254) (enough : entries < fuel) where
  fin_of-counted : fin_of mmap k ≡ ok entries k
  unfolding fin_of
  fin_of-counted = ap (λ o. elim o as (λ _. Run ℕ) [ none ↦ fault | some n ↦ ok n k ]) counted

  parse_mmap-counted : parse_mmap qsort fuel mmap k ≡ parse_entries qsort fuel mmap entries k
  unfolding parse_mmap
  parse_mmap-counted = ap (λ r. and_then r (parse_entries qsort fuel mmap)) fin_of-counted

  -- The state behind the sort.
  abbrev sorted_state : List Zone → Kernel
  sorted_state zs = record k {
    zones = qsort compare_begins (take_zones (suc entries) zs) ++ drop_zones (suc entries) zs;
  }

  -- `parseMmap`, when the size of an entry is not 0, there are at most 254 entries and `qsort` keeps the number of elements: the
  -- first three loops end without a fault. They write the zones of the entries at the beginning of
  -- the array, sort them together with the element behind them, and join what is sorted; the
  -- number of zones is then one less than the number of joined ones, and the last loop starts with
  -- them.
  pub parse_mmap-zones :
      (filled : List Zone) × (first : Zone) × (pending : List Zone) × (zs : List Zone) × (n : ℕ)
      × Filled k.memory mmap 0 entries k.zones filled
      × (qsort compare_begins (take_zones (suc entries) filled) ≡ first ∷ pending)
      × (length (join first pending) ≡ suc n)
      × Holds zs 0 (join first pending)
      × (length zs ≡ 255)
      × (parse_mmap qsort fuel mmap k
          ≡ record_entries fuel entries mmap 0 0 0 (record k { zones = zs; zones_nr = n }))
  unfolding parse_entries sort_zones
  parse_mmap-zones =
      let (filled, run, is_filled) =
        fill_zones-Filled entries mmap entries fuel 0 k (omega arith) (omega arith) (omega arith)
          enough in
      let taken = length-take_zones (suc entries) filled (omega (arith, is_filled.same_length)) in
      let (first, pending, sorted, len) =
        length-suc entries (qsort compare_begins (take_zones (suc entries) filled))
          (keeps (take_zones (suc entries) filled) ∙ taken) in
      let (n, zs, joined, merged, same, holds) =
        merge_loop-join first pending (sorted_state filled)
          (rw sorted (Holds-append (first ∷ pending) (drop_zones (suc entries) filled)))
          (omega arith) in
      let whole : length (
            qsort compare_begins (take_zones (suc entries) filled)
            ++ drop_zones (suc entries) filled)
          ≡ 255 =
        omega (
          arith,
          length-append (qsort compare_begins (take_zones (suc entries) filled))
              (drop_zones (suc entries) filled),
          keeps (take_zones (suc entries) filled),
          taken,
          is_filled.same_length,
          length-drop_zones (suc entries) filled (omega (arith, is_filled.same_length)),
        ) in
      let nr : u8 (entries + 1) ≡ suc entries = omega arith in
      let left : suc entries - 1 ≡ length pending = omega arith in
      (
        filled,
        first,
        pending,
        zs,
        n,
        is_filled,
        sorted,
        joined,
        holds,
        omega (arith, same, whole),
        parse_mmap-counted ∙ rw (run, nr, left, merged) refl,
      )
