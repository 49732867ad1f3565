-- ===== src/ParseMmap/Listed.antt =====
-- The last loop of `parseMmap` of src/mm/mm.cpp: the records of the pages of all entries.
use kmd.Base.{
  ℕ, zero, suc, ◌+◌, ◌-◌, ◌*◌, ◌^◌, ◌≤◌, ◌<◌, ◌≡◌, ◌∙◌, refl, ap, subst, ◌⊎◌, inl, inr, arith, ◌==◌,
  ==_iff, ==_false→ne, Bool-cases, none, some, List, length, lt→ltb, le→ltb_false, u8,
}
use kmd.Memory.{Memory}
use kmd.Memory.Laws.{load64-lt}
use kmd.Kernel.{Page, Zone, Kernel, Run, ok, out_of_fuel, and_then}
use kmd.Mmap.{entry_addr, entry_end, entry_type}
use kmd.BootPaging.PhySize.{whole_pages}
use kmd.ParseMmap.{claim_zone, record_loop, record_entry, record_entries}
use kmd.ParseMmap.Records.{Recorded, record_of, record_loop-Recorded}
use kmd.ParseMmap.Claims.{SameZones, SameZones-refl, SameZones-trans, Claimed, claim_zone-Claimed}

-- The number of pages of an entry, and of the entries before it.
abbrev pub entry_pages : Memory → ℕ → ℕ → ℕ
entry_pages m mmap i = whole_pages (entry_end m mmap i - entry_addr m mmap i)

unfoldable pub first_record : Memory → ℕ → ℕ → ℕ
first_record m mmap zero = 0
first_record m mmap (suc i) = first_record m mmap i + entry_pages m mmap i

-- Page `j` of an entry.
abbrev pub entry_page : Memory → ℕ → ℕ → ℕ → Page
entry_page m mmap i j = record_of (entry_addr m mmap i + j * 2 ^ 12) (entry_type m mmap i == 1)

-- The records of the pages of the entries from `i` to `n` are written, one behind the other in the
-- order of the entries, and no other has changed.
pub record Listed (m : Memory) (mmap i n : ℕ) (pages pages' : ℕ → Page) : Type 0 where
  pub listed :
      (e j : ℕ)
      → i ≤ e
      → e < n
      → j < entry_pages m mmap e
      → pages' (first_record m mmap e + j) ≡ entry_page m mmap e j
  pub kept :
      (q : ℕ) → (q < first_record m mmap i) ⊎ (first_record m mmap n ≤ q) → pages' q ≡ pages q

module _ (m : Memory) (mmap : ℕ) where
  first_record_mono : (i n : ℕ) → i ≤ n → first_record m mmap i ≤ first_record m mmap n
  unfolding first_record
  first_record_mono i zero le =
      let none : i ≡ 0 = omega arith in omega (arith, ap (first_record m mmap) none)
  first_record_mono i (suc n) le = elim (Bool-cases (i == suc n)) [
    | inl same ↦ omega (arith, ap (first_record m mmap) ((==_iff i (suc n)).0 same))
    | inr other ↦ omega (arith, first_record_mono i n (omega (arith, ==_false→ne i (suc n) other)))
  ]

  Listed-none : (n : ℕ) (pages : ℕ → Page) → Listed m mmap n n pages pages
  Listed-none n pages = record { listed = λ e j lo hi _. absurd (omega arith); kept = λ q h. refl }

  Listed-suc :
      (i n : ℕ) (pages pages1 pages' : ℕ → Page)
      → i < n
      → Recorded
          (entry_addr m mmap i)
          (entry_type m mmap i == 1)
          (entry_pages m mmap i)
          (first_record m mmap i)
          pages
          pages1
      → Listed m mmap (suc i) n pages1 pages'
      → Listed m mmap i n pages pages'
  unfolding first_record
  Listed-suc i n pages pages1 pages' lt here rest =
      let mono = first_record_mono (suc i) n lt in
      record {
        listed = λ e j lo hi small. elim (Bool-cases (e == i)) [
          | inl same ↦
              let at = (==_iff e i).0 same in
              let within : j < entry_pages m mmap i =
                subst (λ e'. j < entry_pages m mmap e') at small in
              rw at (
                rest.kept (first_record m mmap i + j) (inl (omega (arith, within)))
                ∙ here.written j within)
          | inr other ↦ rest.listed e j (omega (arith, ==_false→ne e i other)) hi small
        ];
        kept = λ q h. rest.kept q (omega (arith, mono)) ∙ here.kept q (omega (arith, mono));
      }

-- What is asked of the entries: they do not reach the last page of the addresses, and there is fuel
-- for the pages of each, with `left` rounds to spare.
abbrev pub Readable : ℕ → ℕ → ℕ → Memory → ℕ → Type 0
Readable fuel left entries m mmap =
    (e : ℕ)
    → e < entries
    → (entry_end m mmap e + 2 ^ 12 ≤ 2 ^ 64) × (entry_pages m mmap e + left < fuel)

module _ (mmap : ℕ) where
  entry_addr-lt : (m : Memory) (i : ℕ) → entry_addr m mmap i < 2 ^ 64
  unfolding entry_addr
  entry_addr-lt m i = load64-lt m _

  record_entry-run :
      (fuel i z1 p z1' p' : ℕ) (k k1 : Kernel) (pages : ℕ → Page)
      → claim_zone (entry_addr k.memory mmap i) z1 p k ≡ ok z1' k1
      → record_loop fuel
          (entry_addr k.memory mmap i)
          (entry_end k.memory mmap i)
          (entry_type k.memory mmap i == 1)
          0
          p
          k1.pages
        ≡ some (p', pages)
      → record_entry fuel mmap i z1 p k ≡ ok (z1', p') (record k1 { pages = pages })
  unfolding record_entry
  record_entry-run fuel i z1 p z1' p' k k1 pages claimed written =
      ap
        (λ r. and_then r (λ z k'.
          elim (record_loop fuel (entry_addr k.memory mmap i) (entry_end k.memory mmap i)
              (entry_type k.memory mmap i == 1) 0 p k'.pages)
            as (λ _. Run (ℕ × ℕ)) [
              | none ↦ out_of_fuel
              | some (q, pages') ↦ ok (z, q) (record k' { pages = pages' })
            ]))
        claimed
      ∙ ap
          (λ o. elim o as (λ _. Run (ℕ × ℕ)) [
            | none ↦ out_of_fuel
            | some (q, pages') ↦ ok (z1', q) (record k1 { pages = pages' })
          ])
          written

  -- The state behind an entry.
  Entered : ℕ → ℕ → Kernel → Run (ℕ × ℕ) → Type 0
  Entered i z1 k r =
      (z1' : ℕ) × (zs : List Zone) × (pages : ℕ → Page) × (z1' ≤ suc z1)
      × (r ≡ ok (z1', first_record k.memory mmap (suc i)) (record k { zones = zs; pages = pages }))
      × SameZones k.zones zs
      × Recorded (entry_addr k.memory mmap i) (entry_type k.memory mmap i == 1)
          (entry_pages k.memory mmap i) (first_record k.memory mmap i) k.pages pages

  record_entry-Entered :
      (fuel i z1 : ℕ) (k : Kernel)
      → suc z1 < length k.zones
      → z1 < 255
      → entry_end k.memory mmap i + 2 ^ 12 ≤ 2 ^ 64
      → entry_pages k.memory mmap i < fuel
      → Entered i z1 k (record_entry fuel mmap i z1 (first_record k.memory mmap i) k)
  unfolding Entered Claimed first_record
  record_entry-Entered fuel i z1 k room small bound enough =
      let addr = entry_addr k.memory mmap i in
      let p = first_record k.memory mmap i in
      let (z1', le, claimed) = claim_zone-Claimed addr z1 p k room small in
      let (zs, run, same) = claimed in
      let (pages, written, recorded) =
        record_loop-Recorded fuel addr (entry_end k.memory mmap i) (entry_type k.memory mmap i == 1)
          p k.pages (entry_addr-lt k.memory i) bound enough in
      (z1', zs, pages, le, record_entry-run fuel i z1 p z1' _ k _ pages run written, same, recorded)

  -- The state behind the loop.
  unfoldable pub Ended : ℕ → ℕ → Kernel → Run (Unit {0}) → Type 0
  Ended entries i k r =
      (zs : List Zone) × (pages : ℕ → Page) × (r ≡ ok tt (record k { zones = zs; pages = pages }))
      × SameZones k.zones zs
      × Listed k.memory mmap i entries k.pages pages

  pub record_entries-Ended :
      (entries left fuel i z1 : ℕ) (k : Kernel)
      → i + left ≡ entries
      → entries ≤ 254
      → z1 ≤ i
      → length k.zones ≡ 255
      → left < fuel
      → Readable fuel left entries k.memory mmap
      → Ended entries i k (record_entries fuel entries mmap i z1 (first_record k.memory mmap i) k)
  unfolding record_entries Ended Entered
  record_entries-Ended entries left zero i z1 k e few le array enough readable =
      absurd (omega arith)
  record_entries-Ended entries zero (suc fuel) i z1 k e few le array enough readable =
      let at : i ≡ entries = omega arith in
      (
        k.zones,
        k.pages,
        rw (le→ltb_false i entries (omega arith)) refl,
        SameZones-refl k.zones,
        rw at (Listed-none k.memory mmap entries k.pages),
      )
  record_entries-Ended entries (suc left) (suc fuel) i z1 k e few le array enough readable =
      let (bound, room) = readable i (omega arith) in
      let (z1', zs, pages, le', run, same, recorded) =
        record_entry-Entered fuel i z1 k (omega arith) (omega arith) bound (omega arith) in
      let (zs', pages', rest, same', listed) =
        record_entries-Ended entries left fuel (suc i) z1' (record k { zones = zs; pages = pages })
          (omega arith) few (omega arith) (same.same_length ∙ array) (omega arith)
          (λ e' lt. (let (b, r) = readable e' lt in (b, omega arith))) in
      let next : u8 (i + 1) ≡ suc i = omega arith in
      (
        zs',
        pages',
        rw (lt→ltb i entries (omega arith), run, next) rest,
        SameZones-trans k.zones zs zs' same same',
        Listed-suc k.memory mmap i entries k.pages pages pages' (omega arith) recorded listed,
      )
