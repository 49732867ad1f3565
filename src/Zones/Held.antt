-- ===== src/Zones/Held.antt =====
-- What `getPage` of src/mm/mm.cpp returns for each address, the ends of the zones included.
use kmd.Base.{
  ℕ, zero, suc, ◌+◌, ◌-◌, ◌*◌, ◌/◌, ◌%◌, ◌^◌, ◌≤◌, ◌<◌, ◌≡◌, ◌∙◌, refl, ap, ◌==◌, ==_iff,
  ==_false→ne, true, false, Bool-cases, ◌⊎◌, inl, inr, Option, none, some, length, get_elem?,
  get_elem?-some, arith, sub64, leb,
}
use kmd.Kernel.{Page, Zone, Kernel, ok}
use kmd.Zones.{in_zone, page_in, get_page_loop, get_page}

-- The records of a zone's pages stand in order from `first`, one for each page that begins before
-- the zone ends.
pub record IsFilled (pages : ℕ → Page) (z : Zone) : Type 0 where
  pub first : ℕ
  pub pages_eq : z.pages ≡ some first
  pub aligned : z.begin % 4096 ≡ 0
  pub bounded : z.end < 2 ^ 64
  pub bases : (j : ℕ) → z.begin + j * 4096 < z.end → (pages (first + j)).base ≡ z.begin + j * 4096

-- The zones in use lie in the array, and each has its records.
pub record AreFilled (k : Kernel) : Type 0 where
  pub in_array : k.zones_nr ≤ length k.zones
  pub each : (i : ℕ) (z : Zone) → get_elem? k.zones i ≡ some z → i < k.zones_nr → IsFilled k.pages z

-- No zone from `i` up to `hi` holds the address; both ends of a zone count.
abbrev pub NotHeld : Kernel → ℕ → ℕ → ℕ → Type 0
NotHeld k base i hi =
    (j : ℕ) (z : Zone)
    → i ≤ j
    → j < hi
    → get_elem? k.zones j ≡ some z
    → (base < z.begin) ⊎ (z.end < base)

-- The zone `j` is the first one from `i` on that holds the address, and `p` is the index of the
-- record as many pages behind the zone's first one as the address is behind its beginning. It is the
-- record of the page that the address lies in, unless the zone ends at the address.
pub record IsHeld (k : Kernel) (base i p : ℕ) : Type 0 where
  pub j : ℕ
  pub z : Zone
  pub first : ℕ
  pub from : i ≤ j
  pub in_use : j < k.zones_nr
  pub at : get_elem? k.zones j ≡ some z
  pub before : NotHeld k base i j
  pub low : z.begin ≤ base
  pub high : base ≤ z.end
  pub pages_eq : z.pages ≡ some first
  pub index : p ≡ first + (base - z.begin) / 4096
  pub page : base < z.end → (k.pages p).base ≡ base / 4096 * 4096

abbrev pub Outcome : Kernel → ℕ → ℕ → Option ℕ → Type 0
Outcome k base i none = NotHeld k base i k.zones_nr
Outcome k base i (some p) = IsHeld k base i p

in_zone-outside : (z : Zone) (base : ℕ) → in_zone z base ≡ false → (base < z.begin) ⊎ (z.end < base)
in_zone-outside z base h = elim (Bool-cases (leb z.begin base)) [
  | inl low ↦ inr (ground arith)
  | inr high ↦ inl (ground arith)
]

module _ (k : Kernel) (base : ℕ) (filled : AreFilled k) where
  NotHeld-skip :
      (i hi : ℕ) (z : Zone)
      → get_elem? k.zones i ≡ some z
      → in_zone z base ≡ false
      → NotHeld k base (i + 1) hi
      → NotHeld k base i hi
  NotHeld-skip i hi z at outside rest j z' p q at' = elim (Bool-cases (i == j)) [
    | inl same ↦
        let at_i : get_elem? k.zones i ≡ get_elem? k.zones j =
          ap (get_elem? k.zones) ((==_iff i j).0 same) in
        let e : z' ≡ z = cc (at, at', at_i) in in_zone-outside z' base (rw e outside)
    | inr other ↦ rest j z' (omega (arith, ==_false→ne i j other)) q at'
  ]

  Outcome-skip :
      (i : ℕ) (z : Zone) (r : Option ℕ)
      → get_elem? k.zones i ≡ some z
      → in_zone z base ≡ false
      → Outcome k base (i + 1) r
      → Outcome k base i r
  Outcome-skip i z none at outside rest = NotHeld-skip i k.zones_nr z at outside rest
  Outcome-skip i z (some p) at outside rest = record {
    j = rest.j;
    z = rest.z;
    first = rest.first;
    from = omega (arith, rest.from);
    in_use = rest.in_use;
    at = rest.at;
    before = NotHeld-skip i rest.j z at outside rest.before;
    low = rest.low;
    high = rest.high;
    pages_eq = rest.pages_eq;
    index = rest.index;
    page = rest.page;
  }

  module _ (left i : ℕ) (z : Zone) (at : get_elem? k.zones i ≡ some z) where
    inside-IsHeld :
        (f : IsFilled k.pages z)
        → i < k.zones_nr
        → in_zone z base ≡ true
        → IsHeld k base i (f.first + sub64 base z.begin / 2 ^ 12)
    inside-IsHeld f lt inside =
        let low : z.begin ≤ base = ground arith in
        let high : base ≤ z.end = ground arith in
        let offset : sub64 base z.begin / 2 ^ 12 ≡ (base - z.begin) / 4096 =
          omega (arith, f.bounded) in
        record {
          j = i;
          z = z;
          first = f.first;
          from = omega arith;
          in_use = lt;
          at = at;
          before = λ j z' p q. absurd (omega arith);
          low = low;
          high = high;
          pages_eq = f.pages_eq;
          index = ap (λ n. f.first + n) offset;
          page = λ inner.
              rw offset
                (f.bases ((base - z.begin) / 4096) (omega arith) ∙ omega (arith, f.aligned));
        }

    step_inside :
        (first : ℕ)
        → z.pages ≡ some first
        → in_zone z base ≡ true
        → get_page_loop (suc left) i base k ≡ ok (some (first + sub64 base z.begin / 2 ^ 12)) k
    unfolding get_page_loop page_in
    step_inside first e inside = ground arith

    step_outside :
        in_zone z base ≡ false
        → get_page_loop (suc left) i base k ≡ get_page_loop left (i + 1) base k
    unfolding get_page_loop
    step_outside outside = ground arith

  abbrev Finds : ℕ → ℕ → Type 0
  Finds left i = (r : Option ℕ) × (get_page_loop left i base k ≡ ok r k) × Outcome k base i r

  get_page_loop-Outcome : (left i : ℕ) → i + left ≡ k.zones_nr → Finds left i
  get_page_loop-Outcome zero i e =
      (none, unfold get_page_loop in refl, λ j z p q. absurd (omega arith))
  get_page_loop-Outcome (suc left) i e =
      go (get_elem?-some k.zones i (omega (arith, filled.in_array)))
        (get_page_loop-Outcome left (i + 1) (omega arith))
    where
      go : (z : Zone) × (get_elem? k.zones i ≡ some z) → Finds left (i + 1) → Finds (suc left) i
      go (z, at) (r, run, rest) = elim (Bool-cases (in_zone z base)) [
        | inl inside ↦
            let f = filled.each i z at (omega arith) in
            (
              some (f.first + sub64 base z.begin / 2 ^ 12),
              step_inside left i z at f.first f.pages_eq inside,
              inside-IsHeld left i z at f (omega arith) inside,
            )
        | inr outside ↦
            (r, step_outside left i z at outside ∙ run, Outcome-skip i z r at outside rest)
      ]

  -- When the zones in use lie in the array, and each begins at a page and has a record, in order, of
  -- each page that begins before its end, `getPage` returns for every address, with the state as it
  -- was. If the address is below the beginning or above the end of every zone, it returns null.
  -- Otherwise, for the first zone that it is not outside of, it returns the index of the record as
  -- many pages behind the zone's first one as the address is behind its beginning: the record of the
  -- page that the address lies in, unless the zone ends at the address.
  pub get_page-Outcome : (r : Option ℕ) × (get_page base k ≡ ok r k) × Outcome k base 0 r
  unfolding get_page
  get_page-Outcome = get_page_loop-Outcome k.zones_nr 0 (omega arith)
