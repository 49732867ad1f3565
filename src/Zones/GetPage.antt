-- ===== src/Zones/GetPage.antt =====
-- `getPage` finds the record of the page that an address lies in.
use kmd.Base.{
  ℕ, zero, suc, ◌+◌, ◌-◌, ◌*◌, ◌/◌, ◌%◌, ◌^◌, ◌≤◌, ◌<◌, ◌≡◌, ◌∙◌, refl, ap, ◌==◌, ==_iff,
  ==_false→ne, true, false, Bool-cases, inl, inr, Option, none, some, length, get_elem?,
  get_elem?-some, arith, sub64,
}
use kmd.Kernel.{Page, Zone, Kernel, ok}
use kmd.Zones.{in_zone, page_in, get_page_loop, get_page}

-- The records of a zone's pages stand in order from `first`, one for each page that begins in it.
pub record IsZone (pages : ℕ → Page) (z : Zone) : Type 0 where
  pub first : ℕ
  pub pages_eq : z.pages ≡ some first
  pub aligned : z.begin % 4096 ≡ 0
  pub bounded : z.end < 2 ^ 64
  pub bases : (j : ℕ) → z.begin + j * 4096 ≤ z.end → (pages (first + j)).base ≡ z.begin + j * 4096

-- The zones in use lie in the array, and each is a zone.
pub record IsZoned (k : Kernel) : Type 0 where
  pub in_array : k.zones_nr ≤ length k.zones
  pub each : (i : ℕ) (z : Zone) → get_elem? k.zones i ≡ some z → i < k.zones_nr → IsZone k.pages z

-- The outcomes of a search of the zones from `i` on.
pub data Found (k : Kernel) (base i hi : ℕ) : Option ℕ → Type 0 where
  missing :
      ((j : ℕ) (z : Zone) → i ≤ j → j < hi → get_elem? k.zones j ≡ some z → in_zone z base ≡ false)
      → Found k base i hi none
  found :
      (j : ℕ) (z : Zone) (p : ℕ)
      → j < hi
      → get_elem? k.zones j ≡ some z
      → in_zone z base ≡ true
      → (k.pages p).base ≡ base / 4096 * 4096
      → Found k base i hi (some p)

module _ (k : Kernel) (base : ℕ) (zoned : IsZoned k) where
  offset-eq :
      (z : Zone)
      → z.begin ≤ base
      → base < 2 ^ 64
      → sub64 base z.begin / 2 ^ 12 ≡ (base - z.begin) / 4096
  offset-eq z low fits = omega arith

  base-eq :
      (z : Zone) (iz : IsZone k.pages z)
      → in_zone z base ≡ true
      → (k.pages (iz.first + sub64 base z.begin / 2 ^ 12)).base ≡ base / 4096 * 4096
  base-eq z iz inside =
      let low : z.begin ≤ base = ground arith in
      let high : base ≤ z.end = ground arith in
      let off = offset-eq z low (omega (arith, iz.bounded)) in
      rw off (iz.bases ((base - z.begin) / 4096) (omega arith) ∙ omega (arith, iz.aligned))

  Found-skip :
      {i hi : ℕ} {r : Option ℕ} (z : Zone)
      → get_elem? k.zones i ≡ some z
      → in_zone z base ≡ false
      → Found k base (i + 1) hi r
      → Found k base i hi r
  Found-skip {i} z at outside (missing none') = missing (λ j z' p q at'.
      elim (Bool-cases (i == j)) [
        | inl same ↦ skipped j z' ((==_iff i j).0 same) at'
        | inr other ↦ none' j z' (omega (arith, ==_false→ne i j other)) q at'
      ])
    where
      skipped :
          (j : ℕ) (z' : Zone) → i ≡ j → get_elem? k.zones j ≡ some z' → in_zone z' base ≡ false
      skipped j z' e at' = let same : z ≡ z' = cc (ap (get_elem? k.zones) e) in rw same at outside
  Found-skip z at outside (found j z' p q at' inside b) = found j z' p q at' inside b

  module _ (left i : ℕ) (z : Zone) (at : get_elem? k.zones i ≡ some z) where
    step_inside :
        (first : ℕ)
        → z.pages ≡ some first
        → in_zone z base ≡ true
        → get_page_loop (suc left) i base k ≡ ok (some (first + sub64 base z.begin / 2 ^ 12)) k
    unfolding get_page_loop page_in
    step_inside first e inside = ground arith

    step_outside :
        in_zone z base ≡ false
        → get_page_loop (suc left) i base k ≡ get_page_loop left (i + 1) base k
    unfolding get_page_loop
    step_outside outside = ground arith

  abbrev Finds : ℕ → ℕ → Type 0
  Finds left i =
      (r : Option ℕ) × (get_page_loop left i base k ≡ ok r k) × Found k base i k.zones_nr r

  get_page_loop-Found : (left i : ℕ) → i + left ≡ k.zones_nr → Finds left i
  get_page_loop-Found zero i e =
      (none, unfold get_page_loop in refl, missing (λ j z p q. absurd (omega arith)))
  get_page_loop-Found (suc left) i e =
      go (get_elem?-some k.zones i (omega (arith, zoned.in_array)))
        (get_page_loop-Found left (i + 1) (omega arith))
    where
      go : (z : Zone) × (get_elem? k.zones i ≡ some z) → Finds left (i + 1) → Finds (suc left) i
      go (z, at) (r, run, rest) = elim (Bool-cases (in_zone z base)) [
        | inl inside ↦
            let iz = zoned.each i z at (omega arith) in
            (
              some (iz.first + sub64 base z.begin / 2 ^ 12),
              step_inside left i z at iz.first iz.pages_eq inside,
              found i z _ (omega arith) at inside (base-eq z iz inside),
            )
        | inr outside ↦ (r, step_outside left i z at outside ∙ run, Found-skip z at outside rest)
      ]

  -- `getPage` returns for every address, with the state as it was: the index of the record of the
  -- page that the address lies in, if a zone holds the address, and null if none does.
  pub get_page-Found : (r : Option ℕ) × (get_page base k ≡ ok r k) × Found k base 0 k.zones_nr r
  unfolding get_page
  get_page-Found = get_page_loop-Found k.zones_nr 0 (omega arith)
