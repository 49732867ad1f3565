-- ===== src/ParseMmap/Claims.antt =====
-- The zone that the last loop of `parseMmap` of src/mm/mm.cpp finds for an entry.
use kmd.Base.{
  ℕ, suc, ◌+◌, ◌≤◌, ◌<◌, ◌≡◌, ◌∙◌, refl, ap, sym, subst, inl, inr, arith, Bool, true, false, ◌==◌,
  ==_iff, ==_false→ne, Bool-cases, if◌then◌else◌, Option, none, some, List, length, get_elem?, set,
  get_elem?-some, get_elem?-set_self, get_elem?-set_ne, length-set, ltb, u8,
}
use kmd.Kernel.{Zone, Kernel, Run, ok, Cmd, pure, ◌>>=◌, ◌>>◌}
use mathlib.Core.Option.{some_inj}
use kmd.ParseMmap.Merged.{zone_at-some, put_zone-some}
use kmd.ParseMmap.{zone_at, put_zone, claim_zone}

-- The zones are where they were, with the begin and the end that they had.
pub record SameZones (zs zs' : List Zone) : Type 0 where
  pub same_length : length zs' ≡ length zs
  pub same_bounds :
      (i : ℕ) (z : Zone)
      → get_elem? zs i ≡ some z
      → (pages : Option ℕ) × (get_elem? zs' i ≡ some (record z { pages = pages }))

pub SameZones-refl : (zs : List Zone) → SameZones zs zs
SameZones-refl zs = record { same_length = refl; same_bounds = λ i z at. (z.pages, at) }

pub SameZones-trans :
    (zs zs1 zs2 : List Zone) → SameZones zs zs1 → SameZones zs1 zs2 → SameZones zs zs2
SameZones-trans zs zs1 zs2 a b = record {
  same_length = b.same_length ∙ a.same_length;
  same_bounds = λ i z at.
      let (p1, at1) = a.same_bounds i z at in
      let (p2, at2) = b.same_bounds i (record z { pages = p1 }) at1 in (p2, at2);
}

pub SameZones-set :
    (zs : List Zone) (i : ℕ) (z : Zone) (pages : Option ℕ)
    → get_elem? zs i ≡ some z
    → i < length zs
    → SameZones zs (set zs i (record z { pages = pages }))
SameZones-set zs i z pages at room = record {
  same_length = length-set zs i (record z { pages = pages });
  same_bounds = λ j y at_j. elim (Bool-cases (j == i)) [
    | inl same ↦
        let here = (==_iff j i).0 same in
        let eq : z ≡ y = some_inj.0 (sym at ∙ ap (get_elem? zs) (sym here) ∙ at_j) in
        let paged : Zone → Option Zone = λ x. some (record x { pages = pages }) in
        (pages, rw here (get_elem?-set_self zs i (record z { pages = pages }) room ∙ ap paged eq))
    | inr other ↦ (
      y.pages,
      get_elem?-set_ne zs i j (record z { pages = pages }) (λ e. ==_false→ne j i other (sym e))
          ∙ at_j,
    )
  ];
}

-- The end of `claimZone`, in the zone that the entry belongs to.
claim_at : ℕ → ℕ → Cmd ℕ
unfolding zone_at put_zone
claim_at z1 p = do
  z ← zone_at z1
  elim z.pages [ none ↦ put_zone z1 (record z { pages = some p }) >> pure z1 | some _ ↦ pure z1 ]

unfoldable pub Claimed : ℕ → Kernel → Run ℕ → Type 0
Claimed z1 k r = (zs : List Zone) × (r ≡ ok z1 (record k { zones = zs })) × SameZones k.zones zs

claim_at-Claimed : (z1 p : ℕ) (k : Kernel) → z1 < length k.zones → Claimed z1 k (claim_at z1 p k)
unfolding claim_at Claimed
claim_at-Claimed z1 p k room =
    let (z, at) = get_elem?-some k.zones z1 room in rw (zone_at-some k z1 z at) (claim z.pages z at)
  where
    claim :
        (o : Option ℕ) (z : Zone)
        → get_elem? k.zones z1 ≡ some z
        → Claimed z1 k (
            (elim o as (λ _. Cmd ℕ) [
              | none ↦ put_zone z1 (record z { pages = some p }) >> pure z1
              | some _ ↦ pure z1
            ])
              k)
    claim none z at = (
      set k.zones z1 (record z { pages = some p }),
      rw (put_zone-some k z1 z (record z { pages = some p }) at) refl,
      SameZones-set k.zones z1 z (some p) at room,
    )
    claim (some q) z at = (k.zones, refl, SameZones-refl k.zones)

claim_zone-claim_at :
    (addr z1 p : ℕ) (k : Kernel) (last : Zone)
    → get_elem? k.zones z1 ≡ some last
    → claim_zone addr z1 p k ≡ claim_at (if ltb last.end addr then u8 (z1 + 1) else z1) p k
unfolding claim_zone claim_at
claim_zone-claim_at addr z1 p k last at = rw (zone_at-some k z1 last at) refl

-- A zone is found for an entry: the one of the entry before or the one behind it.
pub claim_zone-Claimed :
    (addr z1 p : ℕ) (k : Kernel)
    → suc z1 < length k.zones
    → z1 < 255
    → (z1' : ℕ) × (z1' ≤ suc z1) × Claimed z1' k (claim_zone addr z1 p k)
claim_zone-Claimed addr z1 p k room small =
    let (last, at) = get_elem?-some k.zones z1 (omega arith) in
    let (z1', le, c) = chosen (ltb last.end addr) in
    (z1', le, subst (Claimed z1' k) (sym (claim_zone-claim_at addr z1 p k last at)) c)
  where
    chosen :
        (b : Bool)
        → (z1' : ℕ) × (z1' ≤ suc z1) × Claimed z1' k (claim_at (if b then u8 (z1 + 1) else z1) p k)
    chosen true =
        let next : u8 (z1 + 1) ≡ suc z1 = omega arith in
        (suc z1, omega arith, rw next (claim_at-Claimed (suc z1) p k room))
    chosen false = (z1, omega arith, claim_at-Claimed z1 p k (omega arith))
