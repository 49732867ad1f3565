-- ===== src/ParseMmap/Merged.antt =====
-- The zones that `parseMmap` of src/mm/mm.cpp joins, against the joining of a list.
use kmd.Base.{
  ℕ, zero, suc, ◌+◌, ◌≤◌, ◌<◌, ◌≡◌, ◌∙◌, refl, ap, true, false, arith, some, List, [], ◌∷◌, length,
  get_elem?, set, get_elem?-some, get_elem?-set_self, get_elem?-set_ne, length-set, leb,
  if◌then◌else◌, Bool-cases, inl, inr, u8,
}
use mathlib.Core.Option.{none-ne-some}
use kmd.Kernel.{Zone, Kernel, ok}
use kmd.ParseMmap.{zone_at, put_zone, merge_step, merge_loop}

-- A zone takes over the end of the next one when that begins at or before its end.
unfoldable pub join : Zone → List Zone → List Zone
join last [] = last ∷ []
join last (z ∷ zs) =
    let longer : Zone = record last { end = z.end } in
    let joined = join longer zs in
    let apart = join z zs in if leb z.begin last.end then joined else last ∷ apart

-- The array has the elements of `l` from `i` on.
abbrev pub Holds : List Zone → ℕ → List Zone → Type 0
Holds zs i l = (j : ℕ) (z : Zone) → get_elem? l j ≡ some z → get_elem? zs (i + j) ≡ some z

pub record Joined (z1 : ℕ) (l zs zs' : List Zone) : Type 0 where
  pub same_length : length zs' ≡ length zs
  pub stands : Holds zs' z1 l
  pub kept : (j : ℕ) → j < z1 → get_elem? zs' j ≡ get_elem? zs j

get_elem?-lt : (zs : List Zone) (i : ℕ) (z : Zone) → get_elem? zs i ≡ some z → i < length zs
get_elem?-lt [] i z e = absurd (none-ne-some z e)
get_elem?-lt (y ∷ zs) zero z e = omega arith
get_elem?-lt (y ∷ zs) (suc i) z e = omega (arith, get_elem?-lt zs i z e)

pub zone_at-some :
    (k : Kernel) (i : ℕ) (z : Zone) → get_elem? k.zones i ≡ some z → zone_at i k ≡ ok z k
unfolding zone_at
zone_at-some k i z e = ground arith

pub put_zone-some :
    (k : Kernel) (i : ℕ) (y z : Zone)
    → get_elem? k.zones i ≡ some y
    → put_zone i z k ≡ ok tt (record k { zones = set k.zones i z })
unfolding put_zone
put_zone-some k i y z e = ground arith

module _ (k : Kernel) (z1 i : ℕ) (last z : Zone) where
  merge_step-joined :
      get_elem? k.zones z1 ≡ some last
      → get_elem? k.zones i ≡ some z
      → leb z.begin last.end ≡ true
      → merge_step z1 i k
        ≡ ok z1 (record k { zones = set k.zones z1 (record last { end = z.end }) })
  unfolding merge_step
  merge_step-joined a b t =
      let last' : Zone = record last { end = z.end } in
      rw (zone_at-some k z1 last a, zone_at-some k i z b, t, put_zone-some k z1 last last' a) refl

  merge_step-apart :
      (y : Zone)
      → get_elem? k.zones z1 ≡ some last
      → get_elem? k.zones i ≡ some z
      → leb z.begin last.end ≡ false
      → get_elem? k.zones (z1 + 1) ≡ some y
      → z1 + 1 < 256
      → merge_step z1 i k ≡ ok (z1 + 1) (record k { zones = set k.zones (z1 + 1) z })
  unfolding merge_step
  merge_step-apart y a b t c h =
      let next : u8 (z1 + 1) ≡ z1 + 1 = omega arith in
      rw (zone_at-some k z1 last a, zone_at-some k i z b, t, next, put_zone-some k (z1 + 1) y z c)
        refl

-- What is not touched by a write below it is still in the array.
Holds-set :
    (zs : List Zone) (i j : ℕ) (z : Zone) (l : List Zone)
    → Holds zs i l
    → j < i
    → Holds (set zs j z) i l
Holds-set zs i j z l h lt n y e =
    get_elem?-set_ne zs j (i + n) z (λ same. absurd (omega arith)) ∙ h n y e

Holds-tail :
    (zs : List Zone) (i : ℕ) (z : Zone) (l : List Zone) → Holds zs i (z ∷ l) → Holds zs (i + 1) l
Holds-tail zs i z l h n y e =
    let there : i + 1 + n ≡ i + suc n = omega arith in ap (get_elem? zs) there ∙ h (suc n) y e

Holds-head :
    (zs : List Zone) (i : ℕ) (z : Zone) (l : List Zone)
    → Holds zs i (z ∷ l)
    → get_elem? zs i ≡ some z
Holds-head zs i z l h = let here : i ≡ i + 0 = omega arith in ap (get_elem? zs) here ∙ h 0 z refl

Holds-cons :
    (zs : List Zone) (i : ℕ) (z : Zone) (l : List Zone)
    → get_elem? zs i ≡ some z
    → Holds zs (i + 1) l
    → Holds zs i (z ∷ l)
Holds-cons zs i z l a h zero y e =
    let here : i + 0 ≡ i = omega arith in ap (get_elem? zs) here ∙ a ∙ e
Holds-cons zs i z l a h (suc n) y e =
    let there : i + suc n ≡ i + 1 + n = omega arith in ap (get_elem? zs) there ∙ h n y e

-- What the loop is to do with the zones from `i` on: it ends, the last zone that it made stands at
-- the index that it returns, and those before are as `join` says.
abbrev Joins : List Zone → Zone → ℕ → ℕ → Kernel → Type 0
Joins pending last z1 i k =
    (n : ℕ) × (zs : List Zone) × (length (join last pending) ≡ suc n)
    × (merge_loop (length pending) z1 i k ≡ ok (z1 + n) (record k { zones = zs }))
    × Joined z1 (join last pending) k.zones zs

Joins-none :
    (last : Zone) (z1 i : ℕ) (k : Kernel) → get_elem? k.zones z1 ≡ some last → Joins [] last z1 i k
unfolding join merge_loop
Joins-none last z1 i k a =
    let here : z1 ≡ z1 + 0 = omega arith in
    (
      0,
      k.zones,
      refl,
      ap (λ z. ok z k) here,
      record {
        same_length = refl;
        stands = Holds-cons k.zones z1 last [] a (λ n y e. absurd (none-ne-some y e));
        kept = λ j h. refl;
      },
    )

module _ (k : Kernel) (z1 i : ℕ) (last z : Zone) (pending : List Zone) where
  abbrev longer : Zone
  longer = record last { end = z.end }

  abbrev with_zones : List Zone → Kernel
  with_zones zs = record k { zones = zs }

  Joins-joined :
      get_elem? k.zones z1 ≡ some last
      → get_elem? k.zones i ≡ some z
      → leb z.begin last.end ≡ true
      → Joins pending longer z1 (i + 1) (with_zones (set k.zones z1 longer))
      → Joins (z ∷ pending) last z1 i k
  unfolding join merge_loop
  Joins-joined a b t (n, zs, len, run, joined) =
      let step = merge_step-joined k z1 i last z a b t in
      (
        n,
        zs,
        rw t len,
        rw step run,
        rw t (record {
          same_length = joined.same_length ∙ length-set k.zones z1 longer;
          stands = joined.stands;
          kept = λ j h.
              joined.kept j h ∙ get_elem?-set_ne k.zones z1 j longer (λ same. absurd (omega arith));
        }),
      )

  Joins-apart :
      (y : Zone)
      → get_elem? k.zones z1 ≡ some last
      → get_elem? k.zones i ≡ some z
      → leb z.begin last.end ≡ false
      → get_elem? k.zones (z1 + 1) ≡ some y
      → z1 + 1 < 256
      → Joins pending z (z1 + 1) (i + 1) (with_zones (set k.zones (z1 + 1) z))
      → Joins (z ∷ pending) last z1 i k
  unfolding join merge_loop
  Joins-apart y a b t c h (n, zs, len, run, joined) =
      let step = merge_step-apart k z1 i last z y a b t c h in
      let index : z1 + 1 + n ≡ z1 + suc n = omega arith in
      let kept' : (j : ℕ) → j < z1 + 1 → get_elem? zs j ≡ get_elem? k.zones j = λ j h'.
        joined.kept j h' ∙ get_elem?-set_ne k.zones (z1 + 1) j z (λ same. absurd (omega arith)) in
      (
        suc n,
        zs,
        rw t (ap suc len),
        rw step (run ∙ ap (λ m. ok m (with_zones zs)) index),
        rw t (record {
          same_length = joined.same_length ∙ length-set k.zones (z1 + 1) z;
          stands =
              Holds-cons zs z1 last (join z pending) (kept' z1 (omega arith) ∙ a) joined.stands;
          kept = λ j h'. kept' j (omega arith);
        }),
      )

merge_loop-Joins :
    (pending : List Zone) (last : Zone) (z1 i : ℕ) (k : Kernel)
    → get_elem? k.zones z1 ≡ some last
    → Holds k.zones i pending
    → z1 < i
    → i + length pending ≤ 255
    → Joins pending last z1 i k
merge_loop-Joins [] last z1 i k a h lt bound = Joins-none last z1 i k a
merge_loop-Joins (z ∷ pending) last z1 i k a h lt bound =
    let b = Holds-head k.zones i z pending h in
    let rest = Holds-tail k.zones i z pending h in
    let inside = get_elem?-lt k.zones i z b in
    elim (Bool-cases (leb z.begin last.end)) [
      | inl near ↦
          let longer : Zone = record last { end = z.end } in
          Joins-joined k z1 i last z pending a b near (
            merge_loop-Joins pending longer z1 (i + 1) (record k { zones = set k.zones z1 longer })
              (get_elem?-set_self k.zones z1 longer (omega arith))
              (Holds-set k.zones (i + 1) z1 longer pending rest (omega arith)) (omega arith)
              (omega arith))
      | inr far ↦
          let (y, c) = get_elem?-some k.zones (z1 + 1) (omega arith) in
          Joins-apart k z1 i last z pending y a b far c (omega arith) (
            merge_loop-Joins pending z (z1 + 1) (i + 1)
              (record k { zones = set k.zones (z1 + 1) z })
              (get_elem?-set_self k.zones (z1 + 1) z (omega arith))
              (Holds-set k.zones (i + 1) (z1 + 1) z pending rest (omega arith)) (omega arith)
              (omega arith))
    ]

-- When the array begins with the zones `first ∷ pending`, at most 255 of them, the loop that joins
-- them in place ends without a fault, changes nothing but the elements of the array, leaves the
-- zones of `join first pending` at its beginning, in order, and returns one less than their number.
pub merge_loop-join :
    (first : Zone) (pending : List Zone) (k : Kernel)
    → Holds k.zones 0 (first ∷ pending)
    → length pending < 255
    → (n : ℕ) × (zs : List Zone) × (length (join first pending) ≡ suc n)
      × (merge_loop (length pending) 0 1 k ≡ ok n (record k { zones = zs }))
      × (length zs ≡ length k.zones)
      × Holds zs 0 (join first pending)
merge_loop-join first pending k h bound =
    let (n, zs, len, run, joined) =
      merge_loop-Joins pending first 0 1 k (Holds-head k.zones 0 first pending h)
        (Holds-tail k.zones 0 first pending h) (omega arith) (omega arith) in
    let index : 0 + n ≡ n = omega arith in
    (
      n,
      zs,
      len,
      run ∙ ap (λ m. ok m (record k { zones = zs })) index,
      joined.same_length,
      joined.stands,
    )
