-- ===== src/Zones/Unchanged.antt =====
-- The searches of the zones in src/mm/mm.cpp depend on the zones alone.
use kmd.Base.{
  ℕ, zero, suc, ◌+◌, ◌≡◌, sym, subst, Bool, true, false, Option, none, some, List, get_elem?,
  if◌then◌else◌, sub64, ◌>>>◌,
}
use kmd.Kernel.{Zone, Kernel, Run, ok, fault}
use kmd.Zones.{in_zone, page_in, get_page_loop, get_page}
use kmd.Zones.FreePage.{CanScan}

-- A run that returned from one state returns the same from another.
abbrev SameResult : Kernel → Kernel → Option ℕ → Run (Option ℕ) → Run (Option ℕ) → Type 0
SameResult k k' r run run' = run ≡ ok r k → run' ≡ ok r k'

module _ (k k' : Kernel) (r : Option ℕ) where
  fault-SameResult : SameResult k k' r fault fault
  fault-SameResult e = cc

  page_in-SameResult :
      (z : Zone) (offset : ℕ) → SameResult k k' r (page_in z offset k) (page_in z offset k')
  unfolding page_in
  page_in-SameResult z offset =
      elim z.pages
        as (λ o.
          SameResult k k' r
            (elim o as (λ _. Run (Option ℕ)) [ none ↦ fault | some p ↦ ok (some (p + offset)) k ])
            (elim o as (λ _. Run (Option ℕ)) [
              | none ↦ fault
              | some p ↦ ok (some (p + offset)) k'
            ])) [ none ↦ λ e. cc | some p ↦ λ e. cc ]

  get_page_loop-SameResult :
      (left i base : ℕ)
      → k'.zones ≡ k.zones
      → SameResult k k' r (get_page_loop left i base k) (get_page_loop left i base k')
  unfolding get_page_loop
  get_page_loop-SameResult zero i base e = λ run. cc
  get_page_loop-SameResult (suc left) i base e =
      let rest = get_page_loop-SameResult left (i + 1) base e in
      subst
        (λ (zs : List Zone).
          SameResult k k' r (get_page_loop (suc left) i base k)
            (elim (get_elem? zs i) as (λ _. Run (Option ℕ)) [
              | none ↦ fault
              | some z ↦
                  if in_zone z base
                  then page_in z (sub64 base z.begin >>> 12) k'
                  else get_page_loop left (i + 1) base k'
            ]))
        (sym e)
        (elim (get_elem? k.zones i)
          as (λ o.
            SameResult k k' r
              (elim o as (λ _. Run (Option ℕ)) [
                | none ↦ fault
                | some z ↦
                    if in_zone z base
                    then page_in z (sub64 base z.begin >>> 12) k
                    else get_page_loop left (i + 1) base k
              ])
              (elim o as (λ _. Run (Option ℕ)) [
                | none ↦ fault
                | some z ↦
                    if in_zone z base
                    then page_in z (sub64 base z.begin >>> 12) k'
                    else get_page_loop left (i + 1) base k'
              ])) [ none ↦ fault-SameResult | some z ↦ inside z (in_zone z base) rest ])
    where
      inside :
          (z : Zone) (b : Bool)
          → SameResult k k' r
              (get_page_loop left (i + 1) base k)
              (get_page_loop left (i + 1) base k')
          → SameResult k k' r
              (if b
                then page_in z (sub64 base z.begin >>> 12) k
                else get_page_loop left (i + 1) base k)
              (if b
                then page_in z (sub64 base z.begin >>> 12) k'
                else get_page_loop left (i + 1) base k')
      inside z true rest = page_in-SameResult z (sub64 base z.begin >>> 12)
      inside z false rest = rest

  pub get_page-unchanged :
      (base : ℕ)
      → k'.zones ≡ k.zones
      → k'.zones_nr ≡ k.zones_nr
      → get_page base k ≡ ok r k
      → get_page base k' ≡ ok r k'
  unfolding get_page
  get_page-unchanged base e n run =
      subst (λ m. get_page_loop m 0 base k' ≡ ok r k') (sym n)
        (get_page_loop-SameResult k.zones_nr 0 base e run)

pub CanScan-unchanged :
    (k k' : Kernel) (fuel : ℕ)
    → k'.zones ≡ k.zones
    → k'.zones_nr ≡ k.zones_nr
    → CanScan k fuel
    → CanScan k' fuel
CanScan-unchanged k k' fuel e n can = record {
  in_array = rw (e, n) can.in_array;
  has_pages = λ i z at lt. can.has_pages i z (rw e at at) (rw n at lt);
  bounded = λ i z at lt. can.bounded i z (rw e at at) (rw n at lt);
}
