-- ===== src/Zones/Spare/Runs.antt =====
-- A run of free pages, which `getFreePage` of src/mm/mm.cpp can return one after the other.
use kmd.Base.{
  ℕ, zero, suc, ◌+◌, ◌<◌, ◌≤◌, ◌≢◌, sym, ◌∙◌, List, [], ◌∷◌, length, arith, ◌⊎◌, inl, inr, ◌==◌,
  ==_iff, ==_false→ne, Bool-cases, if◌then◌else◌,
}
use kmd.Kernel.{Kernel}
use kmd.Zones.Spare.{IsSpare, NotIn, HasSpare}

unfoldable remove : ℕ → List ℕ → List ℕ
remove q [] = []
remove q (x ∷ l) = let rest = remove q l in if q == x then rest else x ∷ rest

length-remove : (q : ℕ) (l : List ℕ) → length (remove q l) ≤ length l
unfolding remove
length-remove q [] = omega arith
length-remove q (x ∷ l) = elim (Bool-cases (q == x)) [
  | inl same ↦ rw same (omega (arith, length-remove q l))
  | inr other ↦ rw other (omega (arith, length-remove q l))
]

-- A number is not in the list, or the list has fewer without it.
out_or_shorter : (q : ℕ) (l : List ℕ) → NotIn q l ⊎ (length (remove q l) < length l)
unfolding remove NotIn
out_or_shorter q [] = inl tt
out_or_shorter q (x ∷ l) = elim (Bool-cases (q == x)) [
  | inl same ↦ inr (rw same (omega (arith, length-remove q l)))
  | inr other ↦ elim (out_or_shorter q l) [
    | inl out ↦ inl (==_false→ne q x other, out)
    | inr shorter ↦ inr (rw other (omega (arith, shorter)))
  ]
]

NotIn-remove : (p q : ℕ) (l : List ℕ) → p ≢ q → NotIn p (remove q l) → NotIn p l
unfolding remove NotIn
NotIn-remove p q [] ne out = tt
NotIn-remove p q (x ∷ l) ne out = elim (Bool-cases (q == x)) [
  | inl same ↦ (λ e. ne (e ∙ sym ((==_iff q x).0 same)), NotIn-remove p q l ne (rw same at out))
  | inr other ↦ let (ne', out') = rw other at out in (ne', NotIn-remove p q l ne out')
]

-- Of `n` numbers in a row one is not in a shorter list.
one_out : (a n : ℕ) (l : List ℕ) → length l < n → (p : ℕ) × (a ≤ p) × (p < a + n) × NotIn p l
one_out a zero l h = absurd (omega arith)
one_out a (suc n) l h = elim (out_or_shorter (a + n) l) [
  | inl out ↦ (a + n, omega arith, omega arith, out)
  | inr shorter ↦
      let (p, lo, hi, out) = one_out a n (remove (a + n) l) (omega (arith, shorter)) in
      (p, lo, omega arith, NotIn-remove p (a + n) l (omega arith) out)
]

-- A run of `n` spare pages are `n` spare pages.
pub HasSpare-run :
    (k : Kernel) (a n : ℕ) → ((p : ℕ) → a ≤ p → p < a + n → IsSpare k p) → HasSpare k n
unfolding HasSpare
HasSpare-run k a n each l lt = let (p, lo, hi, out) = one_out a n l lt in (p, each p lo hi, out)
