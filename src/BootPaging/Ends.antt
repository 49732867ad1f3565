-- ===== src/BootPaging/Ends.antt =====
-- The loop of `map_address_range_pt` of src/entry/paging.cpp ends.
use kmd.Base.{
  ℕ, zero, suc, ◌+◌, ◌-◌, ◌*◌, ◌/◌, ◌^◌, ◌≤◌, ◌<◌, ◌≡◌, ◌⊎◌, ◌∙◌, inl, inr, refl, false, none, some,
  Bool-cases, leb, leb→le, le→leb, arith, ◌>>>◌,
}
use kmd.Base.Bits.{bit_and_low}
use kmd.BootPaging.{Boot, Walk, Walked, walked, beyond, walk_step, walk_loop, first_level}
use kmd.BootPaging.Rounds.{measure, IsWalk, phase-room, Nearer, walk_step-Nearer}

-- How the loop can end: beyond the array, or behind the first page after `len`.
abbrev Ends : ℕ → Walked → Type 0
Ends len r = (r ≡ beyond) ⊎ ((w : Walk) × (r ≡ walked w) × (w.cl ≡ (len / 2 ^ 12 + 1) * 2 ^ 12))

module _ (src last_level len : ℕ) (first : 1 ≤ last_level) (fits : len + 2 ^ 12 < 2 ^ 64) where
  pub walk_loop-suc :
      (fuel : ℕ) (w : Walk)
      → w.cl ≤ len
      → walk_loop (suc fuel) src len last_level w
        ≡ elim (walk_step src last_level w) as (λ _. Walked) [
          | none ↦ beyond
          | some w' ↦ walk_loop fuel src len last_level w'
        ]
  unfolding walk_loop
  walk_loop-suc fuel w h = rw (le→leb w.cl len h) refl

  pub walk_loop-done :
      (fuel : ℕ) (w : Walk) → len < w.cl → walk_loop (suc fuel) src len last_level w ≡ walked w
  unfolding walk_loop
  walk_loop-done fuel w h = let more : leb w.cl len ≡ false = ground arith in rw more refl

  walk_loop-next :
      (fuel : ℕ) (w : Walk)
      → w.cl ≤ len
      → Nearer last_level len w (walk_step src last_level w)
      → ((w' : Walk)
          → IsWalk last_level len w'
          → measure last_level len w' < measure last_level len w
          → Ends len (walk_loop fuel src len last_level w'))
      → Ends len (walk_loop (suc fuel) src len last_level w)
  walk_loop-next fuel w le (inl none') rest = inl (walk_loop-suc fuel w le ∙ rw none' refl)
  walk_loop-next fuel w le (inr (w', some', is', lt)) rest =
      let step : walk_loop (suc fuel) src len last_level w ≡ walk_loop fuel src len last_level w' =
        walk_loop-suc fuel w le ∙ rw some' refl in
      rw step (rest w' is' lt)

  walk_loop-Ends :
      (fuel : ℕ) (w : Walk)
      → IsWalk last_level len w
      → measure last_level len w < fuel
      → Ends len (walk_loop fuel src len last_level w)
  walk_loop-Ends zero w is h = absurd (omega arith)
  walk_loop-Ends (suc fuel) w is h = elim (Bool-cases (leb w.cl len)) [
    | inl more ↦
        let le = leb→le w.cl len more in
        walk_loop-next fuel w le (walk_step-Nearer last_level len first w is src le fits)
          (λ w' is' lt. walk_loop-Ends fuel w' is' (omega arith))
    | inr done ↦
        let lt : len < w.cl = ground arith in
        inr (w, walk_loop-done fuel w lt, omega (arith, is.aligned, is.near))
  ]

-- The walk that `map_address_range_pt` begins with.
abbrev pub first_walk : ℕ → ℕ → Boot → Walk
first_walk dst self b = record { boot = b; cl = 0; self = self; ll = 4; l = first_level dst self }

-- At a level from 1 to 4 and a length that is not within a page of the end of the numbers, the loop
-- ends within 8 rounds for each page of the length and 16 more: it runs beyond the array of levels, or
-- it has counted one page more than the whole pages of the length.
pub walk_loop-ends :
    (fuel src dst self len last_level : ℕ) (b : Boot)
    → 1 ≤ last_level
    → last_level ≤ 4
    → len + 2 ^ 12 < 2 ^ 64
    → 8 * (len / 2 ^ 12) + 16 ≤ fuel
    → (walk_loop fuel src len last_level (first_walk dst self b) ≡ beyond)
      ⊎ ((w : Walk) × (walk_loop fuel src len last_level (first_walk dst self b) ≡ walked w)
          × (w.cl ≡ (len / 2 ^ 12 + 1) * 2 ^ 12))
walk_loop-ends fuel src dst self len last_level b first high fits enough =
    let w = first_walk dst self b in
    let index : (j : ℕ) → (w.l j).i < 512 =
      λ j. omega (arith, bit_and_low 9 (dst >>> ((j - 1) * 9 + 12))) in
    walk_loop-Ends src last_level len first fits fuel w
      (record {
        low = high;
        high = omega arith;
        below = λ j h. index j;
        aligned = refl;
        near = omega arith;
      })
      (omega (arith, phase-room last_level 4 (w.l 4).i (index 4)))
