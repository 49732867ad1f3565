-- ===== src/BootPaging/Range.antt =====
-- The loop of `map_address_range_pt` of src/entry/paging.cpp maps its range.
use kmd.Base.{
  ℕ, zero, suc, ◌+◌, ◌-◌, ◌*◌, ◌/◌, ◌%◌, ◌^◌, ◌≤◌, ◌<◌, ◌≡◌, ◌∙◌, sym, refl, subst, arith, inl, inr,
  some, Bool-cases, leb, leb→le,
}
use mathlib.Core.Option.{some_inj, none-ne-some}
use kmd.Base.Bits.{bit_and_low}
use kmd.Paging.Tree.{Node}
use kmd.BootPaging.{Boot, Walk, walk_step, Walked, walked, walk_loop}
use kmd.BootPaging.Rounds.{measure, phase-room, IsWalk, Nearer, walk_step-Nearer}
use kmd.BootPaging.Ends.{walk_loop-suc, walk_loop-done, first_walk}
use kmd.BootPaging.Tables.{IsBoot}
use kmd.BootPaging.Digits.{AreDigits}
use kmd.BootPaging.Way.{indices}
use kmd.BootPaging.Maps.{IsRange, Maps, walk_step-Stepped, page_at}

module _ (root dst src len : ℕ) (b0 : Boot) (range : IsRange dst src len)
    (fits : len + 2 ^ 12 < 2 ^ 64) where
  abbrev pub Mapped : Walk → Type 0
  Mapped = Maps root dst src len b0 range

  -- The loop ends with a page more than the length mapped, and has made at most a table in each round.
  abbrev pub Ranged : ℕ → Walked → Type 0
  Ranged bound r =
      (w : Walk) × (r ≡ walked w)
      × Mapped w
      × (w.cl ≡ (len / 2 ^ 12 + 1) * 2 ^ 12)
      × (w.boot.tmp_pt ≤ bound)

  -- A round comes closer to the end, and the state behind it maps the pages before its counter.
  next_round :
      (w : Walk)
      → Mapped w
      → IsWalk 1 len w
      → w.cl ≤ len
      → w.boot.tmp_pt + 2 ^ 13 ≤ 2 ^ 64
      → (w' : Walk) × (walk_step src 1 w ≡ some w')
        × Mapped w'
        × IsWalk 1 len w'
        × (measure 1 len w' < measure 1 len w)
        × (w'.boot.tmp_pt ≤ w.boot.tmp_pt + 2 ^ 12)
  next_round w is walk more room =
      let (w', run, is', grown) = walk_step-Stepped root dst src len b0 range w is more room in
      nearer w' run is' grown (walk_step-Nearer 1 len (omega arith) w walk src more fits)
    where
      nearer :
          (w' : Walk)
          → walk_step src 1 w ≡ some w'
          → Mapped w'
          → w'.boot.tmp_pt ≤ w.boot.tmp_pt + 2 ^ 12
          → Nearer 1 len w (walk_step src 1 w)
          → (w' : Walk) × (walk_step src 1 w ≡ some w')
            × Mapped w'
            × IsWalk 1 len w'
            × (measure 1 len w' < measure 1 len w)
            × (w'.boot.tmp_pt ≤ w.boot.tmp_pt + 2 ^ 12)
      nearer w' run is' grown (inl nothing) = absurd (none-ne-some w' (sym nothing ∙ run))
      nearer w' run is' grown (inr (w1, run1, walk1, less)) =
          let same : w1 ≡ w' = some_inj.0 (sym run1 ∙ run) in
          (
            w',
            run,
            is',
            subst (IsWalk 1 len) same walk1,
            subst (λ x. measure 1 len x < measure 1 len w) same less,
            grown,
          )

  walk_loop-Ranged :
      (fuel : ℕ) (w : Walk)
      → Mapped w
      → IsWalk 1 len w
      → measure 1 len w < fuel
      → w.boot.tmp_pt + 2 ^ 12 * (measure 1 len w + 2) ≤ 2 ^ 64
      → Ranged (w.boot.tmp_pt + 2 ^ 12 * measure 1 len w) (walk_loop fuel src len 1 w)
  walk_loop-Ranged zero w is walk enough room = absurd (omega arith)
  walk_loop-Ranged (suc fuel) w is walk enough room = elim (Bool-cases (leb w.cl len)) [
    | inl more ↦
        let le = leb→le w.cl len more in
        let (w', run, is', walk', less, grown) = next_round w is walk le (omega arith) in
        let (last, rest, mapped, cl, bound) =
          walk_loop-Ranged fuel w' is' walk' (omega arith) (omega arith) in
        (
          last,
          walk_loop-suc src 1 len (omega arith) fits fuel w le ∙ rw run rest,
          mapped,
          cl,
          omega arith,
        )
    | inr done ↦
        let lt : len < w.cl = ground arith in
        (
          w,
          walk_loop-done src 1 len (omega arith) fits fuel w lt,
          is,
          omega (arith, walk.aligned, walk.near),
          omega arith,
        )
  ]

  abbrev first_indices : ℕ → ℕ
  first_indices = indices (first_walk dst root b0)

  first_index : (j : ℕ) → first_indices j ≡ dst / 2 ^ ((j - 1) * 9 + 12) % 2 ^ 9
  first_index j = bit_and_low 9 (dst / 2 ^ ((j - 1) * 9 + 12))

  first-AreDigits : AreDigits 4 first_indices (page_at root dst src len b0 range 0)
  first-AreDigits = record {
    low = omega arith;
    high = omega arith;
    below = λ j lt. omega (arith, first_index j);
    here = omega (arith, first_index 4);
    above = λ j lt le. absurd (omega arith);
    sum = omega (arith, first_index 1, first_index 2, first_index 3, first_index 4);
  }

  first-Mapped : IsBoot root b0 → Mapped (first_walk dst root b0)
  unfolding Node
  first-Mapped boot = record {
    at = record {
      boot = boot;
      digits = first-AreDigits;
      in_hand = refl;
      tables = λ j lo hi c on.
          let top : 0 ≡ 4 - j = omega arith in subst (λ d. Node b0.memory root c d root) top refl;
    };
    aligned = refl;
    put = λ k lt. absurd (omega arith);
    kept = λ a v h. ((λ l. l), (λ l. l));
    root_kept = refl;
  }

  first-IsWalk : IsWalk 1 len (first_walk dst root b0)
  first-IsWalk = record {
    low = omega arith;
    high = omega arith;
    below = λ j lt. omega (arith, first_index j);
    aligned = refl;
    near = omega arith;
  }

  pub first-Ranged :
      (fuel : ℕ)
      → IsBoot root b0
      → 8 * (len / 2 ^ 12) + 16 ≤ fuel
      → b0.tmp_pt + 2 ^ 12 * (8 * (len / 2 ^ 12) + 18) ≤ 2 ^ 64
      → Ranged
          (b0.tmp_pt + 2 ^ 12 * (8 * (len / 2 ^ 12) + 16))
          (walk_loop fuel src len 1 (first_walk dst root b0))
  first-Ranged fuel boot enough room =
      let m = phase-room 1 4 (first_indices 4) (omega (arith, first_index 4)) in
      let (w, run, mapped, cl, bound) =
        walk_loop-Ranged fuel (first_walk dst root b0) (first-Mapped boot) first-IsWalk
          (omega (arith, m)) (omega (arith, m)) in
      (w, run, mapped, cl, omega (arith, m, bound))
