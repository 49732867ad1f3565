-- ===== src/BootPaging/Rounds.antt =====
-- The rounds of the loop of `map_address_range_pt` of src/entry/paging.cpp: each comes closer to the
-- end.
use kmd.Base.{
  ℕ, ◌+◌, ◌-◌, ◌*◌, ◌/◌, ◌%◌, ◌^◌, ◌≤◌, ◌<◌, ◌≡◌, ◌⊎◌, sym, ap, subst, ◌≢◌, ==_refl, inl, inr, refl,
  true, false, Option, none, some, Bool-cases, leb, leb→le, le→leb, ◌==◌, ==_iff, ==_false→ne,
  ne→==, if◌then◌else◌, arith,
}
use kmd.BootPaging.{Level, Walk, set_level, go_up, go_down, put_entry, walk_step}

-- How many rounds go up and down before the next entry of the last level is written.
abbrev pub phase : ℕ → ℕ → ℕ → ℕ
phase last_level ll i = if leb 512 i then 8 - ll else ll - last_level

abbrev pub phase_of : ℕ → Walk → ℕ
phase_of last_level w = phase last_level w.ll (w.l w.ll).i

-- A bound on the rounds that are left.
abbrev pub measure : ℕ → ℕ → Walk → ℕ
measure last_level len w = 8 * ((len + 2 ^ 12 - w.cl) / 2 ^ 12) + phase_of last_level w

-- The tables below the one in hand are not used up.
pub record IsWalk (last_level len : ℕ) (w : Walk) : Type 0 where
  pub low : last_level ≤ w.ll
  pub high : w.ll ≤ 4
  pub below : (j : ℕ) → j < w.ll → (w.l j).i < 512
  pub aligned : w.cl % 2 ^ 12 ≡ 0
  pub near : w.cl ≤ len + 2 ^ 12

phase-le : (last_level ll i : ℕ) → 1 ≤ last_level → ll ≤ 4 → phase last_level ll i ≤ 8 - ll
phase-le last_level ll i h p = ground arith

-- A round that comes closer to the end.
abbrev pub Nearer : ℕ → ℕ → Walk → Option Walk → Type 0
Nearer last_level len w o =
    (o ≡ none)
    ⊎ ((w' : Walk) × (o ≡ some w')
        × IsWalk last_level len w'
        × (measure last_level len w' < measure last_level len w))

phase-full : (last_level ll i : ℕ) → 512 ≤ i → phase last_level ll i ≡ 8 - ll
phase-full last_level ll i h = rw (le→leb 512 i h) refl

pub phase-room : (last_level ll i : ℕ) → i < 512 → phase last_level ll i ≡ ll - last_level
phase-room last_level ll i h = ground arith

set_level-ne : (l : ℕ → Level) (ll j : ℕ) (v : Level) → j ≢ ll → set_level l ll v j ≡ l j
set_level-ne l ll j v h = rw (ne→== j ll h) refl

-- A walk whose indices below its level are those of another.
IsWalk-up :
    (last_level len : ℕ) (w w' : Walk)
    → IsWalk last_level len w
    → w.ll < 4
    → w'.ll ≡ w.ll + 1
    → w'.cl ≡ w.cl
    → ((j : ℕ) → j < w.ll → w'.l j ≡ w.l j)
    → (w'.l w.ll).i ≡ 0
    → IsWalk last_level len w'
IsWalk-up last_level len w w' is top ll cl same empty = record {
  low = omega (arith, is.low);
  high = omega arith;
  below = below';
  aligned = rw cl is.aligned;
  near = rw cl is.near;
}
  where
    below' : (j : ℕ) → j < w'.ll → (w'.l j).i < 512
    below' j h = elim (Bool-cases (j == w.ll)) [
      | inl yes' ↦ rw ((==_iff j w.ll).0 yes', empty) (omega arith)
      | inr no' ↦
          let lt : j < w.ll = omega (arith, ==_false→ne j w.ll no') in
          rw (same j lt) (is.below j lt)
    ]

module _ (last_level len : ℕ) (first : 1 ≤ last_level) (w : Walk)
    (is : IsWalk last_level len w) where
  go_up-Nearer : 512 ≤ (w.l w.ll).i → Nearer last_level len w (go_up w)
  unfolding go_up
  go_up-Nearer full = elim (Bool-cases (leb (w.ll + 1) 4)) [
    | inl inside ↦
        let l = set_level w.l w.ll (record { i = 0; self = (w.l w.ll).self }) in
        let w' : Walk = record w { l = l; ll = w.ll + 1; self = (l (w.ll + 1)).self } in
        let top : w.ll + 1 ≤ 4 = leb→le (w.ll + 1) 4 inside in
        let is' : IsWalk last_level len w' =
          IsWalk-up last_level len w w' is (omega arith) refl refl
            (λ j h. set_level-ne w.l w.ll j _ (λ e. absurd (omega arith)))
            (rw (==_refl w.ll) refl) in
        inr (
          w',
          rw inside refl,
          is',
          omega (
            arith,
            phase-full last_level w.ll (w.l w.ll).i full,
            phase-le last_level (w.ll + 1) (l (w.ll + 1)).i first top,
          ),
        )
    | inr outside ↦ inl (rw outside refl)
  ]

  go_down-ll : (go_down w).ll ≡ w.ll - 1
  unfolding go_down
  go_down-ll = refl

  go_down-cl : (go_down w).cl ≡ w.cl
  unfolding go_down
  go_down-cl = refl

  go_down-below : (j : ℕ) → j < w.ll → ((go_down w).l j).i ≡ (w.l j).i
  unfolding go_down
  go_down-below j h = elim (Bool-cases (j == w.ll - 1)) [
    | inl yes' ↦
        let at : j ≡ w.ll - 1 = (==_iff j (w.ll - 1)).0 yes' in
        rw (yes', ne→== (w.ll - 1) w.ll (λ e. absurd (omega arith))) (ap (λ n. (w.l n).i) (sym at))
    | inr no' ↦ rw (no', ne→== j w.ll (λ e. absurd (omega arith))) refl
  ]

  go_down-Nearer :
      (w.l w.ll).i < 512 → last_level < w.ll → Nearer last_level len w (some (go_down w))
  go_down-Nearer room lt =
      let w' = go_down w in
      let low' : w.ll - 1 < w.ll = omega arith in
      let index : (w'.l w'.ll).i < 512 =
        rw (go_down-ll, go_down-below (w.ll - 1) low') (is.below (w.ll - 1) low') in
      inr (
        w',
        refl,
        record {
          low = omega (arith, go_down-ll);
          high = omega (arith, go_down-ll, is.high);
          below = λ j h.
              let lt' : j < w.ll = omega (arith, go_down-ll) in
              rw (go_down-below j lt') (is.below j lt');
          aligned = rw go_down-cl is.aligned;
          near = rw go_down-cl is.near;
        },
        omega (
          arith,
          phase-room last_level w.ll (w.l w.ll).i room,
          go_down-ll,
          go_down-cl,
          phase-room last_level w'.ll (w'.l w'.ll).i index,
        ),
      )

  put_entry-Nearer :
      (src : ℕ)
      → w.cl ≤ len
      → len + 2 ^ 12 < 2 ^ 64
      → Nearer last_level len w (some (put_entry src w))
  unfolding put_entry
  put_entry-Nearer src more fits =
      let w' = put_entry src w in
      let cl' : w'.cl ≡ w.cl + 2 ^ 12 = omega arith in
      inr (
        w',
        refl,
        record {
          low = is.low;
          high = is.high;
          below = λ j h. rw (set_level-ne w.l w.ll j _ (λ e. absurd (omega arith))) (is.below j h);
          aligned = omega (arith, is.aligned, cl');
          near = omega (arith, cl');
        },
        omega (arith, cl', is.low, is.high, phase-le last_level w'.ll (w'.l w'.ll).i first is.high),
      )

  step-full : (src : ℕ) → leb 512 (w.l w.ll).i ≡ true → go_up w ≡ walk_step src last_level w
  unfolding walk_step
  step-full src full = rw full refl

  step-last :
      (src : ℕ)
      → leb 512 (w.l w.ll).i ≡ false
      → (w.ll == last_level) ≡ true
      → some (put_entry src w) ≡ walk_step src last_level w
  unfolding walk_step
  step-last src room last = rw (room, last) refl

  step-inner :
      (src : ℕ)
      → leb 512 (w.l w.ll).i ≡ false
      → (w.ll == last_level) ≡ false
      → some (go_down w) ≡ walk_step src last_level w
  unfolding walk_step
  step-inner src room inner = rw (room, inner) refl

  pub walk_step-Nearer :
      (src : ℕ)
      → w.cl ≤ len
      → len + 2 ^ 12 < 2 ^ 64
      → Nearer last_level len w (walk_step src last_level w)
  walk_step-Nearer src more fits = elim (Bool-cases (leb 512 (w.l w.ll).i)) [
    | inl full ↦
        subst (Nearer last_level len w) (step-full src full)
          (go_up-Nearer (leb→le 512 (w.l w.ll).i full))
    | inr room ↦ elim (Bool-cases (w.ll == last_level)) [
      | inl last ↦
          subst (Nearer last_level len w) (step-last src room last) (put_entry-Nearer src more fits)
      | inr inner ↦
          let lt : last_level < w.ll = omega (arith, is.low, ==_false→ne w.ll last_level inner) in
          let index : (w.l w.ll).i < 512 = ground arith in
          subst (Nearer last_level len w) (step-inner src room inner) (go_down-Nearer index lt)
    ]
  ]
