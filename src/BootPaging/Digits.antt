-- ===== src/BootPaging/Digits.antt =====
-- The indices that the walk of `map_address_range_pt` of src/entry/paging.cpp keeps, as the digits of
-- the number of the page that it is at.
use kmd.Base.{
  ℕ, zero, suc, refl, ◌∙◌, ◌⊎◌, ap, Bool-cases, inl, inr, ==_iff, ==_false→ne, ltb→lt, ltb_false→le,
  ◌+◌, ◌-◌, ◌*◌, ◌^◌, ◌≤◌, ◌<◌, ◌≡◌, ◌≢◌, arith, ltb, lt→ltb, le→ltb_false, if◌then◌else◌, ◌==◌,
}
use kmd.Paging.Tree.{index}
use kmd.Paging.Tree.Walk.{page_number, index-eq}

-- The indices above the level in hand are one ahead.
abbrev pub digit : ℕ → (ℕ → ℕ) → ℕ → ℕ
digit ll i j = if ltb ll j then i j - 1 else i j

abbrev pub number : ℕ → (ℕ → ℕ) → ℕ
number ll i = digit ll i 1 + 2 ^ 9 * digit ll i 2 + 2 ^ 18 * digit ll i 3 + 2 ^ 27 * digit ll i 4

pub record AreDigits (ll : ℕ) (i : ℕ → ℕ) (page : ℕ) : Type 0 where
  pub low : 1 ≤ ll
  pub high : ll ≤ 4
  pub below : (j : ℕ) → j < ll → i j < 512
  pub here : i ll ≤ 512
  pub above : (j : ℕ) → ll < j → j ≤ 4 → (1 ≤ i j) × (i j ≤ 512)
  pub sum : number ll i ≡ page

abbrev set_digit : (ℕ → ℕ) → ℕ → ℕ → ℕ → ℕ
set_digit i ll v j = if j == ll then v else i j

pub digit-above : (ll : ℕ) (i : ℕ → ℕ) (j : ℕ) → ll < j → digit ll i j ≡ i j - 1
digit-above ll i j lt = rw (lt→ltb ll j lt) refl

pub digit-below : (ll : ℕ) (i : ℕ → ℕ) (j : ℕ) → j ≤ ll → digit ll i j ≡ i j
digit-below ll i j le = rw (le→ltb_false ll j le) refl

-- A digit that neither its index nor its side of the level changes.
digit-same :
    (ll ll' : ℕ) (i i' : ℕ → ℕ) (j : ℕ)
    → ltb ll j ≡ ltb ll' j
    → i' j ≡ i j
    → digit ll' i' j ≡ digit ll i j
digit-same ll ll' i i' j side at = rw (← side, at) refl

number-congr :
    (ll ll' : ℕ) (i i' : ℕ → ℕ)
    → ((j : ℕ) → 1 ≤ j → j ≤ 4 → digit ll' i' j ≡ digit ll i j)
    → number ll' i' ≡ number ll i
number-congr ll ll' i i' same = omega (
  arith,
  same 1 (omega arith) (omega arith),
  same 2 (omega arith) (omega arith),
  same 3 (omega arith) (omega arith),
  same 4 (omega arith) (omega arith),
)

equal_or_not : (j ll : ℕ) → (j ≡ ll) ⊎ (j ≢ ll)
equal_or_not j ll = elim (Bool-cases (j == ll)) [
  | inl same ↦ inl ((==_iff j ll).0 same)
  | inr other ↦ inr (==_false→ne j ll other)
]

-- A full table leaves the number as it is: one less in its place is one more above.
number-up :
    (ll : ℕ) (i i' : ℕ → ℕ)
    → 1 ≤ ll
    → ll < 4
    → i ll ≡ 512
    → 1 ≤ i (ll + 1)
    → i' ll ≡ 0
    → ((j : ℕ) → j ≢ ll → i' j ≡ i j)
    → number (ll + 1) i' ≡ number ll i
number-up zero i i' lo hi full one at others = absurd (omega arith)
number-up (suc zero) i i' lo hi full one at others = omega (
  arith,
  others 2 (λ e. absurd (omega arith)),
  others 3 (λ e. absurd (omega arith)),
  others 4 (λ e. absurd (omega arith)),
)
number-up (suc (suc zero)) i i' lo hi full one at others = omega (
  arith,
  others 1 (λ e. absurd (omega arith)),
  others 3 (λ e. absurd (omega arith)),
  others 4 (λ e. absurd (omega arith)),
)
number-up (suc (suc (suc zero))) i i' lo hi full one at others = omega (
  arith,
  others 1 (λ e. absurd (omega arith)),
  others 2 (λ e. absurd (omega arith)),
  others 4 (λ e. absurd (omega arith)),
)
number-up (suc (suc (suc (suc ll)))) i i' lo hi full one at others = absurd (omega arith)

module _ (ll : ℕ) (i : ℕ → ℕ) (page : ℕ) (is : AreDigits ll i page) where
  digit-lt : (j : ℕ) → i ll < 512 → 1 ≤ j → j ≤ 4 → digit ll i j < 512
  digit-lt j room lo hi = elim (Bool-cases (ltb ll j)) [
    | inl up ↦ omega (arith, digit-above ll i j (ltb→lt ll j up), is.above j (ltb→lt ll j up) hi)
    | inr down ↦
        let le = ltb_false→le ll j down in
        elim (Bool-cases (j == ll)) [
          | inl same ↦ omega (arith, digit-below ll i j le, ap i ((==_iff j ll).0 same))
          | inr other ↦
              omega
                (arith, digit-below ll i j le, is.below j (omega (arith, ==_false→ne j ll other)))
        ]
  ]

  -- The indices of an address of the page are the digits.
  pub index-digit :
      (a d : ℕ) → page_number a ≡ page → i ll < 512 → d ≤ 3 → index a d ≡ digit ll i (4 - d)
  index-digit a d eq room le = at d le
    where
      parts :
          (digit ll i 1 < 512) × (digit ll i 2 < 512) × (digit ll i 3 < 512) × (digit ll i 4 < 512)
      parts = (
        digit-lt 1 room (omega arith) (omega arith),
        digit-lt 2 room (omega arith) (omega arith),
        digit-lt 3 room (omega arith) (omega arith),
        digit-lt 4 room (omega arith) (omega arith),
      )

      at : (d : ℕ) → d ≤ 3 → index a d ≡ digit ll i (4 - d)
      at zero h = omega (arith, index-eq a 0, parts, is.sum, eq)
      at (suc zero) h = omega (arith, index-eq a 1, parts, is.sum, eq)
      at (suc (suc zero)) h = omega (arith, index-eq a 2, parts, is.sum, eq)
      at (suc (suc (suc zero))) h = omega (arith, index-eq a 3, parts, is.sum, eq)
      at (suc (suc (suc (suc d)))) h = absurd (omega arith)

  module _ (i' : ℕ → ℕ) where
    -- The three moves.
    pub AreDigits-down :
        1 < ll
        → i ll < 512
        → i' ll ≡ i ll + 1
        → ((j : ℕ) → j ≢ ll → i' j ≡ i j)
        → AreDigits (ll - 1) i' page
    AreDigits-down deep room at others = record {
      low = omega arith;
      high = omega (arith, is.high);
      below = λ j lt. omega (arith, others j (omega arith), is.below j (omega arith));
      here = omega (arith, others (ll - 1) (omega arith), is.below (ll - 1) (omega arith));
      above = λ j lt le. elim (equal_or_not j ll) [
        | inl same ↦ omega (arith, ap i' same, at)
        | inr other ↦ omega (arith, others j other, is.above j (omega arith) le)
      ];
      sum = number-congr ll (ll - 1) i i' same ∙ is.sum;
    }
      where
        same : (j : ℕ) → 1 ≤ j → j ≤ 4 → digit (ll - 1) i' j ≡ digit ll i j
        same j lo hi = elim (equal_or_not j ll) [
          | inl e ↦ omega (
            arith,
            digit-above (ll - 1) i' j (omega arith),
            digit-below ll i j (omega arith),
            ap i' e,
            ap i e,
            at,
          )
          | inr other ↦ digit-same ll (ll - 1) i i' j (side j other) (others j other)
        ]
          where
            side : (j : ℕ) → j ≢ ll → ltb ll j ≡ ltb (ll - 1) j
            side j other = ground arith

    pub AreDigits-up :
        i ll ≡ 512
        → page < 2 ^ 36
        → i' ll ≡ 0
        → ((j : ℕ) → j ≢ ll → i' j ≡ i j)
        → (ll < 4) × AreDigits (ll + 1) i' page
    AreDigits-up full bound at others = (
      top,
      record {
        low = omega arith;
        high = omega (arith, top);
        below = λ j lt. elim (equal_or_not j ll) [
          | inl same ↦ omega (arith, ap i' same, at)
          | inr other ↦ omega (arith, others j other, is.below j (omega arith))
        ];
        here = omega (
          arith,
          others (ll + 1) (λ e. absurd (omega arith)),
          is.above (ll + 1) (omega arith) (omega (arith, top)),
        );
        above = λ j lt le.
            omega (arith, others j (λ e. absurd (omega arith)), is.above j (omega arith) le);
        sum =
            number-up ll i i' is.low top full
              (is.above (ll + 1) (omega arith) (omega (arith, top))).0 at others
            ∙ is.sum;
      },
    )
      where
        top : ll < 4
        top = elim (equal_or_not ll 4) [
          | inl last ↦ absurd (omega (arith, digit-below ll i 4 (omega arith), ap i last, is.sum))
          | inr other ↦ omega (arith, other, is.high)
        ]

    pub AreDigits-next :
        ll ≡ 1
        → i 1 < 512
        → i' 1 ≡ i 1 + 1
        → ((j : ℕ) → j ≢ 1 → i' j ≡ i j)
        → AreDigits ll i' (suc page)
    AreDigits-next last room at others = record {
      low = is.low;
      high = is.high;
      below = λ j lt. omega (arith, others j (omega arith), is.below j lt);
      here = omega (arith, ap i' last, at);
      above = λ j lt le. omega (arith, others j (omega arith), is.above j lt le);
      sum = omega (
        arith,
        is.sum,
        at,
        digit-below ll i 1 (omega arith),
        digit-below ll i' 1 (omega arith),
        digit-same ll ll i i' 2 refl (others 2 (λ e. absurd (omega arith))),
        digit-same ll ll i i' 3 refl (others 3 (λ e. absurd (omega arith))),
        digit-same ll ll i i' 4 refl (others 4 (λ e. absurd (omega arith))),
      );
    }
