-- ===== src/BootPaging/Way.antt =====
-- The walk of `map_address_range_pt` of src/entry/paging.cpp in the tree of page maps.
use kmd.Base.{
  ℕ, suc, ◌+◌, ◌-◌, ◌*◌, ◌^◌, ◌≤◌, ◌<◌, ◌≡◌, ◌≢◌, ◌∙◌, ◌↔◌, inl, inr, sym, refl, ap, subst, some,
  Bool-cases, le→leb, ◌==◌, ==_refl, ==_iff, ==_false→ne, ne→==, arith, u64,
}
use kmd.Paging.Tree.{index, slot, Node, Leaf}
use kmd.Paging.Tree.Walk.{page_number}
use kmd.BootPaging.{Level, Walk, set_level, go_up, go_down, table_under}
use kmd.BootPaging.Tables.{IsBoot, Under, table_under-Under}
use kmd.BootPaging.Digits.{
  AreDigits, digit, digit-above, digit-below, index-digit, AreDigits-down, AreDigits-up,
}

abbrev pub indices : Walk → ℕ → ℕ
indices w j = (w.l j).i

-- The way that the indices above level `j` name.
abbrev pub OnWay : Walk → ℕ → ℕ → Type 0
OnWay w j c = (d : ℕ) → d < 4 - j → suc (index c d) ≡ (w.l (4 - d)).i

-- The tables in hand are those on the way to the page whose number the indices are.
pub record IsAt (root page : ℕ) (w : Walk) : Type 0 where
  pub boot : IsBoot root w.boot
  pub digits : AreDigits w.ll (indices w) page
  pub in_hand : w.self ≡ (w.l w.ll).self
  pub tables :
      (j : ℕ)
      → w.ll ≤ j
      → j ≤ 4
      → (c : ℕ) → OnWay w j c
      → Node w.boot.memory root c (4 - j) (w.l j).self

set_level-at : (l : ℕ → Level) (ll : ℕ) (v : Level) → set_level l ll v ll ≡ v
set_level-at l ll v = rw (==_refl ll) refl

set_level-off : (l : ℕ → Level) (ll j : ℕ) (v : Level) → j ≢ ll → set_level l ll v j ≡ l j
set_level-off l ll j v h = rw (ne→== j ll h) refl

module _ (root page : ℕ) (w : Walk) (is : IsAt root page w) where
  -- An address of the page is on the way.
  here-OnWay : (a : ℕ) → page_number a ≡ page → (w.l w.ll).i < 512 → OnWay w w.ll a
  here-OnWay a eq room d lt = omega (
    arith,
    index-digit w.ll (indices w) page is.digits a d eq room (omega arith),
    digit-above w.ll (indices w) (4 - d) (omega arith),
    is.digits.above (4 - d) (omega arith) (omega arith),
  )

  pub here-Node :
      (a : ℕ)
      → page_number a ≡ page
      → (w.l w.ll).i < 512
      → Node w.boot.memory root a (4 - w.ll) w.self
  here-Node a eq room =
      rw is.in_hand (is.tables w.ll (omega arith) is.digits.high a (here-OnWay a eq room))

  pub go_up-IsAt :
      512 ≤ (w.l w.ll).i
      → page < 2 ^ 36
      → (w' : Walk) × (go_up w ≡ some w') × IsAt root page w' × (w'.boot ≡ w.boot) × (w'.cl ≡ w.cl)
  unfolding go_up
  go_up-IsAt full bound =
      let l = set_level w.l w.ll (record { i = 0; self = (w.l w.ll).self }) in
      let w' : Walk = record w { l = l; ll = w.ll + 1; self = (l (w.ll + 1)).self } in
      let off : (j : ℕ) → j ≢ w.ll → l j ≡ w.l j = λ j h. set_level-off w.l w.ll j _ h in
      let (top, digits') =
        AreDigits-up w.ll (indices w) page is.digits (indices w') (omega (arith, is.digits.here))
          bound (ap (λ v. v.i) (set_level-at w.l w.ll _)) (λ j h. ap (λ v. v.i) (off j h)) in
      (
        w',
        rw (le→leb (w.ll + 1) 4 (omega arith)) refl,
        record {
          boot = is.boot;
          digits = digits';
          in_hand = refl;
          tables = λ j lo hi c on. rw (off j (λ e. absurd (omega arith))) (
              is.tables j (omega arith) hi c
                (λ d lt. on d lt ∙ ap (λ v. v.i) (off (4 - d) (λ e. absurd (omega arith)))));
        },
        refl,
        refl,
      )

  module _ (a : ℕ) (eq : page_number a ≡ page) (room : (w.l w.ll).i < 512) (deep : 1 < w.ll)
      (fits : w.boot.tmp_pt + 2 ^ 13 ≤ 2 ^ 64) where
    abbrev depth : ℕ
    depth = 4 - w.ll

    node : Node w.boot.memory root a depth w.self
    node = here-Node a eq room

    index-here : index a depth ≡ (w.l w.ll).i
    index-here =
        let back : 4 - (4 - w.ll) ≡ w.ll = omega (arith, is.digits.high) in
        index-digit w.ll (indices w) page is.digits a depth eq room (omega arith)
        ∙ ap (digit w.ll (indices w)) back
        ∙ digit-below w.ll (indices w) w.ll (omega arith)

    -- The entry that the code reads is the one on the way.
    entry-slot : u64 (w.self + 8 * (w.l w.ll).i) ≡ (slot w.self a depth).field
    entry-slot = ap (λ n. u64 (w.self + 8 * n)) (sym index-here)

    under :
        Under root a depth w.self w.boot is.boot
          (omega (arith, is.digits.high))
          node
          fits
          (table_under (u64 (w.self + 8 * (w.l w.ll).i)) w.boot)
    under = rw entry-slot (
        table_under-Under root a depth w.self w.boot is.boot (omega (arith, is.digits.high)) node
          fits)

    go_down-off : (j : ℕ) → j ≢ w.ll → j ≢ w.ll - 1 → (go_down w).l j ≡ w.l j
    unfolding go_down
    go_down-off j h h' = rw (ne→== j (w.ll - 1) h', ne→== j w.ll h) refl

    go_down-i : (j : ℕ) → j ≢ w.ll → ((go_down w).l j).i ≡ (w.l j).i
    unfolding go_down
    go_down-i j h = elim (Bool-cases (j == w.ll - 1)) [
      | inl same ↦
          let at : j ≡ w.ll - 1 = (==_iff j (w.ll - 1)).0 same in
          rw (same, ne→== (w.ll - 1) w.ll (λ e. absurd (omega arith)))
            (ap (λ n. (w.l n).i) (sym at))
      | inr other ↦ rw (other, ne→== j w.ll h) refl
    ]

    go_down-i_at : ((go_down w).l w.ll).i ≡ (w.l w.ll).i + 1
    unfolding go_down
    go_down-i_at =
        rw (ne→== w.ll (w.ll - 1) (λ e. absurd (omega arith)), ==_refl w.ll) (omega arith)

    go_down-self : (j : ℕ) → w.ll ≤ j → ((go_down w).l j).self ≡ (w.l j).self
    unfolding go_down
    go_down-self j le = elim (Bool-cases (j == w.ll)) [
      | inl same ↦
          let at : j ≡ w.ll = (==_iff j w.ll).0 same in
          rw (ne→== j (w.ll - 1) (λ e. absurd (omega arith)), same)
            (ap (λ n. (w.l n).self) (sym at))
      | inr other ↦ rw (ne→== j (w.ll - 1) (λ e. absurd (omega arith)), other) refl
    ]

    abbrev table : ℕ
    table = (table_under (u64 (w.self + 8 * (w.l w.ll).i)) w.boot).0

    go_down-table : ((go_down w).l (w.ll - 1)).self ≡ table
    unfolding go_down
    go_down-table = rw (==_refl (w.ll - 1)) refl

    -- The way of the walk that has gone down.
    OnWay-above : (j : ℕ) → w.ll ≤ j → (c : ℕ) → OnWay (go_down w) j c → OnWay w j c
    OnWay-above j le c on d lt = on d lt ∙ go_down-i (4 - d) (λ e. absurd (omega arith))

    -- The table that is reached.
    table-Node :
        (c : ℕ)
        → OnWay (go_down w) (w.ll - 1) c
        → Node (go_down w).boot.memory root c (suc depth) table
    unfolding Node go_down
    table-Node c on =
        let (boot', pml4t, grown, carry, linked, words) = under in
        let above : OnWay w w.ll c =
          λ d lt. on d (omega arith) ∙ go_down-i (4 - d) (λ e. absurd (omega arith)) in
        let old : Node w.boot.memory root c depth w.self =
          rw is.in_hand (is.tables w.ll (omega arith) is.digits.high c above) in
        let back : 4 - depth ≡ w.ll = omega (arith, is.digits.high) in
        let last : suc (index c depth) ≡ (w.l w.ll).i + 1 =
          on depth (omega (arith, is.digits.high))
          ∙ ap (λ j. ((go_down w).l j).i) back
          ∙ go_down-i_at in
        let same : index c depth ≡ index a depth = omega (arith, index-here, last) in
        (w.self, carry c depth w.self (omega (arith, is.digits.low)) old, rw same linked)

    lowest-Node :
        (c : ℕ)
        → OnWay (go_down w) (w.ll - 1) c
        → Node (go_down w).boot.memory root c (4 - (w.ll - 1)) ((go_down w).l (w.ll - 1)).self
    lowest-Node c on =
        let level : 4 - (w.ll - 1) ≡ suc depth = omega (arith, is.digits.high) in
        rw (go_down-table, level) (table-Node c on)

    pub go_down-IsAt : IsAt root page (go_down w)
    unfolding go_down
    go_down-IsAt =
        let (boot', pml4t, grown, carry, linked, words) = under in
        record {
          boot = boot';
          digits =
              AreDigits-down w.ll (indices w) page is.digits (indices (go_down w)) deep room
                go_down-i_at go_down-i;
          in_hand = sym go_down-table;
          tables = λ j lo hi c on. elim (Bool-cases (j == w.ll - 1)) [
            | inl same ↦
                subst
                  (λ n.
                    OnWay (go_down w) n c
                    → Node (go_down w).boot.memory root c (4 - n) ((go_down w).l n).self)
                  (sym ((==_iff j (w.ll - 1)).0 same)) (lowest-Node c) on
            | inr other ↦
                let le : w.ll ≤ j = omega (arith, ==_false→ne j (w.ll - 1) other) in
                rw (go_down-self j le) (
                  carry c (4 - j) (w.l j).self (omega (arith, is.digits.low))
                    (is.tables j le hi c (OnWay-above j le c on)))
          ];
        }

    -- Going down gives no address a new word.
    pub go_down-words :
        ((b v : ℕ) → Leaf w.boot.memory root b v ↔ Leaf (go_down w).boot.memory root b v)
        × ((go_down w).boot.tmp_pml4t ≡ w.boot.tmp_pml4t)
        × ((go_down w).boot.tmp_pt ≤ w.boot.tmp_pt + 2 ^ 12)
    unfolding go_down
    go_down-words = let (boot', pml4t, grown, carry, linked, words) = under in (words, pml4t, grown)
