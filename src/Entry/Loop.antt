-- ===== src/Entry/Loop.antt =====
-- The loop of src/entry/entry.s that fills the table of large pages.
use kmd.Base.{
  ℕ, zero, suc, ◌+◌, ◌*◌, ◌^◌, ◌≤◌, ◌<◌, ◌≡◌, refl, ◌∙◌, ◌⊎◌, inl, inr, arith, true, false, lt→ltb,
  le→ltb_false, ◌==◌, ==_iff, ==_false→ne, Bool-cases, some, u32,
}
use kmd.Memory.{Memory, load64, store32}
use kmd.Memory.Laws.{load64-congr}
use kmd.Entry.{less_signed, tmp_pd_loop}
use kmd.Entry.Words.{store32-outside, load64-store32}

-- The entries of the last table from `i` on are written, and nothing before or behind them.
pub record PdFilled (pd i : ℕ) (m m' : Memory) : Type 0 where
  pub written : (j : ℕ) → i ≤ j → j < 512 → load64 m' (pd + 8 * j) ≡ 0x8B + j * 2 ^ 21
  pub kept : (x : ℕ) → (x < pd + 8 * i) ⊎ (pd + 8 * 512 ≤ x) → m' x ≡ m x

-- The words from entry `i` on are zero.
abbrev ZeroFrom : ℕ → ℕ → Memory → Type 0
ZeroFrom pd i m = (x : ℕ) → pd + 8 * i ≤ x → x < pd + 8 * 512 → m x ≡ 0

module _ (pd : ℕ) (low : pd + 8 * 512 ≤ 2 ^ 32) where
  abbrev value : ℕ → ℕ
  value i = 0x8B + i * 2 ^ 21

  PdFilled-last :
      (i : ℕ) (m : Memory)
      → i ≡ 511
      → ZeroFrom pd i m
      → PdFilled pd i m (store32 m (pd + 8 * i) (value i))
  PdFilled-last i m last zeros = record {
    written = λ j lo hi.
        let same : j ≡ i = omega arith in
        rw same (
          load64-store32 m (pd + 8 * i) (value i) (omega arith) (λ x p q. zeros x p (omega arith)));
    kept = λ x h. store32-outside m (pd + 8 * i) (value i) x (omega arith);
  }

  PdFilled-suc :
      (i : ℕ) (m m' : Memory)
      → i < 511
      → ZeroFrom pd i m
      → PdFilled pd (suc i) (store32 m (pd + 8 * i) (value i)) m'
      → PdFilled pd i m m'
  PdFilled-suc i m m' lt zeros f = record {
    written = λ j lo hi. elim (Bool-cases (j == i)) [
      | inl same ↦ rw ((==_iff j i).0 same) (
          load64-congr m' (store32 m (pd + 8 * i) (value i)) (pd + 8 * i)
            (λ x p q. f.kept x (omega arith))
          ∙ load64-store32 m (pd + 8 * i) (value i) (omega arith)
              (λ x p q. zeros x p (omega arith)))
      | inr other ↦ f.written j (omega (arith, ==_false→ne j i other)) hi
    ];
    kept = λ x h. f.kept x (omega arith) ∙ store32-outside m (pd + 8 * i) (value i) x (omega arith);
  }

  pub tmp_pd_loop-PdFilled :
      (left fuel i : ℕ) (m : Memory)
      → i + left ≡ 511
      → left < fuel
      → ZeroFrom pd i m
      → (m' : Memory) × (tmp_pd_loop fuel (value i) (pd + 8 * i) m ≡ some m') × PdFilled pd i m m'
  unfolding tmp_pd_loop
  tmp_pd_loop-PdFilled left zero i m e enough zeros = absurd (omega arith)
  tmp_pd_loop-PdFilled zero (suc fuel) i m e enough zeros =
      let over : less_signed (u32 (value i + 0x200000)) 0x40000000 ≡ false =
        le→ltb_false _ _ (omega arith) in
      (store32 m (pd + 8 * i) (value i), rw over refl, PdFilled-last i m (omega arith) zeros)
  tmp_pd_loop-PdFilled (suc left) (suc fuel) i m e enough zeros =
      let m1 = store32 m (pd + 8 * i) (value i) in
      let (m', run, filled) =
        tmp_pd_loop-PdFilled left fuel (suc i) m1 (omega arith) (omega arith) (λ x p q.
          store32-outside m (pd + 8 * i) (value i) x (omega arith) ∙ zeros x (omega arith) q) in
      let more : less_signed (u32 (value i + 0x200000)) 0x40000000 ≡ true =
        lt→ltb _ _ (omega arith) in
      let ecx : u32 (value i + 0x200000) ≡ value (suc i) = omega arith in
      let edx : u32 (pd + 8 * i + 8) ≡ pd + 8 * suc i = omega arith in
      (m', rw (more, ecx, edx) run, PdFilled-suc i m m' (omega arith) zeros filled)
