-- ===== src/Entry/Tables.antt =====
-- The three tables of src/entry/entry.s, word by word.
use kmd.Base.{ℕ, ◌+◌, ◌*◌, ◌%◌, ◌^◌, ◌≤◌, ◌<◌, ◌≡◌, ◌∙◌, ap, arith, some}
use kmd.Memory.{Memory, load64, store32}
use kmd.Memory.Laws.{load64-congr}
use kmd.Entry.{tmp_pdp, tmp_pd, tmp_pd_loop, temporary_tables}
use kmd.Entry.Words.{load64-zero, store32-outside, load64-store32, bit_or_aligned}
use kmd.Entry.Loop.{tmp_pd_loop-PdFilled}

-- A first entry, and zeros behind it.
pub record OneEntry (m : Memory) (table e : ℕ) : Type 0 where
  pub first : load64 m table ≡ e
  pub others : (j : ℕ) → 0 < j → j < 512 → load64 m (table + 8 * j) ≡ 0

pub record Tables (t : ℕ) (m : Memory) : Type 0 where
  pub fourth : OneEntry m t (tmp_pdp t + 0xB)
  pub third : OneEntry m (tmp_pdp t) (tmp_pd t + 0xB)
  pub second : (j : ℕ) → j < 512 → load64 m (tmp_pd t + 8 * j) ≡ 0x8B + j * 2 ^ 21

-- The first entry of a table of zeros is written, and what is written later is elsewhere.
OneEntry-store :
    (m m' : Memory) (table e : ℕ)
    → e < 2 ^ 32
    → ((x : ℕ) → table ≤ x → x < table + 8 * 512 → m x ≡ 0)
    → ((x : ℕ) → table ≤ x → x < table + 8 * 512 → m' x ≡ store32 m table e x)
    → OneEntry m' table e
OneEntry-store m m' table e small zeros same = record {
  first =
      load64-congr m' (store32 m table e) table (λ x p q. same x p (omega arith))
      ∙ load64-store32 m table e small (λ x p q. zeros x p (omega arith));
  others = λ j lo hi. load64-zero m' (table + 8 * j) (λ x p q.
      same x (omega arith) (omega arith)
      ∙ store32-outside m table e x (omega arith)
      ∙ zeros x (omega arith) (omega arith));
}

pub temporary_tables-Tables :
    (fuel t : ℕ) (m : Memory)
    → t % 2 ^ 12 ≡ 0
    → t + 3 * 2 ^ 12 ≤ 2 ^ 32
    → ((x : ℕ) → t ≤ x → x < t + 3 * 2 ^ 12 → m x ≡ 0)
    → 512 ≤ fuel
    → (m' : Memory) × (temporary_tables fuel t m ≡ some m') × Tables t m'
unfolding temporary_tables
temporary_tables-Tables fuel t m aligned low zeros enough =
    let m1 = store32 m t (tmp_pdp t + 0xB) in
    let m2 = store32 m1 (tmp_pdp t) (tmp_pd t + 0xB) in
    let kept1 = store32-outside m t (tmp_pdp t + 0xB) in
    let kept2 = store32-outside m1 (tmp_pdp t) (tmp_pd t + 0xB) in
    let (m', run, filled) =
      tmp_pd_loop-PdFilled (tmp_pd t) (omega arith) 511 fuel 0 m2 (omega arith) (omega arith)
        (λ x p q.
          kept2 x (omega arith) ∙ kept1 x (omega arith) ∙ zeros x (omega arith) (omega arith)) in
    let pd : tmp_pd t ≡ tmp_pd t + 8 * 0 = omega arith in
    (
      m',
      rw
          (
            bit_or_aligned (tmp_pdp t) 0xB (omega arith) (omega arith),
            bit_or_aligned (tmp_pd t) 0xB (omega arith) (omega arith),
          )
          (ap (λ a. tmp_pd_loop fuel 0x8B a m2) pd ∙ run),
      record {
        fourth =
            OneEntry-store m m' t (tmp_pdp t + 0xB) (omega arith) (λ x p q. zeros x p (omega arith))
              (λ x p q. filled.kept x (omega arith) ∙ kept2 x (omega arith));
        third =
            OneEntry-store m1 m' (tmp_pdp t) (tmp_pd t + 0xB) (omega arith)
              (λ x p q. kept1 x (omega arith) ∙ zeros x (omega arith) (omega arith))
              (λ x p q. filled.kept x (omega arith));
        second = λ j lt. filled.written j (omega arith) lt;
      },
    )
