-- ===== src/BootPaging/Levels.antt =====
-- `page_level_from_size` of src/entry/paging.cpp against the sizes that the levels hold.
use kmd.Base.{
  ℕ, zero, suc, ◌+◌, ◌*◌, ◌/◌, ◌^◌, ◌≤◌, ◌<◌, ◌≡◌, ◌⊎◌, inl, inr, refl, arith, pow-suc, some,
  Bool-cases, ◌==◌, ==_iff, ==_false→ne, ne→==, ◌≢◌, ◌∙◌, ap,
}
use kmd.BootPaging.{level_loop, page_level_from_size}

-- Level `n` is the least whose tables hold `size` pages.
abbrev pub IsLevel : ℕ → ℕ → Type 0
IsLevel size n = (size < 512 ^ n) × ((n ≡ 0) ⊎ (512 ^ n ≤ size * 512))

-- What the loop returns: the level of the size, counted from `i`.
abbrev LoopLevel : ℕ → ℕ → ℕ → Type 0
LoopLevel fuel size i =
    (n : ℕ) × (n ≤ fuel) × (level_loop (suc fuel) size i ≡ some (i + n)) × IsLevel size n

level_zero : (fuel size i : ℕ) → size ≡ 0 → LoopLevel fuel size i
unfolding level_loop
level_zero fuel size i e = (0, omega arith, ground arith, (omega arith, inl refl))

level_suc :
    (fuel size i : ℕ)
    → size ≢ 0
    → LoopLevel fuel (size / 2 ^ 9) (i + 1)
    → LoopLevel (suc fuel) size i
unfolding level_loop
level_suc fuel size i ne (n, bound, run, (above, below)) = (
  suc n,
  omega arith,
  rw (ne→== size 0 ne) (run ∙ ap some (omega arith)),
  (
    omega (arith, pow-suc 512 n),
    inr (elim below [
      | inl none' ↦ rw none' (omega arith)
      | inr least ↦ omega (arith, pow-suc 512 n)
    ]),
  ),
)

level_loop-IsLevel : (fuel size i : ℕ) → size < 512 ^ fuel → LoopLevel fuel size i
level_loop-IsLevel zero size i h = level_zero zero size i (omega arith)
level_loop-IsLevel (suc fuel) size i h = elim (Bool-cases (size == 0)) [
  | inl empty ↦ level_zero (suc fuel) size i ((==_iff size 0).0 empty)
  | inr full ↦
      level_suc fuel size i (==_false→ne size 0 full)
        (level_loop-IsLevel fuel (size / 2 ^ 9) (i + 1) (omega (arith, pow-suc 512 fuel)))
]

-- `page_level_from_size` ends, with a level up to 6, at every size of 64 bits: the least level
-- whose tables hold more pages of 4 KB than the size has.
pub page_level_from_size-IsLevel :
    (size : ℕ)
    → size < 2 ^ 64
    → (n : ℕ) × (n ≤ 6) × (page_level_from_size size ≡ some n) × IsLevel (size / 2 ^ 12) n
unfolding page_level_from_size
page_level_from_size-IsLevel size h =
    let (n, bound, run, level) = level_loop-IsLevel 6 (size / 2 ^ 12) 0 (omega arith) in
    (n, bound, run ∙ ap some (omega arith), level)
