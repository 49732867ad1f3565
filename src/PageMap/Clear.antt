-- ===== src/PageMap/Clear.antt =====
-- `PageMap::clear` zeroes the 512 entries and nothing else.
use kmd.Base.{
  ℕ, zero, suc, ◌+◌, ◌*◌, ◌^◌, ◌≤◌, ◌<◌, ◌≡◌, ◌∙◌, ◌⊎◌, inl, inr, refl, arith, u64, Bool-cases,
  ==_iff, ==_false→ne, ◌==◌,
}
use native.Mathlib.Nat.{mod-eq_of_lt}
use kmd.Memory.{Memory, load64}
use kmd.Memory.Laws.{load64-store64_self, load64-store64-Apart, store64-outside}
use kmd.PageMap.{PageMap, clear_loop, clear}

module _ (p : PageMap) (fits : p.fields + 4096 ≤ 2 ^ 64) where
  slot : (i : ℕ) → i < 512 → u64 (p.fields + 8 * i) ≡ p.fields + 8 * i
  slot i h = mod-eq_of_lt (omega arith)

  clear_loop-outside :
      (left i : ℕ) (m : Memory) (x : ℕ)
      → i + left ≤ 512
      → (x < p.fields + 8 * i) ⊎ (p.fields + 4096 ≤ x)
      → clear_loop left i p m x ≡ m x
  unfolding clear_loop
  clear_loop-outside zero i m x h out = refl
  clear_loop-outside (suc left) i m x h out =
      clear_loop-outside left (i + 1) _ x (omega arith) (omega arith)
      ∙ store64-outside m (u64 (p.fields + 8 * i)) 0 x (omega (arith, slot i (omega arith)))

  clear_loop-before :
      (left i j : ℕ) (m : Memory)
      → i + left ≤ 512
      → j < i
      → load64 (clear_loop left i p m) (p.fields + 8 * j) ≡ load64 m (p.fields + 8 * j)
  unfolding clear_loop
  clear_loop-before zero i j m h before = refl
  clear_loop-before (suc left) i j m h before =
      clear_loop-before left (i + 1) j _ (omega arith) (omega arith)
      ∙ load64-store64-Apart m (u64 (p.fields + 8 * i)) 0 (p.fields + 8 * j)
          (omega (arith, slot i (omega arith)))

  clear_loop-zero :
      (left i j : ℕ) (m : Memory)
      → i + left ≤ 512
      → i ≤ j
      → j < i + left
      → load64 (clear_loop left i p m) (p.fields + 8 * j) ≡ 0
  unfolding clear_loop
  clear_loop-zero zero i j m h from to = absurd (omega arith)
  clear_loop-zero (suc left) i j m h from to = elim (Bool-cases (i == j)) [
    | inl same ↦
        let e : i ≡ j = (==_iff i j).0 same in
        clear_loop-before left (i + 1) j _ (omega arith) (omega arith)
        ∙ rw (slot i (omega arith), e) (load64-store64_self m (p.fields + 8 * j) 0 (omega arith))
    | inr other ↦
        clear_loop-zero left (i + 1) j _ (omega arith) (omega (arith, ==_false→ne i j other))
          (omega arith)
  ]

  -- Each of the 512 entries of a cleared map is zero.
  pub load64-clear : (m : Memory) (j : ℕ) → j < 512 → load64 (clear p m) (p.fields + 8 * j) ≡ 0
  unfolding clear
  load64-clear m j h = clear_loop-zero 512 0 j m (omega arith) (omega arith) (omega arith)

  -- The bytes outside the map's page keep their values.
  pub clear-outside :
      (m : Memory) (x : ℕ) → (x < p.fields) ⊎ (p.fields + 4096 ≤ x) → clear p m x ≡ m x
  unfolding clear
  clear-outside m x out = clear_loop-outside 512 0 m x (omega arith) (omega arith)
