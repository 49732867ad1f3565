-- ===== src/Pit/Counts.antt =====
-- The counts of src/arch64/pit.cpp: what is sent and read byte by byte, and the wait for a wrap.
use kmd.Base.{
  ℕ, zero, suc, ◌+◌, ◌*◌, ◌/◌, ◌%◌, ◌^◌, ◌≤◌, ◌<◌, ◌≡◌, ◌∙◌, ap₂, refl, arith, bit_and, bit_or,
  some, ◌∷◌, leb, le→leb, u8, false,
}
use kmd.Base.Bits.{bit_and_low, bit_or_fields}
use kmd.Hardware.{Board, Device, out8, port8, in8, out8_to}
use kmd.Pit.{pit_reg_ch0, set_mode, mode_two_set_divisor, get_count, wraparound_loop, wraparound}

-- The divisor is sent as two bytes, the low one first.
pub mode_two_set_divisor-bytes :
    (divisor : ℕ) (b : Board)
    → divisor < 2 ^ 16
    → (low : ℕ) × (high : ℕ) × (low < 256)
      × (high < 256)
      × (low + 256 * high ≡ divisor)
      × ((mode_two_set_divisor divisor b).sent
          ≡ out8 pit_reg_ch0 high ∷ out8 pit_reg_ch0 low ∷ b.sent)
unfolding mode_two_set_divisor
mode_two_set_divisor-bytes divisor b h =
    let low : u8 (bit_and divisor 0xFF) ≡ divisor % 256 = omega (arith, bit_and_low 8 divisor) in
    (
      u8 (bit_and divisor 0xFF),
      u8 (divisor / 2 ^ 8),
      omega arith,
      omega arith,
      omega (arith, low),
      unfold out8_to in refl,
    )

lt→leb_false : (a b : ℕ) → b < a → leb a b ≡ false
lt→leb_false a b h = ground arith

-- A count that the timer answers byte by byte, the low byte first, is read as it is.
pub get_count-bytes :
    (device : Device) (b : Board) (count : ℕ)
    → count < 2 ^ 16
    → device b.asked (port8 pit_reg_ch0) ≡ count % 256
    → device (suc b.asked) (port8 pit_reg_ch0) ≡ count / 256
    → (get_count device b).0 ≡ count
unfolding get_count in8 out8_to set_mode
get_count-bytes device b count h low high =
    let lo : count % 256 % 2 ^ 8 ≡ count % 256 = omega arith in
    let hi : count / 256 % 2 ^ 8 * 2 ^ 8 % 2 ^ 64 ≡ count / 256 * 2 ^ 8 = omega arith in
    let whole = bit_or_fields 8 (count % 256) (count / 256) (omega arith) in
    rw (low, high) (ap₂ (λ l h. bit_or l h % 2 ^ 16) lo hi ∙ omega (arith, whole))

-- The board after `n` counts are read, and the count that is read then.
unfoldable pub after : Device → ℕ → Board → Board
after device zero b = b
after device (suc n) b = after device n (get_count device b).1

unfoldable pub nth_count : Device → ℕ → Board → ℕ
unfolding after
nth_count device n b = (get_count device (after device n b)).0

module _ (device : Device) where
  wraparound_loop-first_rise :
      (n : ℕ) (b : Board)
      → ((i : ℕ) → i < n → nth_count device (suc i) b ≤ nth_count device i b)
      → nth_count device n b < nth_count device (suc n) b
      → wraparound_loop device
          (suc n)
          (nth_count device 1 b)
          (nth_count device 0 b)
          (after device 2 b)
        ≡ some (after device (suc (suc n)) b)
  unfolding wraparound_loop nth_count after
  wraparound_loop-first_rise zero b falls rises = rw (lt→leb_false _ _ rises) refl
  wraparound_loop-first_rise (suc n) b falls rises =
      let rest =
        wraparound_loop-first_rise n (get_count device b).1 (λ i p. falls (suc i) (omega arith))
          rises in
      rw (le→leb _ _ (falls 0 (omega arith))) rest

-- When the counts fall up to count `n` and rise from there to the next one, `wraparound` ends with
-- that next count read, and fuel for `n + 2` rounds is enough.
pub wraparound-first_rise :
    (device : Device) (n : ℕ) (b : Board)
    → ((i : ℕ) → i < n → nth_count device (suc i) b ≤ nth_count device i b)
    → nth_count device n b < nth_count device (suc n) b
    → wraparound device (suc (suc n)) b ≡ some (after device (suc (suc n)) b)
unfolding wraparound wraparound_loop after nth_count
wraparound-first_rise device n b falls rises =
    let first = nth_count device 0 b in
    rw (le→leb first first (omega arith)) (wraparound_loop-first_rise device n b falls rises)
