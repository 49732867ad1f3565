-- ===== src/Pit.antt =====
-- The interval timer: src/arch64/pit.cpp.
pub mod Counts
use kmd.Base.{
  ℕ, zero, suc, ◌*◌, ◌%◌, ◌/◌, ◌^◌, bit_and, bit_or, Option, none, some, leb, if◌then◌else◌, u8,
  u16, ◌<<<◌, ◌>>>◌,
}
use kmd.Hardware.{Board, Device, in8, out8_to}

abbrev pub pit_reg_mode : ℕ
pit_reg_mode = 0x43

abbrev pub pit_reg_ch0 : ℕ
pit_reg_ch0 = 0x40

abbrev pub pit_hz : ℕ
pit_hz = 1193180

abbrev pub pit_wraparound_ms : ℕ
pit_wraparound_ms = 50

unfoldable pub set_mode : ℕ → Board → Board
unfolding out8_to
set_mode mode = out8_to pit_reg_mode mode

unfoldable pub mode_two_set_divisor : ℕ → Board → Board
unfolding out8_to
mode_two_set_divisor divisor b =
    out8_to pit_reg_ch0 (divisor >>> 8) (out8_to pit_reg_ch0 (bit_and divisor 0xFF) b)

module _ (device : Device) where
  unfoldable pub get_count : Board → ℕ × Board
  unfolding set_mode in8
  get_count b =
      let (low, b1) = in8 device pit_reg_ch0 (set_mode 0x00 b) in
      let (high, b2) = in8 device pit_reg_ch0 b1 in (u16 (bit_or low (high <<< 8)), b2)

  -- The loop of `wraparound`; `none` means that the fuel ran out.
  unfoldable pub wraparound_loop : ℕ → ℕ → ℕ → Board → Option Board
  wraparound_loop zero count old_count b = none
  wraparound_loop (suc fuel) count old_count b =
      let (next, b') = get_count b in
      let rest = wraparound_loop fuel next count b' in if leb count old_count then rest else some b

  unfoldable pub wraparound : ℕ → Board → Option Board
  unfolding wraparound_loop get_count
  wraparound fuel b = let (count, b') = get_count b in wraparound_loop fuel count count b'
