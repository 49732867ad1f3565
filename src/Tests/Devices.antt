-- ===== src/Tests/Devices.antt =====
-- The devices: a timer and registers that answer with fixed numbers.
use kmd.Base.{ℕ, zero, suc, ◌≤◌, ◌<◌, ◌≡◌, refl, arith, bit_or, [], some}
use kmd.Hardware.{Board, Device, msr_high, msr_low, in8, out8_to}
use kmd.Pit.{get_count, wraparound, set_mode}
use kmd.Pit.Counts.{after, nth_count, wraparound-first_rise}
use kmd.Arch64.{pat_of}
use kmd.Arch64.Pat.{byte_of, asked_type, pat_of-types}

board : Board
board = record { asked = 0; sent = []; apic_regs = 0; khz = 0 }

-- The counts are 0x0302, 0x0101 and 0x0503.
timer : Device
timer zero s = 0x02
timer (suc zero) s = 0x03
timer (suc (suc zero)) s = 0x01
timer (suc (suc (suc zero))) s = 0x01
timer (suc (suc (suc (suc zero)))) s = 0x03
timer _ s = 0x05

registers : Device
registers n (msr_high _) = 0x00070406
registers n (msr_low _) = 0xFEE00900
registers n _ = 0

falls : (i : ℕ) → i < 1 → nth_count timer (suc i) board ≤ nth_count timer i board
unfolding timer board nth_count after get_count in8 set_mode out8_to
falls zero h = omega arith
falls (suc i) h = absurd (omega arith)

rises : nth_count timer 1 board < nth_count timer 2 board
unfolding timer board nth_count after get_count in8 set_mode out8_to
rises = omega arith

wraparound-first_rise_example : wraparound timer 3 board ≡ some (after timer 3 board)
wraparound-first_rise_example = wraparound-first_rise timer 1 board falls rises

-- The register as it is after a reset: entry 4 becomes 7, not the 1 that is asked for.
pat_of-types_example :
    byte_of 4 (pat_of 0x0007040600070406) ≡ bit_or (byte_of 4 0x0007040600070406) (asked_type 4)
pat_of-types_example = pat_of-types 0x0007040600070406 4 (omega arith)

pat_entry4 : byte_of 4 (pat_of 0x0007040600070406) ≡ 7
unfolding pat_of
pat_entry4 = refl
