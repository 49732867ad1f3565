-- ===== src/Apic/Base.antt =====
-- The base address of the registers of src/arch64/apic.cpp.
use kmd.Base.{ℕ, ◌-◌, ◌*◌, ◌/◌, ◌%◌, ◌^◌, ◌<◌, ◌≡◌, arith}
use kmd.Base.Bits.{bit_and_low, bit_and_high}
use kmd.Hardware.{Board, Device}
use kmd.Apic.{base_of, get_base}

base_of-eq : (msr : ℕ) → base_of msr ≡ msr / 2 ^ 12 % 2 ^ 36 * 2 ^ 12
base_of-eq msr = omega (arith, bit_and_high 12 msr (2 ^ 36 - 1), bit_and_low 36 (msr / 2 ^ 12))

-- Whatever the register answers, the registers begin on a page, below 2 ^ 48, so `mapPage` maps all
-- of them with one page.
pub get_base-page :
    (device : Device) (b : Board)
    → ((get_base device b).0 % 4096 ≡ 0) × ((get_base device b).0 < 2 ^ 48)
unfolding get_base
get_base-page device b = (omega (arith, base_of-eq _), omega (arith, base_of-eq _))
