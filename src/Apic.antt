-- ===== src/Apic.antt =====
-- The local interrupt controller: src/arch64/apic.cpp.
pub mod Base
use kmd.Base.{ℕ, ◌+◌, ◌-◌, ◌*◌, ◌/◌, ◌^◌, Bool, bit_and, bit_or, if◌then◌else◌, u32, u64, ◌<<<◌}
use kmd.Kernel.{Kernel, Run, Cmd, pure, ◌>>=◌, ◌>>◌}
use kmd.PageMapEntry.{pme_present, pme_rw, pme_pwt, pme_pcd}
use kmd.Paging.{map_page, flush_tlb}
use kmd.Hardware.{Board, Device, rdmsr, get_reg, set_reg, out8_to, wrmsr_to}
use kmd.Pit.{pit_hz, pit_wraparound_ms, set_mode, mode_two_set_divisor, wraparound}
use mathlib.Core.Option.{Option, none, some, bind}

abbrev pub ia32_apic_base : ℕ
ia32_apic_base = 0x1B

abbrev pub apic_timer_divide : ℕ
apic_timer_divide = 0x3E0

abbrev pub apic_timer_count : ℕ
apic_timer_count = 0x380

abbrev pub apic_timer_current : ℕ
apic_timer_current = 0x390

abbrev pub apic_lvt_timer : ℕ
apic_lvt_timer = 0x320

abbrev pub apic_svr : ℕ
apic_svr = 0x0F0

abbrev pub apic_lvt_lint0 : ℕ
apic_lvt_lint0 = 0x350

abbrev pub apic_lvt_lint1 : ℕ
apic_lvt_lint1 = 0x360

abbrev pub apic_version : ℕ
apic_version = 0x030

abbrev pub tick_ms : ℕ
tick_ms = 2

-- The bits of the base address in its register.
abbrev pub base_of : ℕ → ℕ
base_of msr = bit_and msr ((2 ^ 36 - 1) * 2 ^ 12)

-- What `getFreq` makes of the count that is left.
unfoldable pub freq_of : ℕ → ℕ
freq_of current = (0xFFFFFFFF - current) / pit_wraparound_ms

-- `setBase` does not look at its argument.
unfoldable pub set_base : ℕ → Board → Board
unfolding wrmsr_to
set_base addr = wrmsr_to ia32_apic_base (bit_or (2 ^ 11) (2 ^ 8))

unfoldable pub disable_pic : Board → Board
unfolding out8_to
disable_pic b0 =
    let b1 = out8_to 0xA0 0x11 (out8_to 0x20 0x11 b0) in
    let b2 = out8_to 0xA1 (32 + 8) (out8_to 0x21 32 b1) in
    let b3 = out8_to 0xA1 0x02 (out8_to 0x21 0x04 b2) in
    let b4 = out8_to 0xA1 0x01 (out8_to 0x21 0x01 b3) in
    let b5 = out8_to 0xA1 0x0 (out8_to 0x21 0x0 b4) in out8_to 0xA1 0xFF (out8_to 0x21 0xFF b5)

module _ (device : Device) where
  unfoldable pub get_base : Board → ℕ × Board
  unfolding rdmsr
  get_base b = let (msr, b') = rdmsr device ia32_apic_base b in (base_of msr, b')

  unfoldable pub get_version : Board → ℕ × Board
  unfolding get_reg
  get_version = get_reg device apic_version

  -- The end of `getFreq`, behind its two waits.
  unfoldable pub read_freq : Board → ℕ × Board
  unfolding get_reg freq_of
  read_freq b = let (current, b') = get_reg device apic_timer_current b in (freq_of current, b')

  -- The fuel is for each of the two waits for the timer to wrap around.
  unfoldable pub get_freq : ℕ → Board → Option (ℕ × Board)
  unfolding set_mode mode_two_set_divisor wraparound set_reg read_freq
  get_freq fuel b =
      bind
        (wraparound device fuel
          (mode_two_set_divisor (pit_hz * pit_wraparound_ms / 1000) (set_mode 0x34 b)))
        (λ b1.
          bind
            (wraparound device fuel
              (set_reg apic_timer_count 0xFFFFFFFF (set_reg apic_timer_divide 0x0B b1)))
            (λ b2. some (read_freq b2)))

  -- The end of `init`: the timer and the two local lines.
  unfoldable pub start_timer : Board → Board
  unfolding set_reg
  start_timer b =
      let b1 = set_reg apic_timer_divide 0xB b in
      let b2 = set_reg apic_timer_count (u32 (b.khz * tick_ms)) b1 in
      let b3 = set_reg apic_lvt_lint0 (bit_or (7 * 2 ^ 8) (2 ^ 16)) b2 in
      let b4 = set_reg apic_lvt_lint1 (2 ^ 16) b3 in
      set_reg apic_lvt_timer (bit_or 0xFE (2 ^ 17)) b4

  -- `init` once its registers are mapped.
  unfoldable pub set_up : ℕ → Board → Option Board
  unfolding get_version get_reg set_reg get_freq start_timer
  set_up fuel b =
      let b1 = (get_version b).1 in
      let (svr, b2) = get_reg device apic_svr b1 in
      bind (get_freq fuel (set_reg apic_svr (bit_or (2 ^ 8) svr) b2))
        (λ (khz', b3). some (start_timer (record b3 { khz = khz' })))

  -- The first half of `init`: its base address, and the board with it.
  unfoldable pub find_regs : Board → Board
  unfolding disable_pic get_base
  find_regs b = let (base, b') = get_base (disable_pic b) in record b' { apic_regs = base }

  -- The first fuel is for the search of a free page, the second for the waits; the result is `none`
  -- when a wait does not end within the fuel.
  unfoldable pub init : ℕ → ℕ → Board → Cmd (Option Board)
  unfolding find_regs set_up
  init pages fuel b =
      let b' = find_regs b in
      let regs = b'.apic_regs in
      let flags = bit_or (bit_or (bit_or pme_pcd pme_pwt) pme_rw) pme_present in
      do
        new ← map_page pages regs regs flags
        (if new then flush_tlb else pure tt)
        pure (set_up fuel b')
