-- ===== src/Hardware.antt =====
-- What the code says to the devices and hears from them: src/io/io.cpp, the model-specific registers
-- of src/arch64/arch64.cpp and the registers of src/arch64/apic.cpp. A device is a parameter: what it
-- answers to each question, which it may answer differently each time.
use kmd.Base.{ℕ, suc, ◌+◌, bit_and, List, ◌∷◌, u8, u16, u32, u64, ◌<<<◌, ◌>>>◌}

-- What can be asked.
pub data Source : Type 0 where
  port8 : ℕ → Source
  port16 : ℕ → Source
  port32 : ℕ → Source
  msr_high : ℕ → Source
  msr_low : ℕ → Source
  word32 : ℕ → Source

-- What can be said, and `lidt`, whose limit and base are said to the processor.
pub data Sent : Type 0 where
  out8 : ℕ → ℕ → Sent
  out16 : ℕ → ℕ → Sent
  out32 : ℕ → ℕ → Sent
  wrmsr : ℕ → ℕ → ℕ → Sent
  store32 : ℕ → ℕ → Sent
  sti : Sent
  cli : Sent
  int32 : Sent
  load_idt : ℕ → ℕ → Sent

-- The number of questions so far, what was said (the latest first), and the globals of
-- src/arch64/apic.cpp.
pub record Board : Type 0 where
  pub asked : ℕ
  pub sent : List Sent
  pub apic_regs : ℕ
  pub khz : ℕ

abbrev pub say : Sent → Board → Board
say s b = record b { sent = s ∷ b.sent }

abbrev pub Device : Type 0
Device = ℕ → Source → ℕ

module _ (device : Device) where
  abbrev ask : Source → Board → ℕ × Board
  ask s b = (device b.asked s, record b { asked = suc b.asked })

  unfoldable pub in8 : ℕ → Board → ℕ × Board
  in8 port b = let (data', b') = ask (port8 port) b in (u8 data', b')

  unfoldable pub in16 : ℕ → Board → ℕ × Board
  in16 port b = let (data', b') = ask (port16 port) b in (u16 data', b')

  unfoldable pub in32 : ℕ → Board → ℕ × Board
  in32 port b = let (data', b') = ask (port32 port) b in (u32 data', b')

  -- One instruction reads both halves.
  unfoldable pub rdmsr : ℕ → Board → ℕ × Board
  rdmsr msr b =
      let hi = u32 (device b.asked (msr_high msr)) in
      let lo = u32 (device b.asked (msr_low msr)) in
      (u64 ((hi <<< 32) + lo), record b { asked = suc b.asked })

  -- `getReg` of src/arch64/apic.cpp.
  unfoldable pub get_reg : ℕ → Board → ℕ × Board
  get_reg reg b = let (v, b') = ask (word32 (u64 (b.apic_regs + reg))) b in (u32 v, b')

unfoldable pub out8_to : ℕ → ℕ → Board → Board
out8_to port data' = say (out8 port (u8 data'))

unfoldable pub out16_to : ℕ → ℕ → Board → Board
out16_to port data' = say (out16 port (u16 data'))

unfoldable pub out32_to : ℕ → ℕ → Board → Board
out32_to port data' = say (out32 port (u32 data'))

unfoldable pub wrmsr_to : ℕ → ℕ → Board → Board
wrmsr_to msr val = say (wrmsr msr (u32 (val >>> 32)) (u32 (bit_and val 0xFFFFFFFF)))

-- `setReg` of src/arch64/apic.cpp.
unfoldable pub set_reg : ℕ → ℕ → Board → Board
set_reg reg val b = say (store32 (u64 (b.apic_regs + reg)) (u32 val)) b
