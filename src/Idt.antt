-- ===== src/Idt.antt =====
-- The interrupt descriptor table of src/arch64/idt.cpp. The addresses of the entry stubs
-- `do_int0x00` to `do_int0xFF` (src/interrupts/int.s) are the parameter `stub`.
pub mod Table
use kmd.Base.{ℕ, zero, suc, ◌+◌, ◌-◌, ◌*◌, bit_and, bit_or, ◌==◌, if◌then◌else◌, u8, u16, ◌>>>◌}

-- The descriptor, with the fields of the packed structure.
pub record Gate : Type 0 where
  pub offset_low : ℕ
  pub selector : ℕ
  pub zero1 : ℕ
  pub flags : ℕ
  pub offset_middle : ℕ
  pub offset_high : ℕ
  pub zero2 : ℕ

abbrev pub Idt : Type 0
Idt = ℕ → Gate

-- The addresses of the 256 stubs, by vector.
abbrev pub Stubs : Type 0
Stubs = ℕ → ℕ

abbrev pub idt_entry_present : ℕ
idt_entry_present = 0x80

abbrev pub idt_entry_dpt_ring0 : ℕ
idt_entry_dpt_ring0 = 0

abbrev pub idt_entry_type_interupt : ℕ
idt_entry_type_interupt = 14

-- The assignments to one element; the two fields of zeros are not touched.
unfoldable pub fill_gate : Gate → ℕ → ℕ → Gate
fill_gate g offset flags = record g {
  flags = flags;
  offset_low = bit_and offset 0xFFFF;
  offset_middle = bit_and (offset >>> 16) 0xFFFF;
  offset_high = bit_and (offset >>> 32) 0xFFFFFFFF;
  selector = 8;
}

-- The index is a `u8`, so it is always one of the 256 elements.
unfoldable pub set_entry : ℕ → ℕ → ℕ → Idt → Idt
set_entry index offset flags idt i =
    if i == u8 index then fill_gate (idt i) offset (u8 flags) else idt i

-- The flag word of a vector in the list of calls: number 8 is written without the present bit.
unfoldable pub flags_of : ℕ → ℕ
flags_of i =
    if i == 8
    then bit_or idt_entry_dpt_ring0 idt_entry_type_interupt
    else bit_or (bit_or idt_entry_present idt_entry_dpt_ring0) idt_entry_type_interupt

-- The calls of `init` for the vectors from `i` on, `n` of them, in order.
unfoldable pub set_entries : Stubs → ℕ → ℕ → Idt → Idt
set_entries stub zero i idt = idt
set_entries stub (suc n) i idt = set_entries stub n (i + 1) (set_entry i (stub i) (flags_of i) idt)

-- What `lidt` loads: the limit and the base.
pub record Idtr : Type 0 where
  pub limit : ℕ
  pub base : ℕ

unfoldable pub lidt : ℕ → ℕ → Idtr
lidt base limit = record { limit = u16 limit; base = base }

-- `init` fills the table of 256 elements of sixteen bytes and loads it.
unfoldable pub init : Stubs → ℕ → Idt → Idt × Idtr
init stub base idt = (set_entries stub 256 0 idt, lidt base (256 * 16 - 1))
