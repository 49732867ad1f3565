-- ===== src/Tests/Start.antt =====
-- The start of the processor with devices whose answers grow, the way to the halt, and the register
-- `cr3` by its name.
use kmd.Base.{
  ◌+◌, ◌*◌, ◌-◌, ◌≡◌, ◌≢◌, ◌⊎◌, refl, false, not, ◌==◌, List, [], ◌∷◌, Option, none, some, arith,
  if◌then◌else◌, if◌then◌else◌,
}
use kmd.Memory.{Memory}
use kmd.Kernel.{Kernel, Run, ok, fault, out_of_fuel}
use kmd.Hardware.{Device, Sent, sti}
use kmd.Idt.{Stubs, lidt}
use kmd.Idt.Table.{offset, is_present}
use kmd.Arch64.{Processor, init}
use kmd.Arch64.Interrupts.{stis, loaded, init-lets_in}
use kmd.Strcmp.{char_at}
use kmd.Strcmp.Order.{Text, end as end_text, char}
use kmd.Paging.{flush_tlb, map_page}
use kmd.Zones.{get_page}
use mathlib.Core.Option.{bind}
use kmd.Reg.{move_to_cr3, set, get, flush_by_name}
use kmd.Reg.Flush.{cr3_text, flush_by_name-flush_tlb, set-get}

-- At 100 and at 200 stands "cr3", and at 300 "cr".
abbrev texts : Memory
texts a =
    if a == 100
    then 99
    else if a == 101
    then 114
    else if a == 102
    then 51
    else if a == 200
    then 99
    else if a == 201
    then 114
    else if a == 202
    then 51
    else if a == 300
    then 99
    else if a == 301
    then 114
    else 0

abbrev kernel : Kernel
kernel = record {
  memory = texts;
  page_map_level4 = 0x1000;
  zones = [];
  zones_nr = 0;
  arena = 0;
  pages = λ p. record { base = 0; references = 0; available = false };
  cr3 = 0x1000;
  trace = [];
}

literal-Text : Text texts 100 cr3_text
unfolding char_at
literal-Text = char (omega arith) (char (omega arith) (char (omega arith) (end_text refl)))

name-Text : Text texts 200 cr3_text
unfolding char_at
name-Text = char (omega arith) (char (omega arith) (char (omega arith) (end_text refl)))

other-Text : Text texts 300 (99 ∷ 114 ∷ [])
unfolding char_at
other-Text = char (omega arith) (char (omega arith) (end_text refl))

flush_by_name-flush_tlb_example : flush_by_name 100 4 7 200 kernel ≡ flush_tlb kernel
flush_by_name-flush_tlb_example =
    flush_by_name-flush_tlb kernel 100 4 literal-Text (omega arith) 7 200 name-Text

set-get_example :
    ((99 ∷ 114 ∷ [] ≡ cr3_text)
      × (set 100 4 (record { name = 300 }) 9 kernel ≡ ok tt (move_to_cr3 9 kernel))
      × (get 100 4 7 (record { name = 300 }) (move_to_cr3 9 kernel) ≡ ok 9 (move_to_cr3 9 kernel)))
    ⊎ ((99 ∷ 114 ∷ [] ≢ cr3_text)
        × (set 100 4 (record { name = 300 }) 9 kernel ≡ ok tt kernel)
        × (get 100 4 7 (record { name = 300 }) kernel ≡ ok 7 kernel))
set-get_example =
    set-get kernel 100 4 literal-Text (omega arith) 7 9 (record { name = 300 }) (99 ∷ 114 ∷ [])
      other-Text

abbrev device : Device
device n source = n

abbrev stub : Stubs
stub i = 0x8000 + i * 64

abbrev processor : Processor
processor = record {
  board = record { asked = 0; sent = []; apic_regs = 0; khz = 0 };
  idt = λ i. record {
    offset_low = 0;
    selector = 0;
    zero1 = 0;
    flags = 0;
    offset_middle = 0;
    offset_high = 0;
    zero2 = 0;
  };
  idtr = none;
  halted = false;
}

abbrev result : Run (Option Processor) → Processor
result (ok none k) = processor
result (ok (some p) k) = p
result fault = processor
result out_of_fuel = processor

abbrev started : Processor
started = result (init device stub 0x9000 4 4 processor kernel)

started_run : init device stub 0x9000 4 4 processor kernel ≡ ok (some started) kernel
unfolding init map_page get_page bind
started_run = refl

init-lets_in_example :
    ((before : List Sent) × (started.board.sent ≡ sti ∷ before)
      × (stis before ≡ stis processor.board.sent)
      × (loaded before ≡ some (lidt 0x9000 (256 * 16 - 1))))
    × (started.idtr ≡ some (lidt 0x9000 (256 * 16 - 1)))
    × (offset (started.idt 0xE) ≡ stub 0xE)
    × (is_present (started.idt 0xE) ≡ not (0xE == 8))
init-lets_in_example =
    init-lets_in device stub 0x9000 4 4 processor started kernel kernel 0xE (omega arith)
      (omega arith) started_run
