-- ===== src/Arch64.antt =====
-- The processor's set-up: src/arch64/arch64.cpp.
pub mod Pat
pub mod Interrupts
use kmd.Base.{ℕ, ◌*◌, ◌%◌, ◌^◌, bit_and, bit_or, u64, ◌<<<◌, Option, none, some, Bool, true}
use kmd.Kernel.{Cmd, pure, ◌>>=◌}
use kmd.Hardware.{Board, Device, rdmsr, wrmsr_to, say, load_idt, sti, cli, int32}
use kmd.Idt.{Stubs, Idt, Idtr, init as idt_init}
use kmd.Apic.{init as apic_init}

abbrev pub ia32_pat_msr : ℕ
ia32_pat_msr = 0x277

-- The memory types.
abbrev pub uncacheable : ℕ
uncacheable = 0x00

abbrev pub write_combining : ℕ
write_combining = 0x01

abbrev pub write_through : ℕ
write_through = 0x04

abbrev pub write_back : ℕ
write_back = 0x06

abbrev pub uncached : ℕ
uncached = 0x07

-- The macro `PA`.
abbrev pub pa : ℕ → ℕ → ℕ
pa n val = val <<< (8 * n)

-- What `init` writes to the two registers, from what it reads there.
unfoldable pub mtrr_of : ℕ → ℕ
mtrr_of mtrr = bit_and mtrr 0xFFFFF300

unfoldable pub pat_of : ℕ → ℕ
pat_of pat_msr =
    let or1 = bit_or pat_msr (pa 0 write_back) in
    let or2 = bit_or or1 (pa 1 write_through) in
    let or3 = bit_or or2 (pa 2 uncached) in
    let or4 = bit_or or3 (pa 3 uncacheable) in bit_or or4 (pa 4 write_combining)

unfoldable pub do_sti : Board → Board
do_sti = say sti

unfoldable pub do_cli : Board → Board
do_cli = say cli

unfoldable pub do_int32 : Board → Board
do_int32 = say int32

-- The devices, the table of interrupts, what `lidt` has loaded, and whether the processor is in the
-- endless jump of `halt`.
pub record Processor : Type 0 where
  pub board : Board
  pub idt : Idt
  pub idtr : Option Idtr
  pub halted : Bool

-- Nothing that stands behind a call of `halt` is done.
unfoldable pub halt : Processor → Processor
halt p = record p { halted = true }

-- The handler that all stubs of src/interrupts/int.s call: src/interrupts/int.cpp.
unfoldable pub do_int : ℕ → ℕ → Processor → Processor
unfolding halt
do_int interrupt error = halt

-- The call of `idt::init`: the table is filled, and then `lidt` loads it.
unfoldable pub load_table : Idt × Idtr → Processor → Processor
load_table (idt, idtr) p = record p {
  board = say (load_idt idtr.limit idtr.base) p.board;
  idt = idt;
  idtr = some idtr;
}

-- The end of `init`, when the waits of the controller have ended. `none` is a wait that does not
-- end, behind which nothing is done.
abbrev pub let_in : Processor → Option Board → Option Processor
let_in p none = none
let_in p (some b) = some (record p { board = do_sti b })

module _ (device : Device) where
  -- `init` up to the table of interrupts.
  unfoldable pub set_types : Board → Board
  unfolding rdmsr wrmsr_to mtrr_of pat_of
  set_types b =
      let (mtrr, b1) = rdmsr device 0x2FF b in
      let (pat_msr, b2) = rdmsr device ia32_pat_msr (wrmsr_to 0x2FF (mtrr_of mtrr) b1) in
      wrmsr_to ia32_pat_msr (pat_of pat_msr) b2

  -- The addresses of the stubs and of the table are parameters. The first fuel is for the search of
  -- a free page, the second for the waits of the controller's `init`.
  unfoldable pub init : Stubs → ℕ → ℕ → ℕ → Processor → Cmd (Option Processor)
  unfolding set_types idt_init apic_init load_table
  init stub base pages fuel p = do
    let typed = record p { board = set_types p.board }
    let loaded = load_table (idt_init stub base p.idt) typed
    board ← apic_init device pages fuel loaded.board
    pure (let_in loaded board)
