-- ===== src/Main.antt =====
-- The entry of the kernel: `kMain` of src/kernel.cpp.
use kmd.Base.{ℕ, List, Option, none, some}
use kmd.Kernel.{Zone, Cmd, pure, ◌>>=◌, ◌>>◌}
use kmd.Hardware.{Device}
use kmd.Idt.{Stubs}
use kmd.ParseMmap.{Compare}
use kmd.Mm.{init as mm_init}
use kmd.Arch64.{Processor, halt, init as arch64_init}

abbrev halt_opt : Option Processor → Option Processor
halt_opt none = none
halt_opt (some p) = some (halt p)

-- What the linker and the compiler place: the boot page maps, the stubs and the table of
-- interrupts; and the fuel of the walks of memory and of the waits.
module _ (qsort : (Compare → List Zone → List Zone)) (device : Device) (tmp_pml4t : ℕ)
    (stub : Stubs) (idt_base fuel waits : ℕ) where
  -- `magic` is not looked at. The result is `none` when a wait does not end within its fuel.
  unfoldable pub k_main : ℕ → ℕ → Processor → Cmd (Option Processor)
  unfolding mm_init arch64_init halt
  k_main addr magic p = do
    mm_init qsort fuel tmp_pml4t addr
    started ← arch64_init device stub idt_base fuel waits p
    pure (halt_opt started)
