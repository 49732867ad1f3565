-- ===== src/Reg.antt =====
-- A register by its name: src/Reg.cpp, over `strcmp` of src/runtime/cstring.cpp. The text of the
-- literal "cr3" in src/Reg.cpp is at the address `literal`.
pub mod Flush
use kmd.Base.{ℕ, Bool, true, false, if◌then◌else◌, Option, none, some, ◌∷◌}
use kmd.Kernel.{Kernel, Run, ok, out_of_fuel, Cmd, load_cr3, ◌>>=◌}
use kmd.Strcmp.{Sign, minus, null, plus, strcmp}

-- `class Reg`, without the pointer to its virtual table: the address of the name.
pub record Reg : Type 0 where
  pub name : ℕ

abbrev pub is_zero : Sign → Bool
is_zero null = true
is_zero _ = false

-- The instruction `movq %rax, %cr3`, and what it does to the processor's translations.
abbrev pub move_to_cr3 : ℕ → Kernel → Kernel
move_to_cr3 val k = record k { cr3 = val; trace = load_cr3 val ∷ k.trace }

module _ (literal fuel : ℕ) where
  unfoldable pub set : Reg → ℕ → Cmd (Unit {0})
  set reg val k = elim (strcmp fuel k.memory reg.name literal) [
    | none ↦ out_of_fuel
    | some order ↦ ok tt (if is_zero order then move_to_cr3 val k else k)
  ]

  -- `ret` is not initialised; for another name the caller gets what is there, which is `garbage`.
  unfoldable pub get : ℕ → Reg → Cmd ℕ
  get garbage reg k = elim (strcmp fuel k.memory reg.name literal) [
    | none ↦ out_of_fuel
    | some order ↦ ok (if is_zero order then k.cr3 else garbage) k
  ]

  -- `flushTLB` of src/mm/mm.cpp, whose own literal "cr3" is at `name`.
  unfoldable pub flush_by_name : ℕ → ℕ → Cmd (Unit {0})
  unfolding get set
  flush_by_name garbage name = do
    let cr3 : Reg = record { name = name }
    tcr3 ← get garbage cr3
    set cr3 tcr3
