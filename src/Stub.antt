-- ===== src/Stub.antt =====
-- The stubs that the gates of the interrupt table lead to: src/interrupts/int.s, instruction by
-- instruction, on the registers and the stack that a stub finds.
pub mod Handle
use kmd.Base.{
  ℕ, zero, suc, ◌/◌, Bool, true, false, ◌==◌, if◌then◌else◌, Option, none, some, List, [], ◌∷◌,
  ◌++◌, get_elem?,
}
use kmd.Arch64.{Processor, halt, do_int}

-- The general registers, less the stack pointer.
pub record Registers : Type 0 where
  pub rax : ℕ
  pub rbx : ℕ
  pub rcx : ℕ
  pub rdx : ℕ
  pub rbp : ℕ
  pub rdi : ℕ
  pub rsi : ℕ
  pub r8 : ℕ
  pub r9 : ℕ
  pub r10 : ℕ
  pub r11 : ℕ
  pub r12 : ℕ
  pub r13 : ℕ
  pub r14 : ℕ
  pub r15 : ℕ

pub data Register : Type 0 where
  rax rbx rcx rdx rbp rdi rsi r8 r9 r10 r11 r12 r13 r14 r15 : Register

abbrev pub get_register : Register → Registers → ℕ
get_register rax r = r.rax
get_register rbx r = r.rbx
get_register rcx r = r.rcx
get_register rdx r = r.rdx
get_register rbp r = r.rbp
get_register rdi r = r.rdi
get_register rsi r = r.rsi
get_register r8 r = r.r8
get_register r9 r = r.r9
get_register r10 r = r.r10
get_register r11 r = r.r11
get_register r12 r = r.r12
get_register r13 r = r.r13
get_register r14 r = r.r14
get_register r15 r = r.r15

abbrev pub set_register : Register → ℕ → Registers → Registers
set_register rax v r = record r { rax = v }
set_register rbx v r = record r { rbx = v }
set_register rcx v r = record r { rcx = v }
set_register rdx v r = record r { rdx = v }
set_register rbp v r = record r { rbp = v }
set_register rdi v r = record r { rdi = v }
set_register rsi v r = record r { rsi = v }
set_register r8 v r = record r { r8 = v }
set_register r9 v r = record r { r9 = v }
set_register r10 v r = record r { r10 = v }
set_register r11 v r = record r { r11 = v }
set_register r12 v r = record r { r12 = v }
set_register r13 v r = record r { r13 = v }
set_register r14 v r = record r { r14 = v }
set_register r15 v r = record r { r15 = v }

-- The words at the stack pointer and above it, the lowest address first, and the direction flag.
pub record Cpu : Type 0 where
  pub registers : Registers
  pub stack : List ℕ
  pub direction : Bool

-- What `iretq` takes from the stack.
pub record Frame : Type 0 where
  pub rip : ℕ
  pub cs : ℕ
  pub rflags : ℕ
  pub rsp : ℕ
  pub ss : ℕ

-- The instructions of a stub. Offsets from the stack pointer are in bytes.
pub data Instruction : Type 0 where
  push_imm : ℕ → Instruction
  push pop : Register → Instruction
  cld : Instruction
  mov_imm : ℕ → Register → Instruction
  load_stack : ℕ → Register → Instruction
  call : Register → Instruction
  add_rsp : ℕ → Instruction
  iretq : Instruction

-- A run goes on behind an instruction, or goes back to what was interrupted, or a function that it
-- calls never returns, or it reads beyond the words of the stack or calls an unknown address.
pub data Outcome : Type 0 where
  next : Cpu → Outcome
  resumed : Frame → Registers → List ℕ → Outcome
  never_returns : Outcome
  lost : Outcome

-- A function with two arguments, and the state that it is called in; `none` when it never returns. The
-- address to return to is pushed by the call and popped by the return, and is not on the stack here.
abbrev pub Handler : Type 0
Handler = ℕ → ℕ → Cpu → Option Cpu

-- `do_int` of src/interrupts/int.cpp as the code that a stub calls: it returns unless it halts the
-- processor.
unfoldable pub handler_of : Processor → Handler
unfolding do_int halt
handler_of p interrupt error c = if (do_int interrupt error p).halted then none else some c

abbrev pub drop_words : ℕ → List ℕ → Option (List ℕ)
drop_words zero s = some s
drop_words (suc n) [] = none
drop_words (suc n) (w ∷ s) = drop_words n s

abbrev pub pop_to : Register → Cpu → Outcome
pop_to r c = elim c.stack [
  | [] ↦ lost
  | w ∷ s ↦ next (record c { registers = set_register r w c.registers; stack = s })
]

abbrev pub return_from : Cpu → Outcome
return_from c = elim c.stack [
  | [] ↦ lost
  | a ∷ s1 ↦ elim s1 [
    | [] ↦ lost
    | b ∷ s2 ↦ elim s2 [
      | [] ↦ lost
      | d ∷ s3 ↦ elim s3 [
        | [] ↦ lost
        | e ∷ s4 ↦ elim s4 [
          | [] ↦ lost
          | f ∷ s5 ↦
              resumed (record { rip = a; cs = b; rflags = d; rsp = e; ss = f }) c.registers s5
        ]
      ]
    ]
  ]
]

abbrev pub after_call : Option Cpu → Outcome
after_call none = never_returns
after_call (some c) = next c

-- `handler` stands at `address`. A call finds its arguments in `rdi` and `rsi`.
module _ (handler : Handler) (address : ℕ) where
  unfoldable pub step : Instruction → Cpu → Outcome
  step (push_imm v) c = next (record c { stack = v ∷ c.stack })
  step (push r) c = next (record c { stack = get_register r c.registers ∷ c.stack })
  step (pop r) c = pop_to r c
  step cld c = next (record c { direction = false })
  step (mov_imm v r) c = next (record c { registers = set_register r v c.registers })
  step (load_stack offset r) c = elim (get_elem? c.stack (offset / 8)) [
    | none ↦ lost
    | some w ↦ next (record c { registers = set_register r w c.registers })
  ]
  step (call r) c =
      if get_register r c.registers == address
      then after_call (handler c.registers.rdi c.registers.rsi c)
      else lost
  step (add_rsp n) c = elim (drop_words (n / 8) c.stack) [
    | none ↦ lost
    | some s ↦ next (record c { stack = s })
  ]
  step iretq c = return_from c

  abbrev pub and_then : Outcome → (Cpu → Outcome) → Outcome
  and_then (next c) f = f c
  and_then (resumed f r s) _ = resumed f r s
  and_then never_returns _ = never_returns
  and_then lost _ = lost

  unfoldable pub exec : List Instruction → Cpu → Outcome
  unfolding step
  exec [] c = next c
  exec (i ∷ code) c = and_then (step i c) (exec code)

abbrev pub saves : List Instruction
saves =
    push rax
    ∷ push rbx
    ∷ push rcx
    ∷ push rdx
    ∷ push rbp
    ∷ push rdi
    ∷ push rsi
    ∷ push r8
    ∷ push r9
    ∷ push r10
    ∷ push r11
    ∷ push r12
    ∷ push r13
    ∷ push r14
    ∷ push r15
    ∷ []

abbrev pub restores : List Instruction
restores =
    pop r15
    ∷ pop r14
    ∷ pop r13
    ∷ pop r12
    ∷ pop r11
    ∷ pop r10
    ∷ pop r9
    ∷ pop r8
    ∷ pop rsi
    ∷ pop rdi
    ∷ pop rbp
    ∷ pop rdx
    ∷ pop rcx
    ∷ pop rbx
    ∷ pop rax
    ∷ []

-- The macro `ientry`; `err` tells whether the processor has pushed an error code.
unfoldable pub ientry : ℕ → ℕ → Bool → List Instruction
ientry address interrupt err =
    (if err then [] else push_imm 0x00 ∷ [])
    ++ saves
    ++ (cld ∷ mov_imm interrupt rdi ∷ load_stack 120 rsi ∷ mov_imm address rax ∷ call rax ∷ [])
    ++ restores
    ++ (add_rsp 8 ∷ iretq ∷ [])

-- The stub of each vector from 0x00 to 0xFF.
unfoldable pub stub : ℕ → ℕ → List Instruction
unfolding ientry
stub address interrupt = ientry address interrupt (interrupt == 0x0E)
