-- ===== src/Tests/Assembly.antt =====
-- The stubs of the interrupts and the first instructions.
use kmd.Base.{
  ◌||◌, ◌&&◌, leb, ◌==◌, Bool, ℕ, ◌^◌, ◌≤◌, ◌<◌, ◌≡◌, refl, ap, sym, arith, false, true, [], ◌∷◌,
  none, some, bit_and,
}
use mathlib.Core.Option.{some_inj}
use kmd.Arch64.{Processor, do_int, halt}
use kmd.Stub.{
  Registers, Frame, Handler, handler_of, exec, stub, resumed, never_returns, ientry, step,
}
use kmd.Stub.Handle.{KeepsStack, delivered, interrupted, stub-handle}
use kmd.Entry.{EntryState, entry}
use kmd.Entry.Translate.{translate}
use kmd.Entry.Identity.{entry-identity}

abbrev zeros : Registers
zeros = record {
  rax = 0;
  rbx = 0;
  rcx = 0;
  rdx = 0;
  rbp = 0;
  rdi = 0;
  rsi = 0;
  r8 = 0;
  r9 = 0;
  r10 = 0;
  r11 = 0;
  r12 = 0;
  r13 = 0;
  r14 = 0;
  r15 = 0;
}

abbrev before : Registers
before = record zeros { rax = 1; rdi = 2; r15 = 3 }

-- A handler that returns with other registers.
clobber : Handler
clobber v e c = some (record c { registers = zeros })

clobber-KeepsStack : KeepsStack clobber
unfolding clobber
clobber-KeepsStack v e c c' h = ap (λ k. k.stack) (sym (some_inj.0 h))

abbrev here : Frame
here = record { rip = 0x1234; cs = 8; rflags = 0x202; rsp = 0x9000; ss = 16 }

-- The vectors with an error code: 8, 10 to 14, 17, 21, 29 and 30.
abbrev pushes : ℕ → Bool
pushes v =
    (v == 8) || ((leb 10 v && leb v 14) || ((v == 17) || ((v == 21) || ((v == 29) || (v == 30)))))

-- The double fault, whose error code is 0.
stub-handle_example :
    exec clobber 0x7000
      (stub 0x7000 8)
      (record { registers = before; stack = delivered (pushes 8) 0 here []; direction = true })
    ≡ interrupted (pushes 8) clobber 0x7000 8 before here [] 0
stub-handle_example =
    stub-handle pushes refl clobber clobber-KeepsStack 0x7000 8 before true here [] 0

resumed_run :
    exec clobber 0x7000
      (stub 0x7000 0x20)
      (record { registers = before; stack = delivered false 6 here (7 ∷ []); direction = true })
    ≡ resumed here before (7 ∷ [])
unfolding clobber exec stub ientry step
resumed_run = refl

never_returns_run :
    (p : Processor)
    → exec
        (handler_of p)
        0x7000
        (stub 0x7000 0x20)
        (record { registers = before; stack = delivered false 6 here []; direction = true })
      ≡ never_returns
unfolding exec stub ientry step handler_of do_int halt
never_returns_run p = refl

abbrev reset : EntryState
reset = record { memory = λ _. 0; cr0 = 0x60000011; cr3 = 0; cr4 = 0; efer = 0 }

entry-identity_example :
    (q : EntryState) × (entry 512 0x105000 reset ≡ some q)
    × ((address : ℕ) → address < 2 ^ 30 → translate q.memory q.cr3 address ≡ some address)
    × ((address : ℕ)
        → 2 ^ 30 ≤ address
        → address < 2 ^ 48
        → translate q.memory q.cr3 address ≡ none)
    × (bit_and q.cr0 (2 ^ 31) ≡ 2 ^ 31)
    × (bit_and q.cr4 (2 ^ 5) ≡ 2 ^ 5)
    × (bit_and q.efer (2 ^ 8) ≡ 2 ^ 8)
entry-identity_example =
    entry-identity 512 0x105000 reset (omega arith) (omega arith) (λ x _ _. refl) (omega arith)
