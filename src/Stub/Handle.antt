-- ===== src/Stub/Handle.antt =====
-- What the stubs of src/interrupts/int.s do: they call the handler with the vector and the error code
-- and go back to what was interrupted.
use kmd.Base.{
  ℕ, ◌≡◌, ◌≢◌, refl, Bool, true, false, ◌==◌, if◌then◌else◌, Option, none, some, List, [], ◌∷◌,
  ◌++◌, subst, sym, Bool-cases, inl, inr, ==_refl, ne→==, ◌∙◌, ap, ==_iff, ==_false→ne,
}
use kmd.Stub.{
  Registers, add_rsp, iretq, restores, step, Cpu, Frame, Outcome, resumed, never_returns, Handler,
  exec, ientry, stub, and_then, after_call,
}

-- What the processor pushes: the frame, and for some vectors an error code.
abbrev pub frame_words : Frame → List ℕ → List ℕ
frame_words f rest = f.rip ∷ f.cs ∷ f.rflags ∷ f.rsp ∷ f.ss ∷ rest

abbrev pub delivered : Bool → ℕ → Frame → List ℕ → List ℕ
delivered pushes e f rest = if pushes then e ∷ frame_words f rest else frame_words f rest

-- The stack that the handler is called with: the registers over the error code.
abbrev pub saved : Registers → List ℕ → List ℕ
saved r s =
    r.r15 ∷ r.r14 ∷ r.r13 ∷ r.r12 ∷ r.r11 ∷ r.r10 ∷ r.r9 ∷ r.r8 ∷ r.rsi ∷ r.rdi ∷ r.rbp ∷ r.rdx
    ∷ r.rcx ∷ r.rbx ∷ r.rax ∷ s

-- The state that the handler is called in.
abbrev pub called : ℕ → ℕ → ℕ → Registers → List ℕ → Cpu
called address v e r s = record {
  registers = record r { rdi = v; rsi = e; rax = address };
  stack = saved r (e ∷ s);
  direction = false;
}

-- A handler that returns leaves the stack as it was. The registers may have changed.
abbrev pub KeepsStack : Handler → Type 0
KeepsStack handler = (v e : ℕ) (c c' : Cpu) → handler v e c ≡ some c' → c'.stack ≡ c.stack

-- An interrupt as the interrupted program sees it: the handler runs, and if it returns the program
-- goes on at `f` with the registers that it had.
unfoldable pub handle : Handler → ℕ → ℕ → ℕ → Registers → Frame → List ℕ → Outcome
handle handler address v e r f rest =
    elim (handler v e (called address v e r (frame_words f rest))) [
      | none ↦ never_returns
      | some c ↦ resumed f r rest
    ]

-- The code behind the call.
module _ (handler : Handler) (address : ℕ) (r : Registers) (e : ℕ) (f : Frame) (rest : List ℕ) where
  restore :
      (c : Cpu)
      → c.stack ≡ saved r (e ∷ frame_words f rest)
      → exec handler address (restores ++ (add_rsp 8 ∷ iretq ∷ [])) c ≡ resumed f r rest
  restore c at =
      subst
        (λ s.
          exec handler address (restores ++ (add_rsp 8 ∷ iretq ∷ [])) (record c { stack = s })
          ≡ resumed f r rest)
        (sym at) (unfold exec step in refl)

module _ (handler : Handler) (keeps : KeepsStack handler) (address v : ℕ) (r : Registers)
    (direction : Bool) (f : Frame) (rest : List ℕ) where
  -- The two forms of the macro, on a stack that begins as each expects.
  ientry-handle :
      (e : ℕ)
      → exec handler address
          (ientry address v true)
          (record { registers = r; stack = e ∷ frame_words f rest; direction = direction })
        ≡ handle handler address v e r f rest
  unfolding exec ientry handle step
  ientry-handle e =
      rw (==_refl address)
        (ends (handler v e (called address v e r (frame_words f rest))) (λ c. keeps v e _ c))
    where
      ends :
          (o : Option Cpu)
          → ((c : Cpu) → o ≡ some c → c.stack ≡ saved r (e ∷ frame_words f rest))
          → and_then handler address
              (after_call o)
              (exec handler address (restores ++ (add_rsp 8 ∷ iretq ∷ [])))
            ≡ elim o as (λ _. Outcome) [ none ↦ never_returns | some c ↦ resumed f r rest ]
      ends none h = refl
      ends (some c) h = restore handler address r e f rest c (h c refl)

  ientry-push :
      exec handler address
        (ientry address v false)
        (record { registers = r; stack = frame_words f rest; direction = direction })
      ≡ exec handler address
          (ientry address v true)
          (record { registers = r; stack = 0 ∷ frame_words f rest; direction = direction })
  unfolding exec ientry step
  ientry-push = refl

-- What is left of a frame that is read one word too low.
abbrev pub shifted : ℕ → Frame → Frame
shifted e f = record { rip = e; cs = f.rip; rflags = f.cs; rsp = f.rflags; ss = f.rsp }

pub stub-shifted :
    (handler : Handler) (keeps : KeepsStack handler) (address v : ℕ) (r : Registers)
    (direction : Bool) (f : Frame) (rest : List ℕ) (e : ℕ)
    → v ≢ 0x0E
    → exec handler address
        (stub address v)
        (record { registers = r; stack = delivered true e f rest; direction = direction })
      ≡ handle handler address v 0 r (shifted e f) (f.ss ∷ rest)
unfolding stub
stub-shifted handler keeps address v r direction f rest e other =
    let push = ientry-push handler keeps address v r direction (shifted e f) (f.ss ∷ rest) in
    let run = ientry-handle handler keeps address v r direction (shifted e f) (f.ss ∷ rest) 0 in
    rw (ne→== v 0x0E other) (push ∙ run)

-- What the stub of a vector makes of an interrupt, by whether the processor pushes an error code.
abbrev pub interrupted : Bool → Handler → ℕ → ℕ → Registers → Frame → List ℕ → ℕ → Outcome
interrupted pushes handler address v r f rest e =
    if v == 0x0E
    then handle handler address v e r f rest
    else if pushes
    then handle handler address v 0 r (shifted e f) (f.ss ∷ rest)
    else handle handler address v 0 r f rest

-- When the processor pushes an error code for the vectors of a set that has 0x0E in it, and for no
-- other one, the stub calls a handler that leaves the stack as it was with the vector and, for 0x0E,
-- the error code, otherwise 0. If the handler returns, all registers have the values that they had,
-- and the interrupted program goes on where it was, if the vector is 0x0E or has no error code; for
-- the other vectors of the set `iretq` takes its frame from one word too low, where the error code
-- is.
pub stub-handle :
    (pushes : ℕ → Bool) (has_page_fault : pushes 0x0E ≡ true) (handler : Handler)
    (keeps : KeepsStack handler) (address v : ℕ) (r : Registers) (direction : Bool) (f : Frame)
    (rest : List ℕ) (e : ℕ)
    → exec handler address
        (stub address v)
        (record { registers = r; stack = delivered (pushes v) e f rest; direction = direction })
      ≡ interrupted (pushes v) handler address v r f rest e
unfolding stub
stub-handle pushes has_page_fault handler keeps address v r direction f rest e =
    elim (Bool-cases (v == 0x0E)) [
      | inl page_fault ↦
          let code : pushes v ≡ true = ap pushes ((==_iff v 0x0E).0 page_fault) ∙ has_page_fault in
          rw (code, page_fault) (ientry-handle handler keeps address v r direction f rest e)
      | inr other ↦ elim (Bool-cases (pushes v)) [
        | inl code ↦
            rw (code, other)
              (rw other at (
                stub-shifted handler keeps address v r direction f rest e
                  (==_false→ne v 0x0E other)))
        | inr none' ↦
            rw (none', other)
              (ientry-push handler keeps address v r direction f rest
                ∙ ientry-handle handler keeps address v r direction f rest 0)
      ]
    ]
