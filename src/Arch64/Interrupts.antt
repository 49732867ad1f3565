-- ===== src/Arch64/Interrupts.antt =====
-- When src/arch64/arch64.cpp lets interrupts in: at the end of `init`, and not before.
use kmd.Base.{
  ℕ, zero, suc, ◌*◌, ◌/◌, ◌-◌, ◌^◌, ◌<◌, ◌≡◌, ◌∙◌, sym, refl, ap, Bool, true, false, not, ◌==◌,
  Option, none, some, List, [], ◌∷◌, leb, if◌then◌else◌, Bool-cases, inl, inr, bit_or,
}
use mathlib.Core.Option.{bind}
use kmd.Kernel.{Kernel, Run, ok, fault, out_of_fuel, and_then, pure, ◌>>◌}
use kmd.Hardware.{
  Board, Device, Sent, sti, load_idt, in8, rdmsr, get_reg, out8_to, wrmsr_to, set_reg,
}
use kmd.Pit.{
  set_mode, mode_two_set_divisor, get_count, wraparound_loop, wraparound, pit_hz, pit_wraparound_ms,
}
use kmd.Apic.{
  disable_pic, get_base, find_regs, get_version, read_freq, get_freq, start_timer, set_up, apic_svr,
  apic_timer_count, apic_timer_divide,
}
use kmd.Apic.{init as apic_init}
use kmd.Paging.{flush_tlb}
use kmd.Idt.{Stubs, Idtr, init as idt_init, lidt}
use kmd.Idt.Table.{offset, is_present, init-gates}
use kmd.Arch64.{Processor, set_types, load_table, do_sti, let_in, init}

-- How often interrupts were let in.
unfoldable pub stis : List Sent → ℕ
stis [] = 0
stis (sti ∷ rest) = suc (stis rest)
stis (_ ∷ rest) = stis rest

-- The table that was loaded last.
unfoldable pub loaded : List Sent → Option Idtr
loaded [] = none
loaded (load_idt limit base ∷ rest) = some (record { limit = limit; base = base })
loaded (_ ∷ rest) = loaded rest

abbrev heard : Board → ℕ × Option Idtr
heard b = (stis b.sent, loaded b.sent)

-- Between the two states of the board no interrupts were let in and no table was loaded.
abbrev Quiet : Board → Board → Type 0
Quiet b b' = heard b' ≡ heard b

-- The same of a result that has a board, if there is one.
abbrev Quiets {ℓ} : {A : Type ℓ} → (A → Board) → Board → Option A → Type 0
Quiets board b none = Unit
Quiets board b (some a) = Quiet b (board a)

abbrev itself : Board → Board
itself b = b

abbrev snd : ℕ × Board → Board
snd (_, b) = b

module _ {ℓ κ} {A : Type ℓ} {B : Type κ} (board : A → Board) (board' : B → Board) where
  Quiets-from : (b b' : Board) (o : Option B) → Quiet b b' → Quiets board' b' o → Quiets board' b o
  Quiets-from b b' none h h' = tt
  Quiets-from b b' (some a) h h' = h' ∙ h

  Quiets-bind :
      (b : Board) (o : Option A) (f : A → Option B)
      → Quiets board b o
      → ((a : A) → Quiets board' (board a) (f a))
      → Quiets board' b (bind o f)
  unfolding bind
  Quiets-bind b none f h g = tt
  Quiets-bind b (some a) f h g = Quiets-from b (board a) (f a) h (g a)

module _ (device : Device) where
  get_count-Quiet : (b : Board) → Quiet b (get_count device b).1
  unfolding stis loaded get_count set_mode in8 out8_to
  get_count-Quiet b = refl

  wraparound_loop-Quiets :
      (fuel count old_count : ℕ) (b0 b : Board)
      → Quiet b0 b
      → Quiets itself b0 (wraparound_loop device fuel count old_count b)
  unfolding wraparound_loop
  wraparound_loop-Quiets zero count old_count b0 b h = tt
  wraparound_loop-Quiets (suc fuel) count old_count b0 b h =
      elim (Bool-cases (leb count old_count)) [
        | inl more ↦ rw more (
            wraparound_loop-Quiets fuel (get_count device b).0 count b0 (get_count device b).1
              (get_count-Quiet b ∙ h))
        | inr risen ↦ rw risen h
      ]

  wraparound-Quiets : (fuel : ℕ) (b : Board) → Quiets itself b (wraparound device fuel b)
  unfolding wraparound
  wraparound-Quiets fuel b =
      wraparound_loop-Quiets fuel (get_count device b).0 (get_count device b).0 b
        (get_count device b).1 (get_count-Quiet b)

  get_freq-Quiets : (fuel : ℕ) (b : Board) → Quiets snd b (get_freq device fuel b)
  unfolding get_freq set_mode out8_to mode_two_set_divisor set_reg read_freq get_reg stis loaded
  get_freq-Quiets fuel b =
      Quiets-bind itself snd b
        (wraparound device fuel
          (mode_two_set_divisor (pit_hz * pit_wraparound_ms / 1000) (set_mode 0x34 b)))
        _
        (wraparound-Quiets fuel
          (mode_two_set_divisor (pit_hz * pit_wraparound_ms / 1000) (set_mode 0x34 b)))
        (λ b1.
          Quiets-bind itself snd b1
            (wraparound device fuel
              (set_reg apic_timer_count 0xFFFFFFFF (set_reg apic_timer_divide 0x0B b1)))
            _
            (wraparound-Quiets fuel
              (set_reg apic_timer_count 0xFFFFFFFF (set_reg apic_timer_divide 0x0B b1)))
            (λ b2. refl))

  set_up-Quiets : (fuel : ℕ) (b : Board) → Quiets itself b (set_up device fuel b)
  unfolding set_up get_version get_reg set_reg start_timer stis loaded
  set_up-Quiets fuel b =
      let b1 = (get_version device b).1 in
      let (svr, b2) = get_reg device apic_svr b1 in
      let b3 = set_reg apic_svr (bit_or (2 ^ 8) svr) b2 in
      Quiets-bind snd itself b (get_freq device fuel b3) _
        (Quiets-from itself snd b b3 (get_freq device fuel b3) refl (get_freq-Quiets fuel b3))
        (λ (khz, b4). refl)

  find_regs-Quiet : (b : Board) → Quiet b (find_regs device b)
  unfolding find_regs disable_pic out8_to get_base rdmsr stis loaded
  find_regs-Quiet b = refl

  set_types-Quiet : (b : Board) → Quiet b (set_types device b)
  unfolding set_types rdmsr wrmsr_to stis loaded
  set_types-Quiet b = refl

-- The controller's `init` behind `mapPage` returns the board that it was given.
mapped-board :
    (run : Run Bool) (o r : Option Board) (k : Kernel)
    → and_then run (λ new. (if new then flush_tlb else pure tt) >> pure o) ≡ ok r k
    → o ≡ r
unfolding flush_tlb
mapped-board (ok true k1) o r k e = cc e
mapped-board (ok false k1) o r k e = cc e
mapped-board fault o r k e = absurd (cc e)
mapped-board out_of_fuel o r k e = absurd (cc e)

-- The processor of `init` behind the call of `idt::init`.
abbrev with_table : Device → Stubs → ℕ → Processor → Processor
with_table device stub base p =
    load_table (idt_init stub base p.idt) (record p { board = set_types device p.board })

module _ (device : Device) (stub : Stubs) (base pages fuel : ℕ) (p p' : Processor)
    (k k' : Kernel) where
  abbrev IsEnabled : Type 0
  IsEnabled =
      (b : Board) × (set_up device fuel (find_regs device (with_table device stub base p).board)
        ≡ some b)
      × (p' ≡ record (with_table device stub base p) { board = do_sti b })

  from_board :
      (run : Run (Option Board))
      → ((r : Option Board) (k1 : Kernel)
          → run ≡ ok r k1
          → r ≡ set_up device fuel (find_regs device (with_table device stub base p).board))
      → and_then run (λ board. pure (let_in (with_table device stub base p) board))
        ≡ ok (some p') k'
      → IsEnabled
  from_board (ok none k1) same e = absurd (cc e)
  from_board (ok (some b) k1) same e = (b, sym (same (some b) k1 refl), cc e)
  from_board fault same e = absurd (cc e)
  from_board out_of_fuel same e = absurd (cc e)

  init-board : init device stub base pages fuel p k ≡ ok (some p') k' → IsEnabled
  unfolding init apic_init
  init-board e =
      from_board (apic_init device pages fuel (with_table device stub base p).board k)
        (λ r k1 run. sym (mapped-board _ _ r k1 run)) e

  -- `init`, when it returns, sends `sti` as the last thing and lets interrupts in only by that; when
  -- it does, the table that was loaded last is the one of 256 gates, and each vector whose stub has
  -- a 64-bit address leads to it and is present exactly if it is not vector 8.
  pub init-lets_in :
      (i : ℕ)
      → i < 256
      → stub i < 2 ^ 64
      → init device stub base pages fuel p k ≡ ok (some p') k'
      → ((before : List Sent) × (p'.board.sent ≡ sti ∷ before)
          × (stis before ≡ stis p.board.sent)
          × (loaded before ≡ some (lidt base (256 * 16 - 1))))
        × (p'.idtr ≡ some (lidt base (256 * 16 - 1)))
        × (offset (p'.idt i) ≡ stub i)
        × (is_present (p'.idt i) ≡ not (i == 8))
  unfolding do_sti idt_init load_table stis loaded lidt
  init-lets_in i small fits run =
      let (b, up, e) = init-board run in
      let b1 = (with_table device stub base p).board in
      let quiet = set_up-Quiets device fuel (find_regs device b1) in
      let (at, _, present) = init-gates stub base p.idt i small fits in
      let same = (rw up at quiet) ∙ find_regs-Quiet device b1 in
      let typed = set_types-Quiet device p.board in
      rw e (
        (b.sent, refl, ap (λ x. x.0) same ∙ ap (λ x. x.0) typed, ap (λ x. x.1) same),
        refl,
        at,
        present,
      )
