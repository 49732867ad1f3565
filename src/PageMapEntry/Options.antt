-- ===== src/PageMapEntry/Options.antt =====
-- `setOption` and `getOption`.
use kmd.Base.{
  ℕ, ◌-◌, ◌/◌, ◌^◌, ◌<◌, ◌≡◌, ◌≢◌, ◌∙◌, sym, Bool, true, false, bit_and, bit_or, arith,
  if◌then◌else◌, not64, ==_refl, ne→==,
}
use kmd.Base.Bits.{
  bit_and_low, bit_or_lt, bit_and-le, bit_and-bit_or_self, bit_and-bit_or_apart, bit_and-clear,
  bit_and-clear_apart, bit_or-div, bit_and-div, bit_or-zero,
}
use kmd.Memory.{Memory, load64}
use kmd.Memory.Laws.{load64-lt, load64-store64_self}
use kmd.PageMapEntry.{PageMapEntry, get_address, get_option, put_option}
use kmd.PageMapEntry.Address.{get_address-eq}

module _ (m : Memory) (e : PageMapEntry) (option : ℕ) (fits : option < 2 ^ 64) where
  -- The word after `setOption`.
  abbrev pub changed : Bool → ℕ
  changed value =
      if value then bit_or (load64 m e.field) option else bit_and (load64 m e.field) (not64 option)

  changed-lt : (value : Bool) → changed value < 2 ^ 64
  changed-lt true = bit_or_lt 64 (load64 m e.field) option (load64-lt m e.field) fits
  changed-lt false = omega (arith, bit_and-le 64 (load64 m e.field) (not64 option) (omega arith))

  pub stored : (value : Bool) → load64 (put_option m e option value) e.field ≡ changed value
  unfolding put_option
  stored value = load64-store64_self m e.field (changed value) (changed-lt value)

  -- An option that is set reads as set.
  pub get_option-put_option-true : get_option (put_option m e option true) e option ≡ true
  unfolding get_option
  get_option-put_option-true =
      rw (stored true, bit_and-bit_or_self (load64 m e.field) option) (==_refl option)

  -- One that is cleared reads as clear.
  pub get_option-put_option-false :
      option ≢ 0 → get_option (put_option m e option false) e option ≡ false
  unfolding get_option
  get_option-put_option-false some_bit =
      rw (stored false, bit_and-clear 64 (load64 m e.field) option fits)
        (ne→== 0 option (λ z. some_bit (sym z)))

  -- Setting or clearing an option leaves the options alone that share no bit with it.
  pub get_option-put_option_apart :
      (value : Bool) (other : ℕ)
      → other < 2 ^ 64
      → bit_and option other ≡ 0
      → get_option (put_option m e option value) e other ≡ get_option m e other
  unfolding get_option
  get_option-put_option_apart true other fits' apart =
      rw (stored true, bit_and-bit_or_apart (load64 m e.field) option other apart)
  get_option-put_option_apart false other fits' apart =
      rw (stored false, bit_and-clear_apart 64 (load64 m e.field) option other fits fits' apart)

  changed-div : (value : Bool) → option < 4096 → changed value / 2 ^ 12 ≡ load64 m e.field / 2 ^ 12
  changed-div true low =
      let none' : option / 2 ^ 12 ≡ 0 = omega arith in
      rw (bit_or-div 12 (load64 m e.field) option, none') (bit_or-zero _)
  changed-div false low =
      let all : not64 option / 2 ^ 12 ≡ 2 ^ 52 - 1 = omega arith in
      rw (bit_and-div 12 (load64 m e.field) (not64 option), all)
        (omega (arith, bit_and_low 52 (load64 m e.field / 2 ^ 12), load64-lt m e.field))

  -- An option among the low twelve bits can be set or cleared without moving the address.
  pub get_address-put_option :
      (value : Bool) → option < 4096 → get_address (put_option m e option value) e ≡ get_address m e
  get_address-put_option value low =
      get_address-eq (put_option m e option value) e
      ∙ omega (arith, stored value, changed-div value low)
      ∙ sym (get_address-eq m e)
