-- ===== src/PageMapEntry/Address.antt =====
-- `setAddress` and `getAddress`.
use kmd.Base.{ℕ, ◌+◌, ◌-◌, ◌*◌, ◌/◌, ◌%◌, ◌^◌, ◌<◌, ◌≡◌, ◌∙◌, ap, sym, bit_and, bit_or, arith, ◌==◌}
use kmd.Base.Bits.{bit_and_low, bit_and_page, bit_or_fields, bit_or_lt, bit_and_fields}
use kmd.Memory.{Memory, load64, store64}
use kmd.Memory.Laws.{load64-lt, load64-store64_self}
use kmd.PageMapEntry.{PageMapEntry, get_address, get_field, get_option, set_address}

module _ (m : Memory) (e : PageMapEntry) where
  -- The address is the word rounded down to a page.
  pub get_address-eq : get_address m e ≡ load64 m e.field / 4096 * 4096
  unfolding get_address
  get_address-eq = bit_and_page (load64 m e.field) (load64-lt m e.field)

  module _ (address : ℕ) (fits : address < 2 ^ 64) (aligned : address % 4096 ≡ 0) where
    low-lt : bit_and (load64 m e.field) (2 ^ 12 - 1) < 2 ^ 64
    low-lt = omega (arith, bit_and_low 12 (load64 m e.field))

    ored :
        bit_or (bit_and (load64 m e.field) (2 ^ 12 - 1)) address ≡ address + load64 m e.field % 4096
    ored =
        let pages : address / 4096 * 4096 ≡ address = omega arith in
        let sum = bit_or_fields 12 (load64 m e.field % 4096) (address / 4096) (omega arith) in
        rw bit_and_low (rw pages at sum)

    -- A page's address goes in beside the low twelve bits, which stay.
    pub get_field-set_address :
        get_field (set_address m e address) e ≡ address + get_field m e % 4096
    unfolding get_field set_address
    get_field-set_address =
        let w = bit_and (load64 m e.field) (2 ^ 12 - 1) in
        let m1 = store64 m e.field w in
        let kept = load64-store64_self m e.field w low-lt in
        load64-store64_self m1 e.field (bit_or (load64 m1 e.field) address)
          (bit_or_lt 64 (load64 m1 e.field) address (load64-lt m1 e.field) fits)
        ∙ ap (λ (t : ℕ). bit_or t address) kept
        ∙ ored

    -- It is read back whole.
    pub get_address-set_address : get_address (set_address m e address) e ≡ address
    get_address-set_address = bit_and_page_field ∙ omega (arith, get_field-set_address)
      where
        bit_and_page_field :
            get_address (set_address m e address) e
            ≡ get_field (set_address m e address) e / 4096 * 4096
        bit_and_page_field =
            unfold get_address get_field in
            bit_and_page (load64 (set_address m e address) e.field)
              (load64-lt (set_address m e address) e.field)

    -- The options among the low twelve bits stay as they are.
    pub get_option-set_address :
        (option : ℕ)
        → option < 4096
        → get_option (set_address m e address) e option ≡ get_option m e option
    unfolding get_option get_field
    get_option-set_address option low =
        ap (λ (t : ℕ). t == option)
          (ap (λ (t : ℕ). bit_and t option) new
            ∙ bit_and_fields 12 (address / 4096) (get_field m e % 4096) option low
            ∙ sym (bit_and_fields 12 (get_field m e / 4096) (get_field m e % 4096) option low)
            ∙ ap (λ (t : ℕ). bit_and t option) old)
      where
        new : get_field (set_address m e address) e ≡ address / 4096 * 2 ^ 12 + get_field m e % 4096
        new = omega (arith, get_field-set_address)

        old : get_field m e / 4096 * 2 ^ 12 + get_field m e % 4096 ≡ get_field m e
        old = omega arith
