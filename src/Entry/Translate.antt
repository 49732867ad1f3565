-- ===== src/Entry/Translate.antt =====
-- The translation of addresses by the processor in long mode, as its manual has it, for what
-- src/entry/entry.s makes.
use kmd.Base.{
  ℕ, zero, suc, ◌+◌, ◌-◌, ◌*◌, ◌/◌, ◌%◌, ◌^◌, ◌≡◌, refl, Bool, true, false, ◌==◌, if◌then◌else◌,
  Option, none, some,
}
use kmd.Memory.{Memory, load64}

-- The index into a table with `level` levels of tables below it, and the address in an entry that
-- leads to 2 ^ k bytes.
abbrev pub index : ℕ → ℕ → ℕ
index level address = address / 2 ^ (12 + 9 * level) % 512

abbrev pub frame : ℕ → ℕ → ℕ
frame k e = e / 2 ^ k % 2 ^ (52 - k) * 2 ^ k

-- An entry that leads to a large page: bit 7, in the two levels that have it.
abbrev pub is_large : ℕ → ℕ → Bool
is_large (suc zero) e = e / 2 ^ 7 % 2 == 1
is_large (suc (suc zero)) e = e / 2 ^ 7 % 2 == 1
is_large _ e = false

unfoldable pub walk : ℕ → Memory → ℕ → ℕ → Option ℕ
walk zero m page address = some (page + address % 2 ^ 12)
walk (suc level) m table address =
    let e = load64 m (table + 8 * index level address) in
    let large = frame (12 + 9 * level) e + address % 2 ^ (12 + 9 * level) in
    let below = walk level m (frame 12 e) address in
    if e % 2 == 0 then none else if is_large level e then some large else below

-- `table` is the address in `cr3`, of the table of the fourth level.
unfoldable pub translate : Memory → ℕ → ℕ → Option ℕ
translate m cr3 address = walk 4 m cr3 address

module _ (level : ℕ) (m : Memory) (table address e : ℕ)
    (at : load64 m (table + 8 * index level address) ≡ e) where
  pub walk-none : e % 2 ≡ 0 → walk (suc level) m table address ≡ none
  unfolding walk
  walk-none absent = rw (at, absent) refl

  pub walk-large :
      e % 2 ≡ 1
      → is_large level e ≡ true
      → walk (suc level) m table address
        ≡ some (frame (12 + 9 * level) e + address % 2 ^ (12 + 9 * level))
  unfolding walk
  walk-large present large = rw (at, present, large) refl

  pub walk-down :
      e % 2 ≡ 1
      → is_large level e ≡ false
      → walk (suc level) m table address ≡ walk level m (frame 12 e) address
  unfolding walk
  walk-down present small = rw (at, present, small) refl
