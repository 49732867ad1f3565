-- ===== src/Mboot/Tags.antt =====
-- `getMBITag` returns the first tag of a type.
use kmd.Base.{
  ℕ, zero, suc, ◌+◌, ◌-◌, ◌*◌, ◌/◌, ◌%◌, ◌^◌, ◌≤◌, ◌<◌, ◌≡◌, ◌≢◌, ◌==◌, ne→==, Bool-cases, inl, inr,
  if◌then◌else◌, some, List, [], ◌∷◌, arith, u64, u32, length,
}
use kmd.Base.Bits.{bit_and_high, bit_and_low}
use kmd.Memory.{Memory}
use kmd.Mboot.{tag_type, round_up, next_tag, tag_loop, get_mbi_tag, tag_type_end}

-- From `a` on stand the tags at the addresses `xs`, and then the end tag.
pub data Tags (m : Memory) : ℕ → List ℕ → Type 0 where
  end : {a : ℕ} → tag_type m a ≡ tag_type_end → Tags m a []
  tag :
      {a : ℕ} {xs : List ℕ}
      → tag_type m a ≢ tag_type_end
      → Tags m (next_tag m a) xs
      → Tags m a (a ∷ xs)

-- The first of the tags that has the type, or null.
unfoldable pub first_of_type : Memory → ℕ → List ℕ → ℕ
first_of_type m type [] = 0
first_of_type m type (a ∷ xs) = if tag_type m a == type then a else first_of_type m type xs

tag_loop-first :
    (fuel : ℕ) {m : Memory} {a : ℕ} {xs : List ℕ} (type : ℕ)
    → Tags m a xs
    → length xs < fuel
    → tag_loop fuel m a type ≡ some (first_of_type m type xs)
unfolding tag_loop first_of_type
tag_loop-first zero type tags h = absurd (omega arith)
tag_loop-first (suc fuel) type (end e) h = rw e
tag_loop-first (suc fuel) {m} type (tag {a} ne rest) h = elim (Bool-cases (tag_type m a == type)) [
  | inl hit ↦ rw (ne→== (tag_type m a) 0 ne, hit)
  | inr miss ↦ rw (ne→== (tag_type m a) 0 ne, miss) (tag_loop-first fuel type rest (omega arith))
]

-- On a list of tags that ends, with fuel for its tags, `getMBITag` returns: the address of the
-- first tag of the type, or null if there is none.
pub get_mbi_tag-first :
    (fuel : ℕ) (m : Memory) (addr type : ℕ) (xs : List ℕ)
    → Tags m (u64 (addr + 8)) xs
    → length xs < fuel
    → get_mbi_tag fuel m addr type ≡ some (first_of_type m type xs)
unfolding get_mbi_tag
get_mbi_tag-first fuel m addr type xs tags h = tag_loop-first fuel type tags h

round_up-eq : (size : ℕ) → round_up size ≡ u32 (size + 7) / 8 * 8
unfolding round_up
round_up-eq size =
    omega
      (arith, bit_and_high 3 (u32 (size + 7)) (2 ^ 29 - 1), bit_and_low 29 (u32 (size + 7) / 2 ^ 3))

-- The step between tags is the least multiple of eight that is not below the size, for a size that
-- leaves room to round up on 32 bits.
pub round_up_lem :
    (size : ℕ)
    → size + 7 < 2 ^ 32
    → (round_up size % 8 ≡ 0) × (size ≤ round_up size) × (round_up size < size + 8)
round_up_lem size h = omega (arith, round_up-eq size)
