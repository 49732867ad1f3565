-- ===== src/Entry/Words.antt =====
-- Stores of 32 bits into words of 64 bits, as src/entry/entry.s fills its tables.
use kmd.Base.{ℕ, ◌+◌, ◌*◌, ◌^◌, ◌≤◌, ◌<◌, ◌≡◌, ap, ap₂, ◌∙◌, ◌/◌, ◌%◌, bit_or, ◌⊎◌, arith}
use Prim.Native.Nat.{bit_or-bitwise}
use kmd.Base.Bits.{bit_or-div, bit_or-zero}
use kmd.Base.Remainders.{bit_or-mod}
use kmd.Memory.{Memory, load_bytes, load32, load64, store32}
use kmd.Memory.Laws.{load_bytes-store_bytes-Apart, load_bytes-store_bytes_self, store_bytes-outside}

load64-halves : (m : Memory) (a : ℕ) → load64 m a ≡ load32 m a + 2 ^ 32 * load32 m (a + 4)
unfolding load64 load32 load_bytes
load64-halves m a =
    let behind : a + 1 + 1 + 1 + 1 ≡ a + 4 = omega arith in
    omega (arith, ap (load_bytes 4 m) behind)

load32-zero : (m : Memory) (a : ℕ) → ((x : ℕ) → a ≤ x → x < a + 4 → m x ≡ 0) → load32 m a ≡ 0
unfolding load32 load_bytes
load32-zero m a h = omega (
  arith,
  h a (omega arith) (omega arith),
  h (a + 1) (omega arith) (omega arith),
  h (a + 2) (omega arith) (omega arith),
  h (a + 3) (omega arith) (omega arith),
)

pub load64-zero : (m : Memory) (a : ℕ) → ((x : ℕ) → a ≤ x → x < a + 8 → m x ≡ 0) → load64 m a ≡ 0
load64-zero m a h = omega (
  arith,
  load64-halves m a,
  load32-zero m a (λ x p q. h x (omega arith) (omega arith)),
  load32-zero m (a + 4) (λ x p q. h x (omega arith) (omega arith)),
)

pub store32-outside : (m : Memory) (a v x : ℕ) → (x < a) ⊎ (a + 4 ≤ x) → store32 m a v x ≡ m x
unfolding store32
store32-outside m a v x h = store_bytes-outside 4 m a v x h

-- A store of 32 bits into the low half of a word of zeros makes the word the value.
pub load64-store32 :
    (m : Memory) (a v : ℕ)
    → v < 2 ^ 32
    → ((x : ℕ) → a ≤ x → x < a + 8 → m x ≡ 0)
    → load64 (store32 m a v) a ≡ v
unfolding load32 store32
load64-store32 m a v small h =
    let low = load_bytes-store_bytes_self 4 m a v (omega arith) in
    let high = load_bytes-store_bytes-Apart 4 4 m a v (a + 4) (omega arith) in
    omega (
      arith,
      load64-halves (store32 m a v) a,
      low,
      high,
      load32-zero m (a + 4) (λ x p q. h x (omega arith) (omega arith)),
    )

-- Bits below an aligned address are added to it.
pub bit_or_aligned : (x o : ℕ) → x % 2 ^ 12 ≡ 0 → o < 2 ^ 12 → bit_or x o ≡ x + o
bit_or_aligned x o aligned small =
    let high : bit_or x o / 2 ^ 12 ≡ x / 2 ^ 12 =
      let none_of : o / 2 ^ 12 ≡ 0 = omega arith in
      bit_or-div 12 x o ∙ ap (bit_or (x / 2 ^ 12)) none_of ∙ bit_or-zero (x / 2 ^ 12) in
    let low : bit_or x o % 2 ^ 12 ≡ o =
      let all_of : o % 2 ^ 12 ≡ o = omega arith in
      bit_or-mod 12 x o ∙ ap₂ bit_or aligned all_of ∙ bit_or-bitwise 0 o in
    omega arith
