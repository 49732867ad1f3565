-- ===== src/Base/Bits.antt =====
-- Laws of `bit_and` and `bit_or` at variables, by recursion on the binary digits.
use Prim.Native.Nat.{
  ℕ, zero, suc, ◌+◌, ◌-◌, ◌*◌, ◌/◌, ◌%◌, ◌^◌, ◌≤◌, ◌<◌, min, max, digits, bitwise, bit_and, bit_or,
  bit_and-bitwise, bit_or-bitwise,
}
use mathlib.Core.Path.{◌≡◌, refl, ap, subst, ◌∙◌}
use native.Mathlib.Nat.{
  pow-suc, one-le-pow, div-div-eq-div-mul, mul_comm, mod-lt, div-one, div-add-mod', mul-one,
}
use native.Mathlib.Omega.{arith}

-- `bitwise` starts with as much fuel as its first operand; fuel to spare does not change a result.
module _ (low : ℕ → ℕ) (op : ℕ → ℕ → ℕ) where
  digits-suc : (x y n : ℕ) → x ≤ n → digits low op (suc n) x y ≡ digits low op n x y
  digits-suc zero y zero h = refl
  digits-suc zero y (suc n) h = refl
  digits-suc (suc x) y zero h = absurd (omega arith)
  digits-suc (suc x) y (suc n) h = rw (digits-suc (suc x / 2) (y / 2) n (omega arith))

  digits_spare : (spare x y : ℕ) → digits low op (spare + x) x y ≡ digits low op x x y
  digits_spare zero x y = let empty : 0 + x ≡ x = omega arith in ap (λ n. digits low op n x y) empty
  digits_spare (suc spare) x y =
      let step : suc spare + x ≡ suc (spare + x) = omega arith in
      ap (λ n. digits low op n x y) step
      ∙ digits-suc x y (spare + x) (omega arith)
      ∙ digits_spare spare x y

  digits_half : (x y : ℕ) → digits low op x (suc x / 2) y ≡ bitwise low op (suc x / 2) y
  digits_half x y =
      let split : x - suc x / 2 + suc x / 2 ≡ x = omega arith in
      subst (λ n. digits low op n (suc x / 2) y ≡ bitwise low op (suc x / 2) y) split
        (digits_spare (x - suc x / 2) (suc x / 2) y)

pub bit_or_step : (x y : ℕ) → bit_or x y ≡ max (x % 2) (y % 2) + 2 * bit_or (x / 2) (y / 2)
bit_or_step zero y = simp bit_or-bitwise (omega arith)
bit_or_step (suc x) y = simp bit_or-bitwise (omega (arith, digits_half (λ d. d) max x (y / 2)))

pub bit_and_step : (x y : ℕ) → bit_and x y ≡ min (x % 2) (y % 2) + 2 * bit_and (x / 2) (y / 2)
bit_and_step zero y = simp bit_and-bitwise (omega arith)
bit_and_step (suc x) y = simp bit_and-bitwise (omega (arith, digits_half (λ d. 0) min x (y / 2)))

pub bit_or-half : (a b : ℕ) → bit_or a b / 2 ≡ bit_or (a / 2) (b / 2)
bit_or-half a b = omega (arith, bit_or_step a b)

bit_or-odd : (a b : ℕ) → bit_or a b % 2 ≡ max (a % 2) (b % 2)
bit_or-odd a b = omega (arith, bit_or_step a b)

pub bit_and-half : (a b : ℕ) → bit_and a b / 2 ≡ bit_and (a / 2) (b / 2)
bit_and-half a b = omega (arith, bit_and_step a b)

bit_and-odd : (a b : ℕ) → bit_and a b % 2 ≡ min (a % 2) (b % 2)
bit_and-odd a b = omega (arith, bit_and_step a b)

zero-bit_and : (b : ℕ) → bit_and 0 b ≡ 0
zero-bit_and b = bit_and-bitwise 0 b

-- `a & 0` and `a | 0`.
bit_and-zero_below : (k a : ℕ) → a < 2 ^ k → bit_and a 0 ≡ 0
bit_and-zero_below zero zero h = refl
bit_and-zero_below zero (suc a) h = absurd (omega arith)
bit_and-zero_below (suc k) a h =
    omega (arith, bit_and_step a 0, bit_and-zero_below k (a / 2) (omega (arith, pow-suc 2 k)))

-- Every number lies below a power of two, so what holds below each of them holds at every number.
lt_two_pow : (a : ℕ) → a < 2 ^ a
lt_two_pow zero = omega arith
lt_two_pow (suc a) = omega (arith, lt_two_pow a, pow-suc 2 a)

zero-bit_or : (b : ℕ) → bit_or 0 b ≡ b
zero-bit_or b = bit_or-bitwise 0 b

pub bit_and-zero : (a : ℕ) → bit_and a 0 ≡ 0
bit_and-zero a = bit_and-zero_below a a (lt_two_pow a)

bit_or-zero_below : (k a : ℕ) → a < 2 ^ k → bit_or a 0 ≡ a
bit_or-zero_below zero zero h = refl
bit_or-zero_below zero (suc a) h = absurd (omega arith)
bit_or-zero_below (suc k) a h =
    omega (arith, bit_or_step a 0, bit_or-zero_below k (a / 2) (omega (arith, pow-suc 2 k)))

pub bit_or-zero : (a : ℕ) → bit_or a 0 ≡ a
bit_or-zero a = bit_or-zero_below a a (lt_two_pow a)

-- Once ored in, an option is read back.
bit_and-bit_or_self_below : (k f o : ℕ) → o < 2 ^ k → bit_and (bit_or f o) o ≡ o
bit_and-bit_or_self_below zero f zero h = bit_and-zero (bit_or f 0)
bit_and-bit_or_self_below zero f (suc o) h = absurd (omega arith)
bit_and-bit_or_self_below (suc k) f o h =
    let ih = bit_and-bit_or_self_below k (f / 2) (o / 2) (omega (arith, pow-suc 2 k)) in
    rw (bit_and_step (bit_or f o) o, bit_or-half f o, bit_or-odd f o, ih) (omega arith)

pub bit_and-bit_or_self : (f o : ℕ) → bit_and (bit_or f o) o ≡ o
bit_and-bit_or_self f o = bit_and-bit_or_self_below o f o (lt_two_pow o)

-- Bits that a mask does not share with an option are left alone by oring the option in.
bit_and-bit_or_apart_below :
    (k f o p : ℕ) → p < 2 ^ k → bit_and o p ≡ 0 → bit_and (bit_or f o) p ≡ bit_and f p
bit_and-bit_or_apart_below zero f o zero h e = rw (bit_and-zero (bit_or f o), bit_and-zero f)
bit_and-bit_or_apart_below zero f o (suc p) h e = absurd (omega arith)
bit_and-bit_or_apart_below (suc k) f o p h e =
    let ih =
      bit_and-bit_or_apart_below k (f / 2) (o / 2) (p / 2) (omega (arith, pow-suc 2 k))
        (omega (arith, bit_and_step o p)) in
    rw (bit_and_step (bit_or f o) p, bit_or-half f o, bit_or-odd f o, ih)
      (omega (arith, bit_and_step o p, bit_and_step f p))

pub bit_and-bit_or_apart : (f o p : ℕ) → bit_and o p ≡ 0 → bit_and (bit_or f o) p ≡ bit_and f p
bit_and-bit_or_apart f o p e = bit_and-bit_or_apart_below p f o p (lt_two_pow p) e

-- `f & ~o` has no bit of `o`, at every width that holds `o`.
pub bit_and-clear : (k f o : ℕ) → o < 2 ^ k → bit_and (bit_and f (2 ^ k - 1 - o)) o ≡ 0
bit_and-clear zero f zero h = bit_and-zero _
bit_and-clear zero f (suc o) h = absurd (omega arith)
bit_and-clear (suc k) f o h =
    let e : (2 ^ suc k - 1 - o) / 2 ≡ 2 ^ k - 1 - o / 2 = omega (arith, pow-suc 2 k) in
    let d : (2 ^ suc k - 1 - o) % 2 ≡ 1 - o % 2 = omega (arith, pow-suc 2 k) in
    let c = 2 ^ suc k - 1 - o in
    let ih = bit_and-clear k (f / 2) (o / 2) (omega (arith, pow-suc 2 k)) in
    rw (bit_and_step (bit_and f c) o, bit_and-half f c, bit_and-odd f c, e, d, ih) (omega arith)

-- `f & ~o` keeps the bits of a mask that shares none with `o`.
pub bit_and-clear_apart :
    (k f o p : ℕ)
    → o < 2 ^ k
    → p < 2 ^ k
    → bit_and o p ≡ 0
    → bit_and (bit_and f (2 ^ k - 1 - o)) p ≡ bit_and f p
bit_and-clear_apart zero f o zero ho hp e =
    rw (bit_and-zero (bit_and f (2 ^ 0 - 1 - o)), bit_and-zero f)
bit_and-clear_apart zero f o (suc p) ho hp e = absurd (omega arith)
bit_and-clear_apart (suc k) f o p ho hp z =
    let e : (2 ^ suc k - 1 - o) / 2 ≡ 2 ^ k - 1 - o / 2 = omega (arith, pow-suc 2 k) in
    let d : (2 ^ suc k - 1 - o) % 2 ≡ 1 - o % 2 = omega (arith, pow-suc 2 k) in
    let c = 2 ^ suc k - 1 - o in
    let ih =
      bit_and-clear_apart k (f / 2) (o / 2) (p / 2) (omega (arith, pow-suc 2 k))
        (omega (arith, pow-suc 2 k)) (omega (arith, bit_and_step o p)) in
    rw (bit_and_step (bit_and f c) p, bit_and-half f c, bit_and-odd f c, e, d, ih)
      (omega (arith, bit_and_step o p, bit_and_step f p))

pub div-two-pow-suc : (k a : ℕ) → a / 2 ^ suc k ≡ a / 2 / 2 ^ k
div-two-pow-suc k a = rw (div-div-eq-div-mul a 2 (2 ^ k), pow-suc 2 k, mul_comm 2 (2 ^ k))

-- A shift to the right goes through `|`.
pub bit_or-div : (k a b : ℕ) → bit_or a b / 2 ^ k ≡ bit_or (a / 2 ^ k) (b / 2 ^ k)
bit_or-div zero a b = rw (div-one (bit_or a b), div-one a, div-one b)
bit_or-div (suc k) a b = rw (
  div-two-pow-suc k (bit_or a b),
  div-two-pow-suc k a,
  div-two-pow-suc k b,
  bit_or-half a b,
  bit_or-div k (a / 2) (b / 2),
)

-- A shift to the right goes through `&`.
pub bit_and-div : (k a b : ℕ) → bit_and a b / 2 ^ k ≡ bit_and (a / 2 ^ k) (b / 2 ^ k)
bit_and-div zero a b = rw (div-one (bit_and a b), div-one a, div-one b)
bit_and-div (suc k) a b = rw (
  div-two-pow-suc k (bit_and a b),
  div-two-pow-suc k a,
  div-two-pow-suc k b,
  bit_and-half a b,
  bit_and-div k (a / 2) (b / 2),
)

shift-suc : (x n : ℕ) → x * 2 ^ suc n ≡ x * 2 ^ n + x * 2 ^ n
shift-suc x n = rw (pow-suc 2 n) (grind arith)

-- `r | (q << k)` is a sum when `r` fits `k` bits.
pub bit_or_fields : (k r q : ℕ) → r < 2 ^ k → bit_or r (q * 2 ^ k) ≡ q * 2 ^ k + r
bit_or_fields zero zero q h = rw zero-bit_or (omega arith)
bit_or_fields zero (suc r) q h = absurd (omega arith)
bit_or_fields (suc k) r q h =
    let half : q * 2 ^ suc k / 2 ≡ q * 2 ^ k = omega (arith, shift-suc q k) in
    let ih = bit_or_fields k (r / 2) q (omega (arith, pow-suc 2 k)) in
    rw (bit_or_step r (q * 2 ^ suc k), half, ih) (omega (arith, shift-suc q k))

low_ones : (k q r : ℕ) → r < 2 ^ k → bit_and (q * 2 ^ k + r) (2 ^ k - 1) ≡ r
low_ones zero q r h = rw (bit_and-zero (q * 2 ^ 0 + r)) (omega arith)
low_ones (suc k) q r h =
    let a = q * 2 ^ suc k + r in
    let half : a / 2 ≡ q * 2 ^ k + r / 2 = omega (arith, shift-suc q k) in
    let ones : (2 ^ suc k - 1) / 2 ≡ 2 ^ k - 1 = omega (arith, pow-suc 2 k) in
    let ih = low_ones k q (r / 2) (omega (arith, pow-suc 2 k)) in
    rw (bit_and_step a (2 ^ suc k - 1), half, ones, ih)
      (omega (arith, shift-suc q k, pow-suc 2 k, one-le-pow k 2))

-- A mask of `k` low ones is the remainder by `2 ^ k`.
pub bit_and_low : (k a : ℕ) → bit_and a (2 ^ k - 1) ≡ a % 2 ^ k
bit_and_low k a =
    let parts : a / 2 ^ k * 2 ^ k + a % 2 ^ k ≡ a = div-add-mod' a (2 ^ k) in
    rw parts at (low_ones k (a / 2 ^ k) (a % 2 ^ k) (mod-lt a (one-le-pow k 2 (omega arith))))

-- A mask of high bits cuts the low ones off.
pub bit_and_high : (k a q : ℕ) → bit_and a (q * 2 ^ k) ≡ bit_and (a / 2 ^ k) q * 2 ^ k
bit_and_high zero a q = rw (mul-one q, div-one a, mul-one (bit_and a q))
bit_and_high (suc k) a q =
    let half : q * 2 ^ suc k / 2 ≡ q * 2 ^ k = omega (arith, shift-suc q k) in
    rw (bit_and_step a (q * 2 ^ suc k), half, bit_and_high k (a / 2) q, div-two-pow-suc k a)
      (omega (arith, shift-suc q k, shift-suc (bit_and (a / 2 / 2 ^ k) q) k))

-- `a & -(1 << 12)` on u64 rounds down to a page.
pub bit_and_page : (a : ℕ) → a < 2 ^ 64 → bit_and a (2 ^ 64 - 4096) ≡ a / 4096 * 4096
bit_and_page a h = omega (arith, bit_and_high 12 a (2 ^ 52 - 1), bit_and_low 52 (a / 2 ^ 12))

-- Or does not leave the width of its operands.
pub bit_or_lt : (k a b : ℕ) → a < 2 ^ k → b < 2 ^ k → bit_or a b < 2 ^ k
bit_or_lt zero zero b ha hb = rw zero-bit_or hb
bit_or_lt zero (suc a) b ha hb = absurd (omega arith)
bit_or_lt (suc k) a b ha hb = omega (
  arith,
  bit_or_step a b,
  pow-suc 2 k,
  bit_or_lt k (a / 2) (b / 2) (omega (arith, pow-suc 2 k)) (omega (arith, pow-suc 2 k)),
)

-- A mask of fewer than `k` bits sees the low `k` bits alone.
pub bit_and_fields : (k q r o : ℕ) → o < 2 ^ k → bit_and (q * 2 ^ k + r) o ≡ bit_and r o
bit_and_fields zero q r zero h = rw (bit_and-zero (q * 2 ^ 0 + r), bit_and-zero r)
bit_and_fields zero q r (suc o) h = absurd (omega arith)
bit_and_fields (suc k) q r o h =
    let a = q * 2 ^ suc k + r in
    let half : a / 2 ≡ q * 2 ^ k + r / 2 = omega (arith, shift-suc q k) in
    let ih = bit_and_fields k q (r / 2) (o / 2) (omega (arith, pow-suc 2 k)) in
    rw (bit_and_step a o, half, ih) (omega (arith, bit_and_step r o, shift-suc q k))

-- And does not exceed its second operand.
pub bit_and-le : (k a b : ℕ) → b < 2 ^ k → bit_and a b ≤ b
bit_and-le zero a zero h = rw (bit_and-zero a) (omega arith)
bit_and-le zero a (suc b) h = absurd (omega arith)
bit_and-le (suc k) a b h =
    omega (arith, bit_and_step a b, bit_and-le k (a / 2) (b / 2) (omega (arith, pow-suc 2 k)))
