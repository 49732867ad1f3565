-- ===== src/Base/Remainders.antt =====
-- The low bits of `bit_or`: the remainder by a power of two.
use Prim.Native.Nat.{ℕ, zero, suc, ◌+◌, ◌*◌, ◌/◌, ◌%◌, ◌^◌, bit_or}
use mathlib.Core.Path.{◌≡◌, refl}
use native.Mathlib.Nat.{pow-suc, div-add-mod', mod-one}
use native.Mathlib.Omega.{arith}
use kmd.Base.Bits.{bit_or_step, bit_or-half, div-two-pow-suc}

mod-two-pow-suc : (a k : ℕ) → a % 2 ^ suc k ≡ a % 2 + 2 * (a / 2 % 2 ^ k)
mod-two-pow-suc a k =
    let q = a / 2 / 2 ^ k in
    let shifted : q * 2 ^ suc k ≡ 2 * (q * 2 ^ k) = rw (pow-suc 2 k) (grind arith) in
    let whole : q * 2 ^ suc k + a % 2 ^ suc k ≡ a =
      rw (div-two-pow-suc k a) at (div-add-mod' a (2 ^ suc k)) in
    omega (arith, div-add-mod' (a / 2) (2 ^ k), whole, shifted)

pub bit_or-mod : (k a b : ℕ) → bit_or a b % 2 ^ k ≡ bit_or (a % 2 ^ k) (b % 2 ^ k)
bit_or-mod zero a b = rw (mod-one (bit_or a b), mod-one a, mod-one b) refl
bit_or-mod (suc k) a b =
    let x = a % 2 ^ suc k in
    let y = b % 2 ^ suc k in
    let half_x : x / 2 ≡ a / 2 % 2 ^ k = omega (arith, mod-two-pow-suc a k) in
    let half_y : y / 2 ≡ b / 2 % 2 ^ k = omega (arith, mod-two-pow-suc b k) in
    let rest = bit_or-mod k (a / 2) (b / 2) in
    let half = bit_or-half a b in
    rw (mod-two-pow-suc (bit_or a b) k, half, rest, bit_or_step x y, half_x, half_y)
      (omega (arith, bit_or_step a b, mod-two-pow-suc a k, mod-two-pow-suc b k))
