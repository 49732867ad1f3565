-- ===== src/Memory/Laws.antt =====
-- What a load sees of a store, and what it does not.
use kmd.Base.{ℕ, zero, suc, ◌+◌, ◌/◌, ◌%◌, ◌^◌, ◌≤◌, ◌<◌, ◌≡◌, refl, ◌⊎◌, arith, pow-suc}
use kmd.Memory.{Memory, update, load_bytes, store_bytes, load64, store64}

-- The `n` bytes at `a` and the `k` bytes at `b` have none in common.
abbrev pub Apart : ℕ → ℕ → ℕ → ℕ → Type 0
Apart a n b k = (a + n ≤ b) ⊎ (b + k ≤ a)

pub store_bytes-outside :
    (n : ℕ) (m : Memory) (a v x : ℕ) → (x < a) ⊎ (a + n ≤ x) → store_bytes n m a v x ≡ m x
unfolding store_bytes
store_bytes-outside zero m a v x h = refl
store_bytes-outside (suc n) m a v x h =
    ground (arith, store_bytes-outside n (update m a (v % 256)) (a + 1) (v / 256) x)

pub load_bytes-lt : (n : ℕ) (m : Memory) (a : ℕ) → load_bytes n m a < 256 ^ n
unfolding load_bytes
load_bytes-lt zero m a = omega arith
load_bytes-lt (suc n) m a = omega (arith, load_bytes-lt n m (a + 1), pow-suc 256 n)

pub load_bytes-congr :
    (n : ℕ) (m m' : Memory) (a : ℕ)
    → ((x : ℕ) → a ≤ x → x < a + n → m x ≡ m' x)
    → load_bytes n m a ≡ load_bytes n m' a
unfolding load_bytes
load_bytes-congr zero m m' a h = refl
load_bytes-congr (suc n) m m' a h = omega (
  arith,
  h a (omega arith) (omega arith),
  load_bytes-congr n m m' (a + 1) (λ x p q. h x (omega arith) (omega arith)),
)

pub load_bytes-store_bytes-Apart :
    (n k : ℕ) (m : Memory) (a v b : ℕ)
    → Apart a k b n
    → load_bytes n (store_bytes k m a v) b ≡ load_bytes n m b
load_bytes-store_bytes-Apart n k m a v b h =
    load_bytes-congr n _ _ b (λ x p q. store_bytes-outside k m a v x (omega arith))

pub load_bytes-store_bytes_self :
    (n : ℕ) (m : Memory) (a v : ℕ) → v < 256 ^ n → load_bytes n (store_bytes n m a v) a ≡ v
unfolding load_bytes store_bytes
load_bytes-store_bytes_self zero m a v h = omega arith
load_bytes-store_bytes_self (suc n) m a v h = ground (
  arith,
  pow-suc 256 n,
  store_bytes-outside n (update m a (v % 256)) (a + 1) (v / 256) a,
  load_bytes-store_bytes_self n (update m a (v % 256)) (a + 1) (v / 256),
)

pub load64-lt : (m : Memory) (a : ℕ) → load64 m a < 2 ^ 64
unfolding load64
load64-lt m a = load_bytes-lt 8 m a

pub load64-store64_self : (m : Memory) (a v : ℕ) → v < 2 ^ 64 → load64 (store64 m a v) a ≡ v
unfolding load64 store64
load64-store64_self m a v h = load_bytes-store_bytes_self 8 m a v h

pub load64-store64-Apart :
    (m : Memory) (a v b : ℕ) → Apart a 8 b 8 → load64 (store64 m a v) b ≡ load64 m b
unfolding load64 store64
load64-store64-Apart m a v b h = load_bytes-store_bytes-Apart 8 8 m a v b h

pub store64-outside : (m : Memory) (a v x : ℕ) → (x < a) ⊎ (a + 8 ≤ x) → store64 m a v x ≡ m x
unfolding store64
store64-outside m a v x h = store_bytes-outside 8 m a v x h

pub load64-congr :
    (m m' : Memory) (a : ℕ) → ((x : ℕ) → a ≤ x → x < a + 8 → m x ≡ m' x) → load64 m a ≡ load64 m' a
unfolding load64
load64-congr m m' a h = load_bytes-congr 8 m m' a h
