-- ===== src/Memory.antt =====
-- Byte-addressed memory with little-endian words, as the code reads and writes it by pointers.
pub mod Laws
use kmd.Base.{ℕ, zero, suc, ◌+◌, ◌*◌, ◌/◌, ◌%◌, ◌==◌, if◌then◌else◌}

-- What the byte at each address holds; a read takes it modulo 256.
abbrev pub Memory : Type 0
Memory = ℕ → ℕ

abbrev pub update : Memory → ℕ → ℕ → Memory
update m a v x = if x == a then v else m x

unfoldable pub load_bytes : ℕ → Memory → ℕ → ℕ
load_bytes zero m a = 0
load_bytes (suc n) m a = m a % 256 + 256 * load_bytes n m (a + 1)

unfoldable pub store_bytes : ℕ → Memory → ℕ → ℕ → Memory
store_bytes zero m a v = m
store_bytes (suc n) m a v = store_bytes n (update m a (v % 256)) (a + 1) (v / 256)

-- `*(u64 *) a`, and `*(u64 *) a = v`.
unfoldable pub load64 : Memory → ℕ → ℕ
load64 = load_bytes 8

unfoldable pub store64 : Memory → ℕ → ℕ → Memory
store64 = store_bytes 8

-- `*(u32 *) a`, and `*(u32 *) a = v`.
unfoldable pub load32 : Memory → ℕ → ℕ
load32 = load_bytes 4

unfoldable pub store32 : Memory → ℕ → ℕ → Memory
store32 = store_bytes 4
