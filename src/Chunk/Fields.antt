-- ===== src/Chunk/Fields.antt =====
-- What each accessor of `Chunk` does to the header of its chunk and to the headers of the others.
use kmd.Base.{
  ℕ, ◌+◌, ◌^◌, ◌≤◌, ◌<◌, ◌≡◌, refl, ◌⊎◌, Bool, true, not, arith, bit_and, bit_or, ◌==◌, u64,
  if◌then◌else◌, ap,
}
use kmd.Base.Bits.{bit_or_lt, bit_and-bit_or_self}
use kmd.Memory.{Memory, load64, store64}
use kmd.Memory.Laws.{Apart, load64-lt, load64-store64_self, load64-store64-Apart}
use kmd.Chunk.{
  Header, get_size, get_flags, get_prev, get_next, is_free, get_full_size, set_size, set_free,
  set_prev, set_next, chunk_free, sizeof_free_chunk, sizeof_allocated_chunk,
}

-- The header that the four getters read.
abbrev pub header : Memory → ℕ → Header
header m c = record {
  size = get_size m c;
  flags = get_flags m c;
  prev = get_prev m c;
  next = get_next m c;
}

-- Two headers that have no byte in common.
abbrev pub Disjoint : ℕ → ℕ → Type 0
Disjoint c d = (c + 32 ≤ d) ⊎ (d + 32 ≤ c)

pub header-store-Apart :
    (m : Memory) (a v c : ℕ) → Apart a 8 c 32 → header (store64 m a v) c ≡ header m c
unfolding get_size get_flags get_prev get_next
header-store-Apart m a v c h = ground (
  arith,
  load64-store64-Apart m a v c,
  load64-store64-Apart m a v (c + 8),
  load64-store64-Apart m a v (c + 16),
  load64-store64-Apart m a v (c + 24),
)

module _ (m : Memory) (c v : ℕ) (fits : v < 2 ^ 64) where
  pub header-set_size : header (set_size m c v) c ≡ record (header m c) { size = v }
  unfolding set_size get_size get_flags get_prev get_next
  header-set_size = ground (
    arith,
    load64-store64_self m c v,
    load64-store64-Apart m c v (c + 8),
    load64-store64-Apart m c v (c + 16),
    load64-store64-Apart m c v (c + 24),
  )

  pub header-set_prev : header (set_prev m c v) c ≡ record (header m c) { prev = v }
  unfolding set_prev get_size get_flags get_prev get_next
  header-set_prev = ground (
    arith,
    load64-store64_self m (c + 16) v,
    load64-store64-Apart m (c + 16) v (c + 8),
    load64-store64-Apart m (c + 16) v c,
    load64-store64-Apart m (c + 16) v (c + 24),
  )

  pub header-set_next : header (set_next m c v) c ≡ record (header m c) { next = v }
  unfolding set_next get_size get_flags get_prev get_next
  header-set_next = ground (
    arith,
    load64-store64_self m (c + 24) v,
    load64-store64-Apart m (c + 24) v (c + 8),
    load64-store64-Apart m (c + 24) v c,
    load64-store64-Apart m (c + 24) v (c + 16),
  )

module _ (m : Memory) (c v d : ℕ) (apart : Disjoint c d) where
  pub header-set_size_other : header (set_size m c v) d ≡ header m d
  unfolding set_size
  header-set_size_other = header-store-Apart m c v d (omega arith)

  pub header-set_prev_other : header (set_prev m c v) d ≡ header m d
  unfolding set_prev
  header-set_prev_other = header-store-Apart m (c + 16) v d (omega arith)

  pub header-set_next_other : header (set_next m c v) d ≡ header m d
  unfolding set_next
  header-set_next_other = header-store-Apart m (c + 24) v d (omega arith)

-- The chunk's full extent and its flag, as functions of the header.
abbrev pub flag : Header → Bool
flag h = not (bit_and h.flags chunk_free == 0)

abbrev pub extent : Header → ℕ
extent h =
    if flag h then u64 (h.size + sizeof_free_chunk) else u64 (h.size + sizeof_allocated_chunk)

module _ (m m' : Memory) (c : ℕ) (same : header m' c ≡ header m c) where
  pub is_free-header : is_free m' c ≡ is_free m c
  unfolding is_free get_flags
  is_free-header = ap flag same

  pub get_full_size-header : get_full_size m' c ≡ get_full_size m c
  unfolding get_full_size is_free get_flags get_size
  get_full_size-header = ap extent same

-- Setting the free flag: the flag is set, and the header is otherwise as it was.
pub header-set_free :
    (m : Memory) (c : ℕ)
    → header (set_free m c) c ≡ record (header m c) { flags = bit_or (get_flags m c) chunk_free }
unfolding set_free get_size get_flags get_prev get_next
header-set_free m c =
    let v = bit_or (load64 m (c + 8)) 1 in
    ground (
      arith,
      bit_or_lt 64 (load64 m (c + 8)) 1,
      load64-lt m (c + 8),
      load64-store64_self m (c + 8) v,
      load64-store64-Apart m (c + 8) v c,
      load64-store64-Apart m (c + 8) v (c + 16),
      load64-store64-Apart m (c + 8) v (c + 24),
    )

pub header-set_free_other :
    (m : Memory) (c d : ℕ) → Disjoint c d → header (set_free m c) d ≡ header m d
unfolding set_free
header-set_free_other m c d apart = header-store-Apart m (c + 8) _ d (omega arith)

pub set_free-is_free : (m : Memory) (c : ℕ) → is_free (set_free m c) c ≡ true
unfolding is_free get_flags
set_free-is_free m c =
    rw
      (ap (λ (h : Header). h.flags) (header-set_free m c), bit_and-bit_or_self (load64 m (c + 8)) 1)

pub get_full_size-extent : (m : Memory) (c : ℕ) → get_full_size m c ≡ extent (header m c)
unfolding get_full_size is_free
get_full_size-extent m c = refl

pub is_free-flag : (m : Memory) (c : ℕ) → is_free m c ≡ flag (header m c)
unfolding is_free
is_free-flag m c = refl
