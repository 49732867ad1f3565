-- ===== src/Chunk.antt =====
-- Chunks of the arena: src/include/arena.h, src/include/Chunk.h and src/mm/Chunk.cpp. A chunk is
-- known by the address of its header, so a method takes the memory and that address; one that
-- writes returns the new memory. As on the machine, address 0 is memory like any other.
pub mod Fields
pub mod Merge
pub mod Split
pub mod Chain
pub mod Free
use kmd.Base.{
  ℕ, ◌+◌, ◌-◌, ◌^◌, Bool, true, false, not, bit_and, bit_or, ◌==◌, ltb, if◌then◌else◌, u64, sub64,
  not64,
}
use kmd.Memory.{Memory, load64, store64}

-- `sizeof` of the two packed headers, and the only flag.
abbrev pub sizeof_allocated_chunk : ℕ
sizeof_allocated_chunk = 32

abbrev pub sizeof_free_chunk : ℕ
sizeof_free_chunk = 48

abbrev pub chunk_free : ℕ
chunk_free = 1

-- The fields of `AllocatedChunk`, which are the first four of `FreeChunk`.
pub record Header : Type 0 where
  pub size : ℕ
  pub flags : ℕ
  pub prev : ℕ
  pub next : ℕ

unfoldable pub get_size : Memory → ℕ → ℕ
get_size m c = load64 m c

unfoldable pub get_flags : Memory → ℕ → ℕ
get_flags m c = load64 m (c + 8)

unfoldable pub get_prev : Memory → ℕ → ℕ
get_prev m c = load64 m (c + 16)

unfoldable pub get_next : Memory → ℕ → ℕ
get_next m c = load64 m (c + 24)

unfoldable pub is_free : Memory → ℕ → Bool
unfolding get_flags
is_free m c = not (bit_and (get_flags m c) chunk_free == 0)

-- The links of the free list are there only in a free chunk.
unfoldable pub get_prev_free : Memory → ℕ → ℕ
get_prev_free m c = if is_free m c then load64 m (c + 32) else 0

unfoldable pub get_next_free : Memory → ℕ → ℕ
get_next_free m c = if is_free m c then load64 m (c + 40) else 0

unfoldable pub set_size : Memory → ℕ → ℕ → Memory
set_size m c size = store64 m c size

unfoldable pub set_flags : Memory → ℕ → ℕ → Bool → Memory
set_flags m c flags value =
    let n = get_flags m c in
    store64 m (c + 8) (if value then bit_or n flags else bit_and n (not64 flags))

unfoldable pub set_free : Memory → ℕ → Memory
unfolding set_flags
set_free m c = set_flags m c chunk_free true

unfoldable pub set_prev : Memory → ℕ → ℕ → Memory
set_prev m c addr = store64 m (c + 16) addr

unfoldable pub set_next : Memory → ℕ → ℕ → Memory
set_next m c addr = store64 m (c + 24) addr

unfoldable pub set_prev_free : Memory → ℕ → ℕ → Memory
set_prev_free m c addr = if is_free m c then store64 m (c + 32) addr else m

unfoldable pub set_next_free : Memory → ℕ → ℕ → Memory
set_next_free m c addr = if is_free m c then store64 m (c + 40) addr else m

unfoldable pub get_full_size : Memory → ℕ → ℕ
get_full_size m c =
    if is_free m c
    then u64 (get_size m c + sizeof_free_chunk)
    else u64 (get_size m c + sizeof_allocated_chunk)

unfoldable pub merge : Memory → ℕ → ℕ → Memory
merge m c1 c2 =
    let c3 = get_next m c2 in
    let m1 = set_prev m c3 c1 in
    let m2 = set_next m1 c1 c3 in set_size m2 c1 (u64 (get_size m2 c1 + get_full_size m2 c2))

-- The writes of `split`, behind its two guards.
unfoldable pub cut : Memory → ℕ → ℕ → Memory
cut m c1 new_size =
    let c3 = get_next m c1 in
    let m1 = set_size m c1 new_size in
    let c2 = u64 (c1 + sizeof_free_chunk + new_size) in
    let m2 = set_size m1 c2 (sub64 (sub64 (get_size m1 c1) new_size) sizeof_free_chunk) in
    let m3 = set_next m2 c1 c2 in
    let m4 = set_prev m3 c2 c1 in let m5 = set_next m4 c2 c3 in set_prev m5 c3 c2

unfoldable pub split : Memory → ℕ → ℕ → Memory
split m c new_size =
    if is_free m c
    then if ltb (sub64 (get_size m c) sizeof_free_chunk) new_size then m else cut m c new_size
    else m

-- `free` in its three steps: the flag, the chunk behind, the chunk before.
unfoldable pub join_next : Memory → ℕ → Memory
join_next m c = if is_free m (get_next m c) then merge m c (get_next m c) else m

unfoldable pub join_prev : Memory → ℕ → Memory
join_prev m c = if is_free m (get_prev m c) then merge m (get_prev m c) c else m

unfoldable pub free : Memory → ℕ → Memory
free m c = if is_free m c then m else join_prev (join_next (set_free m c) c) c
