-- ===== src/BootPaging/Build.antt =====
-- The end of src/entry/paging.cpp: the size of the memory, and `build_paging_table`.
use kmd.Base.{
  ℕ, zero, suc, ◌+◌, ◌*◌, ◌/◌, ◌^◌, false, ◌==◌, ltb, leb, if◌then◌else◌, Option, none, some, u8,
  u64, sub64, ◌<<<◌, ◌>>>◌,
}
use kmd.Memory.{Memory, store64}
use kmd.Chunk.{
  chunk_free, sizeof_allocated_chunk, set_size, set_prev, set_next, set_flags, set_prev_free,
  set_next_free,
}
use kmd.Mboot.{tag_loop}
use kmd.Mmap.{fin, entry_addr, entry_end}
use kmd.BootPaging.{Boot, page_size, alloc_pml4t, map_address_range, page_level_from_size}
use mathlib.Core.Option.{bind}

unfoldable pub get_mbit_tag : ℕ → Memory → ℕ → ℕ → Option ℕ
unfolding tag_loop
get_mbit_tag fuel m addr type = tag_loop fuel m (u64 (addr + 8)) type

-- The loop that divides the number of tables by the size of a table, from `i` to 4.
unfoldable pub table_loop : ℕ → ℕ → ℕ → ℕ
table_loop zero i ptt = ptt
table_loop (suc left) i ptt =
    let rest = table_loop left (i + 1) (ptt / 512 + 1) in if leb i 4 then rest else ptt

-- `i` is a byte, so the loop begins at `page_size % 256` and has five rounds at most.
unfoldable pub calc_hierarchy_size : ℕ → ℕ → ℕ → Option ℕ
unfolding table_loop page_level_from_size
calc_hierarchy_size zero size page = none
calc_hierarchy_size (suc fuel) size page =
    let whole = size / page in
    let nr_pages = if u64 (whole * page) == size then whole else whole + 1 in
    let ptt = table_loop 5 (u8 page) nr_pages in
    let tables = u64 (ptt * 512 * 8) in
    let rest = calc_hierarchy_size fuel tables page in
    if page == 0
    then none
    else if leb nr_pages 512
    then bind (page_level_from_size page) (λ level. some (level * 512 * 8))
    else bind rest (λ r. some (u64 (tables + r)))

-- The inner loop of `get_phy_size`.
unfoldable pub size_loop : ℕ → ℕ → ℕ → ℕ → Option ℕ
size_loop zero addr end size = none
size_loop (suc fuel) addr end size =
    let rest = size_loop fuel (u64 (addr + page_size)) end (u64 (size + page_size)) in
    if ltb addr end then rest else some size

-- The outer loop at entry `i`, with `left` entries to go.
unfoldable pub phy_loop : ℕ → ℕ → ℕ → ℕ → ℕ → Boot → Option (ℕ × Boot)
unfolding size_loop map_address_range
phy_loop fuel zero i mmap size b = some (size, b)
phy_loop fuel (suc left) i mmap size b =
    let end = entry_end b.memory mmap i in
    let addr = entry_addr b.memory mmap i in
    bind (map_address_range fuel addr addr (sub64 end addr) 1 b)
      (λ b'. bind (size_loop fuel addr end size) (λ s. phy_loop fuel left (i + 1) mmap s b'))

unfoldable pub get_phy_size : ℕ → ℕ → Boot → Option (ℕ × Boot)
unfolding phy_loop fin
get_phy_size fuel mmap b = bind (fin b.memory mmap) (λ entries. phy_loop fuel entries 0 mmap 0 b)

-- The symbols of the linker script, and `arena` of src/mm/mm.cpp.
pub record Symbols : Type 0 where
  pub start : ℕ
  pub end : ℕ
  pub kernel_virt : ℕ
  pub kernel_virt_end : ℕ

abbrev pub kernel_linear_addr : ℕ
kernel_linear_addr = 0xFFFFC00000000000

-- `sizeof` of `Page`, with its pointer to a virtual table, and of `Arena`.
abbrev pub sizeof_page : ℕ
sizeof_page = 32

abbrev pub sizeof_arena : ℕ
sizeof_arena = 8

-- The arena begins on the next page behind the kernel.
abbrev pub arena_of : Symbols → ℕ
arena_of s =
    u64 ((u64 (kernel_linear_addr + sub64 s.kernel_virt_end s.kernel_virt) >>> 12) + 1) <<< 12

-- The first chunk of the arena is the table of pages, and the free list begins behind it.
unfoldable pub init_chunk : ℕ → ℕ → Memory → Memory
init_chunk arena size m0 =
    let c = u64 (arena + sizeof_arena) in
    let m1 = set_next (set_prev (set_size m0 c size) c 0) c 0 in
    let m2 = set_next_free (set_prev_free (set_flags m1 c chunk_free false) c 0) c 0 in
    store64 m2 arena (u64 (c + size + sizeof_allocated_chunk))

-- The first map, and the two calls that map the kernel.
unfoldable pub map_kernel : ℕ → Symbols → Memory → Option Boot
unfolding alloc_pml4t map_address_range
map_kernel fuel s m =
    bind (map_address_range fuel s.start s.start (sub64 s.end s.start) 1 (alloc_pml4t s.end m))
      (λ b1.
        map_address_range fuel kernel_linear_addr s.kernel_virt
          (sub64 s.kernel_virt_end s.kernel_virt) 1 b1)

-- The result is the state and `arena`. The walk of the tags, the walks of the page maps and the
-- count of the pages take the same fuel each. A tag that is not there is read at address 0.
unfoldable pub build_paging_table : ℕ → Symbols → ℕ → Memory → Option (Boot × ℕ)
unfolding map_kernel map_address_range get_mbit_tag get_phy_size init_chunk
build_paging_table fuel s mbi m =
    let arna = arena_of s in
    bind (map_kernel fuel s m) (λ b2. bind (get_mbit_tag fuel b2.memory mbi 6) (λ mmap.
      bind (get_phy_size fuel mmap b2) (λ (phy_size, b3).
        let size = u64 ((phy_size >>> 12) * sizeof_page) in
        let len = u64 (sizeof_arena + sizeof_allocated_chunk + size) in
        bind (map_address_range fuel arna (u64 (b3.tmp_pt + 2 ^ 12)) len 1 b3)
          (λ b4. some (record b4 { memory = init_chunk arna size b4.memory }, arna)))))
