-- ===== src/Ranges.antt =====
-- The ranges of pages of src/mm/mm.cpp: `map`, `mapFirst`, and `salloc` and `kalloc` above them.
pub mod Lengths
pub mod Sources
pub mod MapFirst
pub mod Errors
pub mod Kalloc
use kmd.Base.{
  ℕ, zero, suc, ◌+◌, ◌-◌, ◌*◌, ◌/◌, ◌^◌, Bool, true, false, ◌||◌, ◌==◌, if◌then◌else◌, none, some,
  u64, ◌<<<◌, ◌>>>◌, sub64,
}
use kmd.Kernel.{Kernel, Run, ok, fault, out_of_fuel, Cmd, pure, ◌>>=◌, ◌>>◌}
use kmd.Zones.{get_free_page}
use kmd.Paging.{map_page, flush_tlb}
use kmd.Smalloc.{smalloc}

-- The number of pages that `map` and `mapFirst` take for a length.
unfoldable pub nr_pages : ℕ → ℕ
nr_pages len = if (len >>> 12) <<< 12 == len then len >>> 12 else u64 ((len >>> 12) + 1)

-- `(u64) dst + (i << 12)`, where page `i` goes.
abbrev pub page_dst : ℕ → ℕ → ℕ
page_dst dst i = u64 (dst + (i <<< 12))

-- `(u64) src + i << 12`, which is read from as page `i`: `+` binds before `<<`.
abbrev pub page_src : ℕ → ℕ → ℕ
page_src src i = u64 (src + i) <<< 12

-- The loop of `map` at page `i`, with `left` pages to go.
unfoldable pub map_loop : ℕ → ℕ → ℕ → ℕ → ℕ → ℕ → Bool → Cmd Bool
map_loop fuel zero i dst src flags pt_mod = pure pt_mod
map_loop fuel (suc left) i dst src flags pt_mod = do
  new ← map_page fuel (page_dst dst i) (page_src src i) flags
  map_loop fuel left (i + 1) dst src flags (pt_mod || new)

-- What `map` and `mapFirst` end with.
abbrev pub flush_if : Bool → Cmd (Unit {0})
flush_if pt_mod = if pt_mod then flush_tlb else pure tt

unfoldable pub map : ℕ → ℕ → ℕ → ℕ → ℕ → Cmd (Unit {0})
map fuel dst src len flags = map_loop fuel (nr_pages len) 0 dst src flags false >>= flush_if

-- `getFreePage()->getBase()`, with no test for a null pointer.
unfoldable pub free_base : ℕ → Cmd ℕ
free_base fuel = do
  pg ← get_free_page fuel
  elim pg [ none ↦ λ _. fault | some p ↦ λ k. ok (k.pages p).base k ]

-- The loop of `mapFirst` at page `i`.
unfoldable pub map_first_loop : ℕ → ℕ → ℕ → ℕ → ℕ → Bool → Cmd Bool
map_first_loop fuel zero i dst flags pt_mod = pure pt_mod
map_first_loop fuel (suc left) i dst flags pt_mod = do
  src ← free_base fuel
  new ← map_page fuel (page_dst dst i) src flags
  map_first_loop fuel left (i + 1) dst flags (pt_mod || new)

unfoldable pub map_first : ℕ → ℕ → ℕ → ℕ → Cmd (Unit {0})
map_first fuel dst len flags = map_first_loop fuel (nr_pages len) 0 dst flags false >>= flush_if

-- The start of the page of an address, and the length from there to the end of the block.
abbrev pub page_of : ℕ → ℕ
page_of ret = (ret >>> 12) <<< 12

abbrev pub len_of : ℕ → ℕ → ℕ
len_of ret size = u64 (sub64 ret (page_of ret) + size)

unfoldable pub salloc : ℕ → ℕ → ℕ → ℕ → ℕ → Cmd ℕ
salloc fuel src size alignement flags = do
  ret ← smalloc fuel size alignement
  if ret == 0 then pure ret else map fuel (page_of ret) src (len_of ret size) flags >> pure ret

unfoldable pub kalloc : ℕ → ℕ → ℕ → ℕ → Cmd ℕ
kalloc fuel size alignement flags = do
  ret ← smalloc fuel size alignement
  if ret == 0 then pure ret else map_first fuel (page_of ret) (len_of ret size) flags >> pure ret
