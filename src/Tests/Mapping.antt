-- ===== src/Tests/Mapping.antt =====
-- The page maps that the kernel is entered with.
use kmd.Base.{ℕ, ◌+◌, ◌-◌, ◌*◌, ◌/◌, ◌^◌, ◌≤◌, ◌<◌, ◌≡◌, ◌≢◌, ◌↔◌, refl, arith, some}
use kmd.Memory.{Memory}
use kmd.Paging.Tree.{Leaf}
use kmd.Paging.Tree.Walk.{page_number}
use kmd.BootPaging.{Boot, alloc_pml4t, map_address_range, start_of, range_len}
use kmd.BootPaging.Cover.{pages}
use kmd.BootPaging.Build.{Symbols, kernel_linear_addr, map_kernel}
use kmd.BootPaging.Tables.{IsBoot}
use kmd.BootPaging.Mapping.{map_address_range-maps}
use kmd.BootPaging.Start.{alloc_pml4t-IsBoot, IsKernel, build-kernel}

abbrev zeros : Memory
zeros _ = 0

abbrev start : Boot
start = alloc_pml4t 0x180000 zeros

map_address_range-maps_example :
    (b' : Boot) × (map_address_range 64 0x1800 0x3800 0x900 1 start ≡ some b')
    × IsBoot b'.tmp_pml4t b'
    × (b'.tmp_pml4t ≡ start.tmp_pml4t)
    × ((x : ℕ)
        → x < 0x900
        → Leaf b'.memory start.tmp_pml4t (0x1800 + x) ((0x3800 + x) / 2 ^ 12 * 2 ^ 12 + 3))
    × ((k : ℕ)
        → k * 2 ^ 12 ≤ range_len pages 0x1800 0x3800 0x900
        → Leaf b'.memory start.tmp_pml4t
            (start_of pages 0x1800 + k * 2 ^ 12)
            (start_of pages 0x3800 + k * 2 ^ 12 + 3))
    × ((a v : ℕ)
        → ((k : ℕ)
            → k * 2 ^ 12 ≤ range_len pages 0x1800 0x3800 0x900
            → page_number a ≢ page_number (start_of pages 0x1800 + k * 2 ^ 12))
        → Leaf start.memory start.tmp_pml4t a v ↔ Leaf b'.memory start.tmp_pml4t a v)
    × (b'.tmp_pt ≤ start.tmp_pt + 2 ^ 12 * (8 * (0x900 / 2 ^ 12) + 40))
map_address_range-maps_example =
    map_address_range-maps 64 0x1800 0x3800 0x900 start
      (alloc_pml4t-IsBoot 0x180000 zeros (omega arith)).0 (omega arith) refl (omega arith)
      (omega arith) (omega arith)
      (omega (arith, (alloc_pml4t-IsBoot 0x180000 zeros (omega arith)).1))

abbrev symbols : Symbols
symbols = record {
  start = 0x100000;
  end = 0x180000;
  kernel_virt = 0x110000;
  kernel_virt_end = 0x17F000;
}

symbols-IsKernel : IsKernel symbols
symbols-IsKernel = record {
  ordered = omega arith;
  low = omega arith;
  virt_aligned = refl;
  virt_ordered = omega arith;
  virt_low = omega arith;
}

build-kernel_example :
    (b : Boot) × (map_kernel (2 ^ 32) symbols zeros ≡ some b)
    × IsBoot b.tmp_pml4t b
    × ((x : ℕ)
        → x < 0x180000 - 0x100000
        → Leaf b.memory b.tmp_pml4t (0x100000 + x) ((0x100000 + x) / 2 ^ 12 * 2 ^ 12 + 3))
    × ((x : ℕ)
        → x < 0x17F000 - 0x110000
        → Leaf b.memory b.tmp_pml4t (kernel_linear_addr + x) ((0x110000 + x) / 2 ^ 12 * 2 ^ 12 + 3))
build-kernel_example = build-kernel (2 ^ 32) symbols zeros symbols-IsKernel (omega arith)
