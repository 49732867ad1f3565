-- ===== src/Mboot.antt =====
-- `getMBITag` of src/mboot.cpp: the walk of the tags that the boot loader leaves in memory. A tag
-- begins with its type and its size, two words of 32 bits (src/include/multiboot2.h).
pub mod Tags
use kmd.Base.{
  ℕ, zero, suc, ◌+◌, ◌-◌, ◌^◌, bit_and, ◌==◌, if◌then◌else◌, Option, none, some, u32, u64,
}
use kmd.Memory.{Memory, load32}

-- `MULTIBOOT_TAG_TYPE_END`.
abbrev pub tag_type_end : ℕ
tag_type_end = 0

unfoldable pub tag_type : Memory → ℕ → ℕ
tag_type m tag = load32 m tag

unfoldable pub tag_size : Memory → ℕ → ℕ
tag_size m tag = load32 m (tag + 4)

-- `(size + 7) & ~7` on 32 bits.
unfoldable pub round_up : ℕ → ℕ
round_up size = bit_and (u32 (size + 7)) (2 ^ 32 - 8)

unfoldable pub next_tag : Memory → ℕ → ℕ
next_tag m tag = u64 (tag + round_up (tag_size m tag))

-- The loop from `tag` on; `none` means that the fuel ran out.
unfoldable pub tag_loop : ℕ → Memory → ℕ → ℕ → Option ℕ
tag_loop zero m tag type = none
tag_loop (suc fuel) m tag type =
    let rest = tag_loop fuel m (next_tag m tag) type in
    if tag_type m tag == tag_type_end
    then some 0
    else if tag_type m tag == type
    then some tag
    else rest

-- The tags begin eight bytes behind the start of the boot information.
unfoldable pub get_mbi_tag : ℕ → Memory → ℕ → ℕ → Option ℕ
get_mbi_tag fuel m addr type = tag_loop fuel m (u64 (addr + 8)) type
