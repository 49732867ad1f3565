-- ===== src/Mmap.antt =====
-- The map of the memory that the boot loader leaves in a tag: `struct multiboot_tag_mmap` of
-- src/include/multiboot2.h, as src/entry/paging.cpp and src/mm/mm.cpp read it. An entry has 24 bytes
-- and the entries begin behind the 16 bytes of the tag.
use kmd.Base.{ℕ, ◌==◌, if◌then◌else◌, Option, none, some, ◌+◌, ◌*◌, ◌/◌, u64, sub64}
use kmd.Memory.{Memory, load32, load64}

unfoldable pub entry_addr : Memory → ℕ → ℕ → ℕ
entry_addr m mmap i = load64 m (mmap + 16 + 24 * i)

unfoldable pub entry_len : Memory → ℕ → ℕ → ℕ
entry_len m mmap i = load64 m (mmap + 16 + 24 * i + 8)

unfoldable pub entry_type : Memory → ℕ → ℕ → ℕ
entry_type m mmap i = load32 m (mmap + 16 + 24 * i + 16)

-- The number of entries. `none` is the divide error, when the tag says that an entry has no bytes.
unfoldable pub fin : Memory → ℕ → Option ℕ
fin m mmap =
    let entry_size = load32 m (mmap + 8) in
    if entry_size == 0 then none else some (sub64 (load32 m (mmap + 4)) 16 / entry_size)

-- `addr + len`.
unfoldable pub entry_end : Memory → ℕ → ℕ → ℕ
unfolding entry_addr entry_len
entry_end m mmap i = u64 (entry_addr m mmap i + entry_len m mmap i)
