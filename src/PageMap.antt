-- ===== src/PageMap.antt =====
-- src/include/PageMap.h and src/mm/PageMap.cpp: a table of 512 entries.
pub mod Clear
use kmd.Base.{ℕ, zero, suc, ◌+◌, ◌*◌, u64, u16}
use kmd.Memory.{Memory, store64}
use kmd.PageMapEntry.{PageMapEntry, entry_at, get_address}

pub record PageMap : Type 0 where
  pub fields : ℕ

-- The three constructors.
abbrev pub null_map : PageMap
null_map = record { fields = 0 }

abbrev pub map_at : ℕ → PageMap
map_at fields = record { fields = fields }

unfoldable pub map_of_entry : Memory → PageMapEntry → PageMap
map_of_entry m pme = map_at (get_address m pme)

abbrev pub get_entry : PageMap → ℕ → PageMapEntry
get_entry p index = entry_at p.fields index

abbrev pub get_fields : PageMap → ℕ
get_fields p = p.fields

-- The loop of `clear` at `i`, with `left` rounds to go.
unfoldable pub clear_loop : ℕ → ℕ → PageMap → Memory → Memory
clear_loop zero i p m = m
clear_loop (suc left) i p m = clear_loop left (i + 1) p (store64 m (u64 (p.fields + 8 * i)) 0)

unfoldable pub clear : PageMap → Memory → Memory
clear p m = clear_loop 512 0 p m
