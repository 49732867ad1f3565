-- ===== src/PageMapEntry.antt =====
-- src/include/PageMapEntry.h and src/mm/PageMapEntry.cpp: one word of a page map.
pub mod Address
pub mod Options
use kmd.Base.{
  ℕ, ◌+◌, ◌-◌, ◌*◌, ◌^◌, Bool, bit_and, bit_or, ◌==◌, if◌then◌else◌, u16, u64, not64, ◌>>>◌, ◌∷◌,
}
use kmd.Memory.{Memory, load64, store64}
use kmd.Kernel.{Kernel, Event, invlpg, ok, Cmd, emit, invalidate_tlb_entry, ◌>>=◌, ◌>>◌, write}

abbrev pub pme_present : ℕ
pme_present = 1

abbrev pub pme_rw : ℕ
pme_rw = 2

abbrev pub pme_pwt : ℕ
pme_pwt = 8

abbrev pub pme_pcd : ℕ
pme_pcd = 16

pub record PageMapEntry : Type 0 where
  pub field : ℕ
  pub parent : ℕ
  pub index : ℕ

-- The three constructors. `parent + index` counts words of eight bytes.
abbrev pub null_entry : PageMapEntry
null_entry = record { field = 0; parent = 0; index = 0 }

abbrev pub entry_at : ℕ → ℕ → PageMapEntry
entry_at parent index = record { field = u64 (parent + 8 * index); parent = parent; index = index }

abbrev pub entry_of_field : ℕ → PageMapEntry
entry_of_field field = record {
  field = field;
  parent = bit_or (field >>> 9) 0xFF80000000000000;
  index = u16 (bit_and (field >>> 12) 0xFFF);
}

unfoldable pub get_address : Memory → PageMapEntry → ℕ
get_address m e = bit_and (load64 m e.field) (2 ^ 64 - 4096)

unfoldable pub get_field : Memory → PageMapEntry → ℕ
get_field m e = load64 m e.field

unfoldable pub set_field : Memory → PageMapEntry → ℕ → Memory
set_field m e field = store64 m e.field field

-- The write of `setOption`.
unfoldable pub put_option : Memory → PageMapEntry → ℕ → Bool → Memory
put_option m e option value =
    let f = load64 m e.field in
    store64 m e.field (if value then bit_or f option else bit_and f (not64 option))

-- `setOption`: the translation of the address in the changed entry is dropped from the cache.
unfoldable pub set_option : PageMapEntry → ℕ → Bool → Cmd (Unit {0})
unfolding put_option get_address
set_option e option value k =
    let m = put_option k.memory e option value in
    invalidate_tlb_entry (get_address m e) (record k { memory = m })

unfoldable pub get_option : Memory → PageMapEntry → ℕ → Bool
get_option m e option = bit_and (load64 m e.field) option == option

-- Two writes: the low twelve bits are kept, then the address is ored in.
unfoldable pub set_address : Memory → PageMapEntry → ℕ → Memory
set_address m e address =
    let m1 = store64 m e.field (bit_and (load64 m e.field) (2 ^ 12 - 1)) in
    store64 m1 e.field (bit_or (load64 m1 e.field) address)
