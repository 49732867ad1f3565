-- ===== src/Kernel.antt =====
-- The state of the memory manager and the commands over it: the globals of src/mm/mm.cpp, the
-- structures of src/include/mm.h and src/include/Page.h, and what the processor is told.
use kmd.Base.{ℕ, Bool, List, Option, ◌∷◌}
use kmd.Memory.{Memory, load64, store64}

-- `class Page`, without the pointer to its virtual table.
pub record Page : Type 0 where
  pub base : ℕ
  pub references : ℕ
  pub available : Bool

-- `struct Zone`. A `Page *` is an index into the array at `pageTable`; `none` is `nullptr`.
pub record Zone : Type 0 where
  pub begin : ℕ
  pub end : ℕ
  pub pages : Option ℕ

-- What the processor's translation cache is told, the latest first.
pub data Event : Type 0 where
  invlpg : ℕ → Event
  load_cr3 : ℕ → Event

-- `page_map_level4`, `zones`, `zones_nr` and `arena` are the globals of those names, `pages` is
-- the array at `pageTable`, `memory` is all other memory, and `cr3` is the register.
pub record Kernel : Type 0 where
  pub memory : Memory
  pub page_map_level4 : ℕ
  pub zones : List Zone
  pub zones_nr : ℕ
  pub arena : ℕ
  pub pages : ℕ → Page
  pub cr3 : ℕ
  pub trace : List Event

-- A run ends with a result and a new state, or in a fault (a division by zero, an array index out
-- of range, a `Page *` that is null), or it is still running when the fuel is used up.
pub data Run {ℓ} (A : Type ℓ) : Type ℓ where
  ok : A → Kernel → Run A
  fault : Run A
  out_of_fuel : Run A

abbrev pub Cmd {ℓ} : Type ℓ → Type ℓ
Cmd A = Kernel → Run A

abbrev pub pure {ℓ} : {A : Type ℓ} → A → Cmd A
pure = ok

abbrev pub and_then {ℓ κ} : {A : Type ℓ} {B : Type κ} → Run A → (A → Cmd B) → Run B
and_then (ok a k) f = f a k
and_then fault f = fault
and_then out_of_fuel f = out_of_fuel

infixl 5 ◌>>=◌ ◌>>◌
abbrev pub ◌>>=◌ {ℓ κ} : {A : Type ℓ} {B : Type κ} → Cmd A → (A → Cmd B) → Cmd B
m >>= f = λ k. and_then (m k) f

abbrev pub ◌>>◌ {ℓ κ} : {A : Type ℓ} {B : Type κ} → Cmd A → Cmd B → Cmd B
m >> n = m >>= λ _. n

-- `*(u64 *) a`, and `*(u64 *) a = v`.
abbrev pub read : ℕ → Cmd ℕ
read a k = ok (load64 k.memory a) k

abbrev pub write : ℕ → ℕ → Cmd (Unit {0})
write a v k = ok tt (record k { memory = store64 k.memory a v })

abbrev pub emit : Event → Cmd (Unit {0})
emit e k = ok tt (record k { trace = e ∷ k.trace })

-- `invalidateTLBEntry` of src/mm/mm.cpp.
abbrev pub invalidate_tlb_entry : ℕ → Cmd (Unit {0})
invalidate_tlb_entry addr = emit (invlpg addr)
