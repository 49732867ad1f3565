-- ===== src/Entry.antt =====
-- The first instructions of the kernel, which the boot loader jumps to in 32-bit mode:
-- src/entry/entry.s, from the page tables of the entry to the jump into long mode.
pub mod Words
pub mod Translate
pub mod Loop
pub mod Tables
pub mod Identity
use kmd.Base.{
  ℕ, zero, suc, ◌+◌, ◌*◌, ◌/◌, ◌%◌, ◌^◌, bit_and, bit_or, Bool, ltb, if◌then◌else◌, Option, none,
  some, u32,
}
use kmd.Memory.{Memory, store32}
use mathlib.Core.Option.{bind}

-- The memory and the control registers; `efer` is the register 0xC0000080.
pub record EntryState : Type 0 where
  pub memory : Memory
  pub cr0 : ℕ
  pub cr3 : ℕ
  pub cr4 : ℕ
  pub efer : ℕ

-- The tables follow one another, each of 8 * 512 bytes; `tmp_pml4` is the address of the first.
abbrev pub tmp_pdp : ℕ → ℕ
tmp_pdp tmp_pml4 = tmp_pml4 + 8 * 512

abbrev pub tmp_pd : ℕ → ℕ
tmp_pd tmp_pml4 = tmp_pml4 + 2 * (8 * 512)

-- `jl` behind a `cmpl`: the operands are signed.
abbrev pub less_signed : ℕ → ℕ → Bool
less_signed a b = ltb (u32 (a + 2 ^ 31)) (u32 (b + 2 ^ 31))

-- The loop at `tmp_pd_loop`; `none` means that the fuel ran out.
unfoldable pub tmp_pd_loop : ℕ → ℕ → ℕ → Memory → Option Memory
tmp_pd_loop zero ecx edx m = none
tmp_pd_loop (suc fuel) ecx edx m =
    let m' = store32 m edx ecx in
    let next = u32 (ecx + 0x200000) in
    let rest = tmp_pd_loop fuel next (u32 (edx + 8)) m' in
    if less_signed next 0x40000000 then rest else some m'

-- The three tables.
unfoldable pub temporary_tables : ℕ → ℕ → Memory → Option Memory
unfolding tmp_pd_loop
temporary_tables fuel tmp_pml4 m =
    let m1 = store32 m tmp_pml4 (bit_or (tmp_pdp tmp_pml4) 0xB) in
    let m2 = store32 m1 (tmp_pdp tmp_pml4) (bit_or (tmp_pd tmp_pml4) 0xB) in
    tmp_pd_loop fuel 0x8B (tmp_pd tmp_pml4) m2

-- Physical address extension, long mode and paging are switched on, in this order.
unfoldable pub enable_paging : ℕ → EntryState → EntryState
enable_paging tmp_pml4 p = record p {
  cr3 = tmp_pml4;
  cr4 = bit_or p.cr4 (2 ^ 5);
  efer = p.efer / 2 ^ 32 * 2 ^ 32 + bit_or (u32 p.efer) (2 ^ 8);
  cr0 = bit_or (bit_and p.cr0 0x9fffffff) (2 ^ 31);
}

unfoldable pub entry : ℕ → ℕ → EntryState → Option EntryState
unfolding temporary_tables enable_paging
entry fuel tmp_pml4 p =
    bind (temporary_tables fuel tmp_pml4 p.memory)
      (λ m. some (enable_paging tmp_pml4 (record p { memory = m })))
