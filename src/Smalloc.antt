-- ===== src/Smalloc.antt =====
-- `smalloc` of src/mm/mm.cpp: first fit along the free list of the arena.
pub mod FirstFit
pub mod Placement
pub mod Again
use kmd.Base.{ℕ, zero, suc, ◌+◌, ◌*◌, ◌/◌, ◌%◌, Bool, ◌==◌, leb, if◌then◌else◌, u64, sub64}
use kmd.Memory.{Memory, load64}
use kmd.Chunk.{get_full_size, get_next_free, split, sizeof_free_chunk}
use kmd.Kernel.{Kernel, Run, ok, fault, out_of_fuel, Cmd}

-- The first multiple of the alignment from `i` on.
unfoldable pub align_up : ℕ → ℕ → ℕ
align_up i alignement =
    if i % alignement == 0 then i else u64 (u64 (i / alignement + 1) * alignement)

-- The test for room in the chunk at `i`.
unfoldable pub fits : Memory → ℕ → ℕ → ℕ → Bool
fits m size alignement i =
    leb (u64 (align_up i alignement + size + sizeof_free_chunk)) (u64 (i + get_full_size m i))

-- What is done with the first chunk that has room.
unfoldable pub take_from : ℕ → ℕ → ℕ → Cmd ℕ
take_from size alignement i k =
    let aa = align_up i alignement in
    ok aa (record k { memory = split k.memory i (sub64 (u64 (aa + size)) i) })

-- The loop from the chunk at `i`. `i % 0` is the processor's divide error.
unfoldable pub smalloc_loop : ℕ → ℕ → ℕ → ℕ → Cmd ℕ
smalloc_loop zero size alignement i k = out_of_fuel
smalloc_loop (suc fuel) size alignement i k =
    let rest = smalloc_loop fuel size alignement (get_next_free k.memory i) k in
    if i == 0
    then ok 0 k
    else if alignement == 0
    then fault
    else if fits k.memory size alignement i
    then take_from size alignement i k
    else rest

-- The fuel is the number of chunks of the free list that may be looked at, and one more.
unfoldable pub smalloc : ℕ → ℕ → ℕ → Cmd ℕ
unfolding smalloc_loop
smalloc fuel size alignement k = smalloc_loop fuel size alignement (load64 k.memory k.arena) k
