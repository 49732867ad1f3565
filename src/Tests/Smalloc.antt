-- ===== src/Tests/Smalloc.antt =====
-- `smalloc` in the arena of the other tests, with a free list of two chunks.
use kmd.Base.{
  ℕ, sub64, u64, ◌+◌, ◌%◌, ◌^◌, ◌≤◌, ◌<◌, ◌≡◌, refl, ◌⊎◌, false, [], ◌∷◌, All, In, arith,
}
use kmd.Memory.{Memory, load64, store64}
use kmd.Chunk.{get_size, get_next, get_next_free, is_free, get_full_size, split}
use kmd.Kernel.{Kernel, ok}
use kmd.Page.{null_page}
use kmd.Smalloc.{align_up, fits, smalloc}
use kmd.Ranges.{kalloc, salloc}
use kmd.Ranges.Errors.{kalloc-no_room}
use kmd.Smalloc.FirstFit.{FreeList, nil, cons}
use kmd.Smalloc.Placement.{IsBounded, IsPlaced, align_up_lem, smalloc-IsPlaced}
use kmd.Smalloc.Again.{IsReady, first, block, kept, once, smalloc-smalloc}
use kmd.Tests.Arena.{arena}

listed : Memory
unfolding arena
listed = store64 (store64 arena 1040 3000) 100 1000

start : Kernel
start = record {
  memory = listed;
  page_map_level4 = 0;
  zones = [];
  zones_nr = 0;
  arena = 100;
  pages = λ _. null_page;
  cr3 = 0;
  trace = [];
}

start-FreeList : FreeList start.memory (load64 start.memory start.arena) (1000 ∷ 3000 ∷ [])
unfolding start listed get_next_free is_free
start-FreeList = cons (omega arith) (cons (omega arith) nil)

start-IsBounded : All (IsBounded start.memory 100 16) (1000 ∷ 3000 ∷ [])
unfolding start listed get_full_size is_free get_size
start-IsBounded = (
  record { block = omega arith; chunk = omega arith },
  (record { block = omega arith; chunk = omega arith }, tt),
)

smalloc-IsPlaced_example :
    ((smalloc 3 100 16 start ≡ ok 0 start)
      × All (λ i. fits start.memory 100 16 i ≡ false) (1000 ∷ 3000 ∷ []))
    ⊎ ((i : ℕ) × (aa : ℕ) × In i (1000 ∷ 3000 ∷ [])
        × (smalloc 3 100 16 start
            ≡ ok aa (record start { memory = split start.memory i (sub64 (u64 (aa + 100)) i) }))
        × IsPlaced start.memory 100 16 i aa)
smalloc-IsPlaced_example =
    smalloc-IsPlaced start 100 16 3 (1000 ∷ 3000 ∷ []) (omega arith) start-FreeList (omega arith)
      start-IsBounded

align_up_lem_example :
    (align_up 1000 16 % 16 ≡ 0) × (1000 ≤ align_up 1000 16) × (align_up 1000 16 < 1000 + 16)
align_up_lem_example = align_up_lem 1000 16 (omega arith) (omega arith)

start-IsReady : IsReady start 100 16
unfolding start listed fits align_up is_free get_full_size get_size get_next
start-IsReady = record {
  ne_null = omega arith;
  free = refl;
  room = refl;
  bounded = record { block = omega arith; chunk = omega arith };
  apart_second = omega arith;
  apart_third = omega arith;
  apart_rest = omega arith;
  head_first = omega arith;
  head_second = omega arith;
  head_third = omega arith;
}

smalloc-smalloc_example :
    (smalloc 3 100 16 start ≡ ok (block start 100 16) (once start 100 16))
    × (smalloc 3 100 16 (once start 100 16)
        ≡ ok (block start 100 16) (record (once start 100 16) {
          memory = split (once start 100 16).memory (first start 100 16) (kept start 100 16);
        }))
smalloc-smalloc_example = smalloc-smalloc start 100 16 (omega arith) start-IsReady 2

no_room : All (λ i. fits start.memory (2 ^ 20) 16 i ≡ false) (1000 ∷ 3000 ∷ [])
unfolding start listed fits align_up get_full_size is_free get_size
no_room = (refl, (refl, tt))

kalloc-no_room_example :
    (kalloc 3 (2 ^ 20) 16 3 start ≡ ok 0 start) × (salloc 3 0 (2 ^ 20) 16 3 start ≡ ok 0 start)
kalloc-no_room_example =
    kalloc-no_room start 3 0 (2 ^ 20) 16 3 (1000 ∷ 3000 ∷ []) (omega arith) start-FreeList
      (omega arith) no_room
