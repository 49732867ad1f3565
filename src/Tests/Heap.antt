-- ===== src/Tests/Heap.antt =====
-- `kalloc` on the machine of the page maps' tests, with an arena of one chunk.
use kmd.Base.{
  ℕ, zero, suc, ◌+◌, ◌*◌, ◌<◌, ◌≡◌, ◌∙◌, refl, sym, ap, inl, inr, true, some, arith, ◌==◌,
  if◌then◌else◌, bit_and,
}
use mathlib.Core.Bool.{true≢false}
use kmd.Memory.{Memory, load64, load_bytes}
use kmd.Memory.Laws.{load64-congr}
use kmd.Kernel.{Kernel, ok}
use kmd.PageMapEntry.{get_option, pme_present}
use kmd.Page.{is_free}
use kmd.Zones.Spare.{HasSpare, HasSpare-less, IsSpare-kept}
use kmd.Zones.Spare.Runs.{HasSpare-run}
use kmd.Zones.Unchanged.{CanScan-unchanged, get_page-unchanged}
use kmd.Paging.Descent.{IsFrame}
use kmd.Paging.Tree.{index, slot, index-lt, entry_at-bounds, Node, Same}
use kmd.Paging.Space.{IsSpace, Has}
use kmd.Paging.Space.MapPage.{IsWord}
use kmd.Chunk.{get_full_size, get_size, split, is_free as chunk_is_free}
use kmd.Smalloc.{smalloc, fits, align_up, take_from}
use kmd.Ranges.{nr_pages, kalloc}
use kmd.Ranges.MapFirst.{IsReady}
use kmd.Ranges.Kalloc.{kalloc-maps}
use kmd.Tests.Space.{
  machine, pages-bounds, machine-IsPool, machine-CanScan, machine-known, machine-IsSpare,
}

-- The pointer to the arena is at 0x18000, and the arena is a chunk of 2 ^ 16 bytes at 0x20000.
abbrev heap : Memory
heap a = if a == 0x18002 then 2 else if a == 0x20002 then 1 else 0

abbrev with_heap : Kernel
with_heap = record machine { memory = heap; arena = 0x18000 }

heap-low : (a : ℕ) → a < 0x18000 → heap a ≡ 0
heap-low a h = ground arith

root-IsFrame : IsFrame 0x1000
root-IsFrame = record { aligned = refl; bounded = omega arith }

load64-low : (a : ℕ) → a + 8 < 0x18000 → load64 heap a ≡ 0
unfolding load64 load_bytes
load64-low a h = load64-congr heap (λ _. 0) a (λ x lo hi. heap-low x (omega arith))

only_root : (a d t : ℕ) → Node heap 0x1000 a d t → (d ≡ 0) × (t ≡ 0x1000)
unfolding Node get_option
only_root a zero t n = (refl, n)
only_root a (suc d) t (u, n, l) =
    let at = (only_root a d u n).1 in
    let bounds = entry_at-bounds u (index a d) (rw at root-IsFrame) (index-lt a d) in
    let zero_word = load64-low (slot u a d).field (omega (arith, at, bounds)) in
    absurd (true≢false (sym l.present ∙ ap (λ x. bit_and x pme_present == pme_present) zero_word))

with_heap-IsSpace : IsSpace with_heap
unfolding Same
with_heap-IsSpace = record {
  tree = record {
    frames = λ a d t h n. rw ((only_root a d t n).1) root-IsFrame;
    distinct = λ a d t b e u h h' n n'.
        let (z, _) = only_root a d t n in
        let (z', _) = only_root b e u n' in inl (z ∙ sym z', rw z tt);
  };
  pool = machine-IsPool;
  apart = λ p a d t free h n.
      let (lo, hi) = pages-bounds p free in rw ((only_root a d t n).1) (inr (omega arith));
}

with_heap-IsReady : IsReady 20 with_heap
with_heap-IsReady = record {
  space = with_heap-IsSpace;
  scan = CanScan-unchanged machine with_heap 20 refl refl machine-CanScan;
  known = λ p free.
      get_page-unchanged machine with_heap (some p) (p * 4096) refl refl
        (machine-known p (pages-bounds p free).1);
}

with_heap-HasSpare : HasSpare with_heap 14
with_heap-HasSpare = HasSpare-run with_heap 2 14 (λ p lo hi.
    let s = machine-IsSpare p lo hi in IsSpare-kept machine with_heap p refl refl s.free s)

-- The chunk is not flagged as free, so `split` leaves it as it is.
smalloc_run : smalloc 21 0x1000 16 with_heap ≡ ok 0x20000 with_heap
unfolding smalloc load64 load_bytes fits align_up get_full_size chunk_is_free get_size take_from
    split
smalloc_run = refl

kalloc-maps_example :
    (k' : Kernel) × (kalloc 21 0x1000 16 3 with_heap ≡ ok 0x20000 k')
    × IsReady 20 k'
    × (p : ℕ) × (is_free (with_heap.pages p) ≡ true)
    × (w : ℕ) × Has k' 0x20ABC w
    × IsWord (with_heap.pages p).base 3 w
unfolding nr_pages
kalloc-maps_example =
    kalloc-maps 20 with_heap with_heap 0x20000 0x1000 16 3 0x20ABC (omega arith) refl smalloc_run
      (omega arith) (omega arith) (omega arith) with_heap-IsReady
      (HasSpare-less 4 14 with_heap (omega arith) with_heap-HasSpare) (omega arith) (omega arith)
