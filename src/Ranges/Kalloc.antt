-- ===== src/Ranges/Kalloc.antt =====
-- `kalloc` of src/mm/mm.cpp: the block that `smalloc` returns lies in pages that are mapped.
use kmd.Base.{ℕ, suc, ◌+◌, ◌-◌, ◌*◌, ◌/◌, ◌%◌, ◌^◌, ◌≤◌, ◌<◌, ◌≡◌, ◌≢◌, refl, true, arith, ne→==}
use kmd.Kernel.{Kernel, ok}
use kmd.Page.{is_free}
use kmd.Zones.Spare.{HasSpare}
use kmd.Paging.Tree.Walk.{page_number, Leaf-page}
use kmd.Paging.Space.{Has}
use kmd.Paging.Space.MapPage.{IsWord}
use kmd.Smalloc.{smalloc}
use kmd.Ranges.{nr_pages, page_dst, page_of, len_of, kalloc}
use kmd.Ranges.Lengths.{nr_pages-len_of}
use kmd.Ranges.MapFirst.{IsReady, InRange}
use kmd.Ranges.MapFirst.Loop.{map_first-returns}

-- The page of the range in which a byte of the block lies.
abbrev page_index : ℕ → ℕ → ℕ
page_index ret x = (x - page_of ret) / 2 ^ 12

module _ (ret size x : ℕ) (fits : ret + size < 2 ^ 64) (from : ret ≤ x) (to : x < ret + size) where
  page_index-InRange : InRange 0 (nr_pages (len_of ret size)) (page_index ret x)
  page_index-InRange =
      let (lo, _, hi, _) = nr_pages-len_of ret size fits in (omega arith, omega (arith, lo, hi))

  page_index-page_number : page_number (page_dst (page_of ret) (page_index ret x)) ≡ page_number x
  page_index-page_number = omega arith

-- `kalloc`, with flags that have the present bit and only option bits, when `smalloc` returns a block
-- of at most 2 ^ 48 - 4096 bytes that is not null and does not wrap around, and leaves a state where
-- the page maps are a tree apart from the free pages, `getPage` finds each free page at its address
-- and `getFreePage` can still find four pages for each page of the block: it returns the block, each
-- byte of the block has a word that maps a page that was free with the flags, and the state is such
-- a state again.
pub kalloc-maps :
    (fuel : ℕ) (k k1 : Kernel) (ret size alignement flags x : ℕ)
    → flags < 4096
    → flags % 2 ≡ 1
    → smalloc (suc fuel) size alignement k ≡ ok ret k1
    → ret ≢ 0
    → ret + size < 2 ^ 64
    → size + 4096 ≤ 2 ^ 48
    → IsReady fuel k1
    → HasSpare k1 (4 * nr_pages (len_of ret size))
    → ret ≤ x
    → x < ret + size
    → (k' : Kernel) × (kalloc (suc fuel) size alignement flags k ≡ ok ret k')
      × IsReady fuel k'
      × (p : ℕ) × (is_free (k1.pages p) ≡ true)
      × (w : ℕ) × Has k' x w
      × IsWord (k1.pages p).base flags w
unfolding kalloc
kalloc-maps fuel k k1 ret size alignement flags x low present run ne fits small ready spare from
      to =
    let (k', maps, range) =
      map_first-returns fuel k1 (page_of ret) (len_of ret size) flags low present ready
        (omega arith) spare in
    let inside = page_index-InRange ret size x fits from to in
    let (w, has, word) = range.maps (page_index ret x) inside in
    (
      k',
      rw (run, ne→== ret 0 ne, maps) refl,
      range.ready,
      range.page (page_index ret x),
      range.was_free (page_index ret x) inside,
      w,
      Leaf-page k'.memory k'.page_map_level4 (page_dst (page_of ret) (page_index ret x)) x w
          (page_index-page_number ret size x fits from to) has,
      word,
    )
