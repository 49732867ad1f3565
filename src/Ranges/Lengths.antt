-- ===== src/Ranges/Lengths.antt =====
-- The pages that the ranges of src/mm/mm.cpp cover.
use kmd.Base.{ℕ, ◌+◌, ◌*◌, ◌^◌, ◌≤◌, ◌<◌, arith}
use kmd.Ranges.{nr_pages, page_of, len_of}

-- The pages of `map` and `mapFirst` are the fewest that hold the length: they hold it, and one
-- page less would not.
pub nr_pages-least :
    (len : ℕ)
    → len < 2 ^ 64
    → (len ≤ nr_pages len * 2 ^ 12) × (nr_pages len * 2 ^ 12 < len + 2 ^ 12)
unfolding nr_pages
nr_pages-least len h = ground arith

-- The range that `salloc` and `kalloc` map for a block that does not wrap around begins on the
-- page of the block and holds all of it, with less than a page before it and less than a page
-- behind it.
pub nr_pages-len_of :
    (ret size : ℕ)
    → ret + size < 2 ^ 64
    → (page_of ret ≤ ret)
      × (ret < page_of ret + 2 ^ 12)
      × (ret + size ≤ page_of ret + nr_pages (len_of ret size) * 2 ^ 12)
      × (page_of ret + nr_pages (len_of ret size) * 2 ^ 12 < ret + size + 2 ^ 12)
nr_pages-len_of ret size h =
    let len = nr_pages-least (len_of ret size) (omega arith) in
    (omega arith, omega arith, omega (arith, len), omega (arith, len))
