-- ===== src/BootPaging/Cover.antt =====
-- The range of pages that `map_address_range` of src/entry/paging.cpp walks.
use kmd.Base.{ℕ, ◌+◌, ◌%◌, ◌^◌, ◌≤◌, ◌<◌, ◌≡◌, arith}
use kmd.BootPaging.{offset_of, start_of, range_len}

-- Every call is for the level of the pages of 4 KB.
abbrev pub pages : ℕ
pages = offset_of 1

-- When neither range comes within a page of the end of the addresses, the walk begins on the pages of
-- the two addresses and its length is a number of whole pages that takes it past the end of both
-- ranges, by less than two pages.
pub range_len-covers :
    (dst src len : ℕ)
    → dst + len + 2 ^ 13 < 2 ^ 64
    → src + len + 2 ^ 13 < 2 ^ 64
    → (range_len pages dst src len % 2 ^ 12 ≡ 0)
      × (start_of pages dst ≤ dst)
      × (start_of pages src ≤ src)
      × (dst + len ≤ start_of pages dst + range_len pages dst src len)
      × (src + len ≤ start_of pages src + range_len pages dst src len)
      × (range_len pages dst src len < len + 2 ^ 13)
unfolding range_len
range_len-covers dst src len h h' = ground arith
