-- ===== src/BootPaging/PhySize.antt =====
-- The inner loop of `get_phy_size` of src/entry/paging.cpp.
use kmd.Base.{
  ℕ, zero, suc, ◌+◌, ◌-◌, ◌*◌, ◌/◌, ◌^◌, ◌≤◌, ◌<◌, ◌≡◌, ◌∙◌, ap, ap₂, lt→ltb, le→ltb_false, arith,
  some, u64, refl,
}
use kmd.BootPaging.Build.{size_loop}

-- The length of a range in whole pages.
abbrev pub whole_pages : ℕ → ℕ
whole_pages len = (len + (2 ^ 12 - 1)) / 2 ^ 12

size_loop-suc :
    (n addr end size : ℕ)
    → addr < end
    → end + 2 ^ 12 ≤ 2 ^ 64
    → size + 2 ^ 12 < 2 ^ 64
    → size_loop (suc n) addr end size ≡ size_loop n (addr + 2 ^ 12) end (size + 2 ^ 12)
unfolding size_loop
size_loop-suc n addr end size p h s =
    let addr' : u64 (addr + 2 ^ 12) ≡ addr + 2 ^ 12 = omega arith in
    let size' : u64 (size + 2 ^ 12) ≡ size + 2 ^ 12 = omega arith in
    rw (lt→ltb addr end p) (ap₂ (λ a z. size_loop n a end z) addr' size')

size_loop-zero : (n addr end size : ℕ) → end ≤ addr → size_loop (suc n) addr end size ≡ some size
unfolding size_loop
size_loop-zero n addr end size p = rw (le→ltb_false addr end p) refl

-- The count of an entry that begins at `addr` and ends at `end`, not within a page of the end of the
-- addresses, ends with one round for each of its pages, the last of which may be in part, and adds the
-- size of those pages.
pub size_loop-pages :
    (n addr end size : ℕ)
    → whole_pages (end - addr) ≡ n
    → end + 2 ^ 12 ≤ 2 ^ 64
    → size + n * 2 ^ 12 < 2 ^ 64
    → size_loop (suc n) addr end size ≡ some (size + n * 2 ^ 12)
size_loop-pages zero addr end size e h s =
    size_loop-zero zero addr end size (omega arith) ∙ ap some (omega arith)
size_loop-pages (suc n) addr end size e h s =
    size_loop-suc (suc n) addr end size (omega arith) h (omega arith)
    ∙ size_loop-pages n (addr + 2 ^ 12) end (size + 2 ^ 12) (omega arith) h (omega arith)
    ∙ ap some (omega arith)
