-- ===== src/BootPaging/Start.antt =====
-- The page maps that `build_paging_table` of src/entry/paging.cpp begins with: empty, then with the
-- kernel at its own address and at the address that it runs at.
use kmd.Base.{
  ℕ, zero, suc, ◌+◌, ◌-◌, ◌*◌, ◌/◌, ◌%◌, ◌^◌, ◌≤◌, ◌<◌, ◌≡◌, ◌≢◌, ◌∙◌, sym, refl, ap, inl, false,
  ◌⊎◌, arith, some, subst, u64, sub64, ◌<<<◌, ◌>>>◌,
}
use mathlib.Core.Bool.{true≢false}
use mathlib.Core.Option.{bind}
use kmd.Memory.{Memory}
use kmd.PageMapEntry.{get_option, pme_present}
use kmd.PageMap.{map_at, clear}
use kmd.PageMap.Clear.{load64-clear}
use kmd.Paging.Descent.{IsFrame}
use kmd.Paging.Tree.{FramesApart, index, slot, index-lt, Node, Same, IsTree, Leaf}
use kmd.Paging.Tree.Walk.{page_number}
use kmd.BootPaging.{Boot, alloc_pml4t, map_address_range, start_of, range_len}
use kmd.BootPaging.Cover.{pages, range_len-covers}
use kmd.BootPaging.Build.{Symbols, kernel_linear_addr, map_kernel}
use kmd.BootPaging.Tables.{IsBoot, zero_words-clear}
use kmd.BootPaging.Mapping.{map_address_range-maps}

-- A map with no entry is a tree of itself.
module _ (root : ℕ) (m : Memory) (frame : IsFrame root) where
  abbrev empty : Memory
  empty = clear (map_at root) m

  empty_slot : (a : ℕ) → get_option empty (slot root a 0) pme_present ≡ false
  unfolding get_option
  empty_slot a =
      let at : u64 (root + 8 * index a 0) ≡ root + 8 * index a 0 =
        omega (arith, index-lt a 0, frame.bounded) in
      rw (at, load64-clear (map_at root) frame.bounded m (index a 0) (index-lt a 0)) refl

  no-Node : (a d t : ℕ) → Node empty root a (suc d) t → ⊥
  unfolding Node
  no-Node a zero t (u, at, linked) =
      true≢false
        (sym linked.present ∙ ap (λ v. get_option empty (slot v a 0) pme_present) at ∙ empty_slot a)
  no-Node a (suc d) t (u, node, linked) = no-Node a d u node

  empty-IsTree : IsTree empty root
  unfolding Node Same
  empty-IsTree = record { frames = frames'; distinct = distinct' }
    where
      frames' : (a d t : ℕ) → d ≤ 3 → Node empty root a d t → IsFrame t
      frames' a zero t h at = rw at frame
      frames' a (suc d) t h node = absurd (no-Node a d t node)

      distinct' :
          (a d t b e u : ℕ)
          → d ≤ 3
          → e ≤ 3
          → Node empty root a d t
          → Node empty root b e u
          → ((d ≡ e) × Same a b d) ⊎ FramesApart t u
      distinct' a zero t b zero u h h' n n' = inl (refl, tt)
      distinct' a (suc d) t b e u h h' n n' = absurd (no-Node a d t n)
      distinct' a zero t b (suc e) u h h' n n' = absurd (no-Node b e u n')

  abbrev empty_boot : Memory → Boot
  empty_boot mem = record { memory = mem; tmp_pml4t = root; tmp_pt = root }

  empty-IsBoot : IsBoot root (empty_boot empty)
  unfolding Node
  empty-IsBoot = record { tree = empty-IsTree; made = made'; aligned = frame.aligned }
    where
      made' : (a d t : ℕ) → d ≤ 3 → Node empty root a d t → t ≤ root
      made' a zero t h at = omega (arith, at)
      made' a (suc d) t h node = absurd (no-Node a d t node)

-- The boundary of 2 MB behind the kernel.
abbrev boundary : ℕ → ℕ
boundary end = u64 ((end >>> 21) + 1) <<< 21

boundary-IsFrame : (end : ℕ) → end + 2 ^ 22 ≤ 2 ^ 64 → IsFrame (boundary end)
boundary-IsFrame end fits = record { aligned = omega arith; bounded = omega arith }

-- `alloc_pml4t` makes a tree of one map.
pub alloc_pml4t-IsBoot :
    (end : ℕ) (m : Memory)
    → end + 2 ^ 22 ≤ 2 ^ 64
    → IsBoot (alloc_pml4t end m).tmp_pml4t (alloc_pml4t end m)
      × ((alloc_pml4t end m).tmp_pt ≤ end + 2 ^ 21)
unfolding alloc_pml4t
alloc_pml4t-IsBoot end m fits = (
  subst (λ mem. IsBoot (boundary end) (empty_boot (boundary end) m (boundary-IsFrame end fits) mem))
      (sym (zero_words-clear (boundary end) m))
      (empty-IsBoot (boundary end) m (boundary-IsFrame end fits)),
  omega arith,
)

-- A kernel below 2 ^ 40, whose second part begins on a page and has at most 2 ^ 40 bytes.
pub record IsKernel (s : Symbols) : Type 0 where
  pub ordered : s.start ≤ s.end
  pub low : s.end ≤ 2 ^ 40
  pub virt_aligned : s.kernel_virt % 2 ^ 12 ≡ 0
  pub virt_ordered : s.kernel_virt ≤ s.kernel_virt_end
  pub virt_low : s.kernel_virt_end ≤ 2 ^ 40

map_kernel-some :
    (fuel : ℕ) (s : Symbols) (m : Memory) (b1 b2 : Boot)
    → IsKernel s
    → map_address_range fuel s.start s.start (s.end - s.start) 1 (alloc_pml4t s.end m) ≡ some b1
    → map_address_range fuel kernel_linear_addr s.kernel_virt
        (s.kernel_virt_end - s.kernel_virt)
        1
        b1
      ≡ some b2
    → map_kernel fuel s m ≡ some b2
unfolding map_kernel bind
map_kernel-some fuel s m b1 b2 is run1 run2 =
    let len1 : sub64 s.end s.start ≡ s.end - s.start = omega (arith, is.ordered, is.low) in
    let len2 : sub64 s.kernel_virt_end s.kernel_virt ≡ s.kernel_virt_end - s.kernel_virt =
      omega (arith, is.virt_ordered, is.virt_low) in
    rw (len1, run1, len2) run2

-- When the symbols of the linker are those of a kernel below 2 ^ 40, and its part for the high
-- addresses begins on a page, the first steps of `build_paging_table` end, in at most 2 ^ 32 rounds
-- of a loop, and leave page maps that are a tree, in which each address of the kernel is mapped to its own page, and each address of the
-- high part to the page that it has in memory, present and writable.
pub build-kernel :
    (fuel : ℕ) (s : Symbols) (m : Memory)
    → IsKernel s
    → 2 ^ 32 ≤ fuel
    → (b : Boot) × (map_kernel fuel s m ≡ some b)
      × IsBoot b.tmp_pml4t b
      × ((x : ℕ)
          → x < s.end - s.start
          → Leaf b.memory b.tmp_pml4t (s.start + x) ((s.start + x) / 2 ^ 12 * 2 ^ 12 + 3))
      × ((x : ℕ)
          → x < s.kernel_virt_end - s.kernel_virt
          → Leaf b.memory b.tmp_pml4t
              (kernel_linear_addr + x)
              ((s.kernel_virt + x) / 2 ^ 12 * 2 ^ 12 + 3))
build-kernel fuel s m is enough =
    let (boot0, low0) = alloc_pml4t-IsBoot s.end m (omega (arith, is.low)) in
    let (b1, run1, boot1, root1, bytes1, _, _, low1) =
      map_address_range-maps fuel s.start s.start (s.end - s.start) (alloc_pml4t s.end m) boot0
        (omega (arith, is.ordered, is.low)) refl (omega (arith, is.ordered, is.low))
        (omega (arith, is.ordered, is.low)) (omega (arith, is.low)) (omega (arith, is.low, low0)) in
    let (b2, run2, boot2, root2, bytes2, _, others, _) =
      map_address_range-maps fuel kernel_linear_addr s.kernel_virt
        (s.kernel_virt_end - s.kernel_virt) b1 boot1 (omega arith) (omega (arith, is.virt_aligned))
        (omega (arith, is.virt_low)) (omega (arith, is.virt_ordered, is.virt_low))
        (omega (arith, is.virt_low)) (omega (arith, is.virt_low, is.low, low0, low1)) in
    (
      b2,
      map_kernel-some fuel s m b1 b2 is run1 run2,
      boot2,
      (λ x lt. rw root2 (
          (others (s.start + x) ((s.start + x) / 2 ^ 12 * 2 ^ 12 + 3) (λ k le. apart x k lt le)).0 (
            subst (λ r. Leaf b1.memory r (s.start + x) ((s.start + x) / 2 ^ 12 * 2 ^ 12 + 3))
              (sym root1) (bytes1 x lt)))),
      (λ x lt. rw root2 (bytes2 x lt)),
    )
  where
    apart :
        (x k : ℕ)
        → x < s.end - s.start
        → k * 2 ^ 12
          ≤ range_len pages kernel_linear_addr s.kernel_virt (s.kernel_virt_end - s.kernel_virt)
        → page_number (s.start + x) ≢ page_number (start_of pages kernel_linear_addr + k * 2 ^ 12)
    apart x k lt le e =
        let covers =
          range_len-covers kernel_linear_addr s.kernel_virt (s.kernel_virt_end - s.kernel_virt)
            (omega (arith, is.virt_low)) (omega (arith, is.virt_ordered, is.virt_low)) in
        absurd (omega (arith, covers, is.low, is.virt_low))
