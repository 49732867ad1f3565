-- ===== src/BootPaging/Mapping.antt =====
-- What `map_address_range` of src/entry/paging.cpp maps.
use kmd.Base.{ℕ, ◌+◌, ◌-◌, ◌*◌, ◌/◌, ◌%◌, ◌^◌, ◌≤◌, ◌<◌, ◌≡◌, ◌≢◌, ◌↔◌, ap, subst, arith, some}
use kmd.Paging.Tree.{Leaf}
use kmd.Paging.Tree.Walk.{page_number, Leaf-page}
use kmd.BootPaging.{Boot, boot_of, map_address_range_pt, start_of, range_len, map_address_range}
use kmd.BootPaging.Cover.{pages, range_len-covers}
use kmd.BootPaging.Tables.{IsBoot}
use kmd.BootPaging.Maps.{IsRange}
use kmd.BootPaging.Range.{first-Ranged}

module _ (fuel dst src len : ℕ) (b : Boot) (boot : IsBoot b.tmp_pml4t b) (in_64 : dst < 2 ^ 64)
    (offsets : dst % 2 ^ 12 ≡ src % 2 ^ 12) (dst_fits : dst % 2 ^ 48 + len + 2 ^ 14 ≤ 2 ^ 48)
    (src_fits : src + len + 2 ^ 14 ≤ 2 ^ 64) (enough : 8 * (len / 2 ^ 12) + 40 ≤ fuel)
    (room : b.tmp_pt + 2 ^ 12 * (8 * (len / 2 ^ 12) + 40) ≤ 2 ^ 64) where
  abbrev pub first_dst : ℕ
  first_dst = start_of pages dst

  abbrev pub first_src : ℕ
  first_src = start_of pages src

  abbrev pub whole : ℕ
  whole = range_len pages dst src len

  covers :
      (whole % 2 ^ 12 ≡ 0)
      × (first_dst ≤ dst)
      × (first_src ≤ src)
      × (dst + len ≤ first_dst + whole)
      × (src + len ≤ first_src + whole)
      × (whole < len + 2 ^ 13)
  covers = range_len-covers dst src len (omega arith) (omega arith)

  is_range : IsRange first_dst first_src whole
  is_range = record {
    dst_aligned = omega arith;
    src_aligned = omega arith;
    dst_fits = omega (arith, covers);
    src_fits = omega (arith, covers);
  }

  -- The pages that are mapped, and the bytes in them.
  byte-Leaf :
      (b' : Boot)
      → ((k : ℕ)
          → k * 2 ^ 12 ≤ whole
          → Leaf b'.memory b.tmp_pml4t (first_dst + k * 2 ^ 12) (first_src + k * 2 ^ 12 + 3))
      → (x : ℕ) → x < len
      → Leaf b'.memory b.tmp_pml4t (dst + x) ((src + x) / 2 ^ 12 * 2 ^ 12 + 3)
  byte-Leaf b' put x lt =
      let k = (dst + x - first_dst) / 2 ^ 12 in
      let page : page_number (first_dst + k * 2 ^ 12) ≡ page_number (dst + x) =
        omega (arith, covers) in
      let word : first_src + k * 2 ^ 12 + 3 ≡ (src + x) / 2 ^ 12 * 2 ^ 12 + 3 =
        omega (arith, covers) in
      Leaf-page b'.memory b.tmp_pml4t (first_dst + k * 2 ^ 12) (dst + x) _ page (
        subst (Leaf b'.memory b.tmp_pml4t (first_dst + k * 2 ^ 12)) word
          (put k (omega (arith, covers))))

  -- `map_address_range` at the last level, on page maps that are a tree in the order that they were
  -- made, when the two ranges begin at the same place of a page, and lie in one half of the
  -- addresses, with four pages behind them, and there is room for the tables: it ends, in eight
  -- rounds for each page of the length and 40 more. The page maps are such a tree again, each
  -- address of the first range is mapped to the page of the same address of the second one, present
  -- and writable, and so is each page of the rounded range and the page behind it; every other
  -- address is mapped as it was, and at most one table is made for each round.
  pub map_address_range-maps :
      (b' : Boot) × (map_address_range fuel dst src len 1 b ≡ some b')
      × IsBoot b'.tmp_pml4t b'
      × (b'.tmp_pml4t ≡ b.tmp_pml4t)
      × ((x : ℕ) → x < len → Leaf b'.memory b.tmp_pml4t (dst + x) ((src + x) / 2 ^ 12 * 2 ^ 12 + 3))
      × ((k : ℕ)
          → k * 2 ^ 12 ≤ whole
          → Leaf b'.memory b.tmp_pml4t (first_dst + k * 2 ^ 12) (first_src + k * 2 ^ 12 + 3))
      × ((a v : ℕ)
          → ((k : ℕ) → k * 2 ^ 12 ≤ whole → page_number a ≢ page_number (first_dst + k * 2 ^ 12))
          → Leaf b.memory b.tmp_pml4t a v ↔ Leaf b'.memory b.tmp_pml4t a v)
      × (b'.tmp_pt ≤ b.tmp_pt + 2 ^ 12 * (8 * (len / 2 ^ 12) + 40))
  unfolding map_address_range map_address_range_pt
  map_address_range-maps =
      let (w, run, mapped, cl, bound) =
        first-Ranged b.tmp_pml4t first_dst first_src whole b is_range (omega (arith, covers)) fuel
          boot (omega (arith, covers)) (omega (arith, covers)) in
      let put : (k : ℕ)
          → k * 2 ^ 12 ≤ whole
          → Leaf w.boot.memory b.tmp_pml4t (first_dst + k * 2 ^ 12) (first_src + k * 2 ^ 12 + 3) =
        λ k le. mapped.put k (omega (arith, cl, covers)) in
      (
        w.boot,
        ap boot_of run,
        rw mapped.root_kept mapped.at.boot,
        mapped.root_kept,
        byte-Leaf w.boot put,
        put,
        (λ a v h. mapped.kept a v (λ k lt. h k (omega (arith, cl, covers)))),
        omega (arith, bound, covers),
      )
