-- ===== src/Paging/MapPage.antt =====
-- After `mapPage`, `getPME` finds the page at the address that it was mapped at.
use kmd.Base.{ℕ, ◌+◌, ◌%◌, ◌≤◌, ◌<◌, ◌≡◌, ◌∙◌, sym, ◌⊎◌, Bool, true, false, ◌||◌, some, arith}
use kmd.Memory.{Memory}
use kmd.Kernel.{Kernel, ok}
use kmd.PageMapEntry.{PageMapEntry, get_address, get_option, pme_present}
use kmd.PageMap.{map_at}
use kmd.Page.{inc_page, inc_references, update_page}
use kmd.Zones.{get_page}
use kmd.Paging.{map_index, get_pme, descend_all, map_known, map_page}
use kmd.Paging.Tree.{FramesApart}
use kmd.Paging.PutPage.{
  entry_in, put, put-address, put-flags, put-present, put-outside, put_page-put,
}
use kmd.Paging.Index.{walk_index-lt, map_index-eq}
use kmd.Paging.Descent.{
  update_page-base, IsFrame, IsLinked, IsLinked-congr, Descent, IsDescended, Descent-descend,
  Descent-IsDescended,
}

entry-bounds :
    (t dst level : ℕ)
    → IsFrame t
    → (t ≤ (entry_in t dst level).field) × ((entry_in t dst level).field + 8 ≤ t + 4096)
entry-bounds t dst level f =
    omega (arith, f.bounded, walk_index-lt dst level, map_index-eq dst level)

-- The walk goes through entries that are linked.
pub get_pme-linked :
    (m : Memory) (t4 t3 t2 t1 dst : ℕ)
    → IsLinked m (entry_in t4 dst 4) t3
    → IsLinked m (entry_in t3 dst 3) t2
    → IsLinked m (entry_in t2 dst 2) t1
    → get_option m (entry_in t1 dst 1) pme_present ≡ true
    → get_pme m (map_at t4) dst ≡ entry_in t1 dst 1
unfolding get_pme
get_pme-linked m t4 t3 t2 t1 dst l4 l3 l2 l1 = rw (
  sym (map_index-eq dst 4),
  sym (map_index-eq dst 3),
  sym (map_index-eq dst 2),
  sym (map_index-eq dst 1),
  l4.present,
  l4.address,
  l3.present,
  l3.address,
  l2.present,
  l2.address,
  l1,
)

-- The maps on the way to an address, from the root on, and the states in between. Each is a page,
-- and no two are the same page.
pub record Way (fuel : ℕ) (k : Kernel) (dst : ℕ) : Type 0 where
  pub t3 : ℕ
  pub t2 : ℕ
  pub t1 : ℕ
  pub new3 : Bool
  pub new2 : Bool
  pub new1 : Bool
  pub k3 : Kernel
  pub k2 : Kernel
  pub k1 : Kernel
  pub down3 : Descent fuel k k.page_map_level4 (map_index dst 4) new3 t3 k3
  pub down2 : Descent fuel k3 t3 (map_index dst 3) new2 t2 k2
  pub down1 : Descent fuel k2 t2 (map_index dst 2) new1 t1 k1
  pub frame4 : IsFrame k.page_map_level4
  pub frame3 : IsFrame t3
  pub frame2 : IsFrame t2
  pub frame1 : IsFrame t1
  pub apart43 : FramesApart k.page_map_level4 t3
  pub apart42 : FramesApart k.page_map_level4 t2
  pub apart41 : FramesApart k.page_map_level4 t1
  pub apart32 : FramesApart t3 t2
  pub apart31 : FramesApart t3 t1
  pub apart21 : FramesApart t2 t1

module _ (fuel : ℕ) (k : Kernel) (dst : ℕ) (w : Way fuel k dst) where
  open w use {t3, t2, t1, k3, k2, k1}

  abbrev t4 : ℕ
  t4 = k.page_map_level4

  abbrev e4 : PageMapEntry
  e4 = entry_in t4 dst 4

  abbrev e3 : PageMapEntry
  e3 = entry_in t3 dst 3

  abbrev e2 : PageMapEntry
  e2 = entry_in t2 dst 2

  abbrev e1 : PageMapEntry
  e1 = entry_in t1 dst 1

  in4 : (t4 ≤ e4.field) × (e4.field + 8 ≤ t4 + 4096)
  in4 = entry-bounds t4 dst 4 w.frame4

  in3 : (t3 ≤ e3.field) × (e3.field + 8 ≤ t3 + 4096)
  in3 = entry-bounds t3 dst 3 w.frame3

  in2 : (t2 ≤ e2.field) × (e2.field + 8 ≤ t2 + 4096)
  in2 = entry-bounds t2 dst 2 w.frame2

  in1 : (t1 ≤ e1.field) × (e1.field + 8 ≤ t1 + 4096)
  in1 = entry-bounds t1 dst 1 w.frame1

  after3 : IsDescended k e4 t3 k3
  after3 = Descent-IsDescended w.frame3 (omega (arith, in4, w.apart43)) w.down3

  after2 : IsDescended k3 e3 t2 k2
  after2 = Descent-IsDescended w.frame2 (omega (arith, in3, w.apart32)) w.down2

  after1 : IsDescended k2 e2 t1 k1
  after1 = Descent-IsDescended w.frame1 (omega (arith, in2, w.apart21)) w.down1

  -- The loop follows the way.
  descend_all-way :
      descend_all fuel 3 dst false t4 k ≡ ok (false || w.new3 || w.new2 || w.new1, t1) k1
  unfolding descend_all
  descend_all-way = rw (
    Descent-descend w.frame3 w.down3,
    Descent-descend w.frame2 w.down2,
    Descent-descend w.frame1 w.down1,
  )

  module _ (p flags : ℕ) (frame : IsFrame (k.pages p).base) (low : flags < 4096)
      (present : flags % 2 ≡ 1) where
    abbrev base : ℕ
    base = (k.pages p).base

    abbrev last : Kernel
    last = put k1 e1 dst base flags

    base-kept : (k1.pages p).base ≡ base
    base-kept = after1.bases p ∙ after2.bases p ∙ after3.bases p

    last-address : get_address last.memory e1 ≡ base
    last-address = put-address k1 t1 dst base flags frame low present

    last-flags : get_option last.memory e1 flags ≡ true
    last-flags = put-flags k1 t1 dst base flags frame low present

    -- Writing the last entry changes the page of the last map alone.
    last-outside : (x : ℕ) → (x < t1) ⊎ (t1 + 4096 ≤ x) → last.memory x ≡ k1.memory x
    last-outside x out = put-outside k1 t1 dst base flags frame low present x (omega (arith, in1))

    linked4 : IsLinked last.memory e4 t3
    linked4 =
        IsLinked-congr k3.memory last.memory e4 t3
          (λ x from to. sym (
            last-outside x (omega (arith, in4, w.apart41))
            ∙ after1.outside x (omega (arith, in4, in2, w.apart42)) (omega (arith, in4, w.apart41))
            ∙ after2.outside x (omega (arith, in4, in3, w.apart43))
                (omega (arith, in4, w.apart42))))
          after3.linked_to

    linked3 : IsLinked last.memory e3 t2
    linked3 =
        IsLinked-congr k2.memory last.memory e3 t2
          (λ x from to. sym (
            last-outside x (omega (arith, in3, w.apart31))
            ∙ after1.outside x (omega (arith, in3, in2, w.apart32))
                (omega (arith, in3, w.apart31))))
          after2.linked_to

    linked2 : IsLinked last.memory e2 t1
    linked2 =
        IsLinked-congr k1.memory last.memory e2 t1
          (λ x from to. sym (last-outside x (omega (arith, in2, w.apart21)))) after1.linked_to

    last-get_pme : get_pme last.memory (map_at t4) dst ≡ e1
    last-get_pme =
        get_pme-linked last.memory t4 t3 t2 t1 dst linked4 linked3 linked2
          (put-present k1 t1 dst base flags frame low present)

-- The state once the page that is to be mapped has one reference more.
abbrev pub counted : Kernel → ℕ → Kernel
counted k p = record k { pages = update_page k.pages p (inc_references (k.pages p)) }

map_known-Way :
    (fuel : ℕ) (k : Kernel) (dst flags p : ℕ) (w : Way fuel (counted k p) dst)
    (frame : IsFrame ((counted k p).pages p).base) (low : flags < 4096) (present : flags % 2 ≡ 1)
    → map_known fuel dst p flags k
      ≡ ok (w.new3 || w.new2 || w.new1) (last fuel (counted k p) dst w p flags frame low present)
unfolding map_known inc_page
map_known-Way fuel k dst flags p w frame low present = rw (
  descend_all-way fuel (counted k p) dst w,
  put_page-put w.k1 w.t1 dst ((counted k p).pages p).base flags frame low present p
      (base-kept fuel (counted k p) dst w p flags frame low present),
)

module _ (fuel : ℕ) (k : Kernel) (dst src flags p : ℕ) where
  -- `mapPage` on an address of a known page, with a way of distinct maps and a flag word that has
  -- the present bit and touches only option bits: it returns whether a map was added, and after it
  -- `getPME` from the same root finds the entry of the address, which holds the page's address and
  -- all the flags.
  pub map_page-get_pme :
      (known : get_page src k ≡ ok (some p) k) (w : Way fuel (counted k p) dst)
      (frame : IsFrame (k.pages p).base) (low : flags < 4096) (present : flags % 2 ≡ 1)
      → (k' : Kernel) × (map_page fuel dst src flags k ≡ ok (w.new3 || w.new2 || w.new1) k')
        × (get_pme k'.memory (map_at k.page_map_level4) dst ≡ entry_in w.t1 dst 1)
        × (get_address k'.memory (entry_in w.t1 dst 1) ≡ (k.pages p).base)
        × (get_option k'.memory (entry_in w.t1 dst 1) flags ≡ true)
  map_page-get_pme known w frame low present =
      let kc = counted k p in
      let base-same = update_page-base k.pages p p in
      let frame' : IsFrame (kc.pages p).base = rw base-same frame in
      (
        last fuel kc dst w p flags frame' low present,
        (unfold map_page in rw known (map_known-Way fuel k dst flags p w frame' low present)),
        last-get_pme fuel kc dst w p flags frame' low present,
        last-address fuel kc dst w p flags frame' low present ∙ base-same,
        last-flags fuel kc dst w p flags frame' low present,
      )
