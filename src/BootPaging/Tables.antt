-- ===== src/BootPaging/Tables.antt =====
-- The tables that src/entry/paging.cpp makes, in the tree that the page maps form.
use kmd.Base.{
  ℕ, zero, suc, ◌+◌, ◌*◌, ◌/◌, ◌%◌, ◌^◌, ◌≤◌, ◌<◌, ◌≡◌, ◌∙◌, ◌↔◌, inl, inr, refl, ap, true, false,
  not, Bool-cases, ◌==◌, ==_iff, ne→==, arith, bit_and, bit_or, u64,
}
use kmd.Base.Bits.{bit_and_low}
use kmd.Entry.Words.{bit_or_aligned}
use kmd.Memory.{Memory, load64, store64}
use kmd.Memory.Laws.{load64-store64_self, load64-congr, store64-outside, load64-lt}
use kmd.PageMapEntry.{get_address, get_option, pme_present}
use kmd.PageMapEntry.Address.{get_address-eq}
use kmd.PageMap.{map_at, clear_loop, clear}
use kmd.PageMap.Clear.{load64-clear, clear-outside}
use kmd.Paging.Descent.{IsLinked}
use kmd.Paging.Tree.{index, slot, index-lt, entry_at-bounds, Node, IsTree, Leaf}
use kmd.Paging.Tree.Link.{Linking, IsTree-link, Node-link, Node-unlink, Leaf-link}
use kmd.BootPaging.{Boot, zero_words, alloc_pt, table_under}

zero_words-clear_loop :
    (left i map : ℕ) (m : Memory) → zero_words left i map m ≡ clear_loop left i (map_at map) m
unfolding zero_words clear_loop
zero_words-clear_loop zero i map m = refl
zero_words-clear_loop (suc left) i map m =
    zero_words-clear_loop left (i + 1) map (store64 m (u64 (map + 8 * i)) 0)

pub zero_words-clear : (map : ℕ) (m : Memory) → zero_words 512 0 map m ≡ clear (map_at map) m
unfolding clear
zero_words-clear map m = zero_words-clear_loop 512 0 map m

-- The page maps are a tree, whose maps all lie at or before the last one that was made.
pub record IsBoot (root : ℕ) (b : Boot) : Type 0 where
  pub tree : IsTree b.memory root
  pub made : (a d t : ℕ) → d ≤ 3 → Node b.memory root a d t → t ≤ b.tmp_pt
  pub aligned : b.tmp_pt % 2 ^ 12 ≡ 0

-- An entry is present when its lowest bit is set.
pub get_option-lowest :
    (m : Memory) (e : ℕ) → (bit_and (load64 m e) 1 == 0) ≡ not (bit_and (load64 m e) 1 == 1)
get_option-lowest m e = ground (arith, bit_and_low 1 (load64 m e))

module _ (root c n s : ℕ) (b : Boot) (is : IsBoot root b) (depth : n ≤ 2)
    (node : Node b.memory root c n s) (room : b.tmp_pt + 2 ^ 13 ≤ 2 ^ 64) where
  abbrev new_table : ℕ
  new_table = b.tmp_pt + 2 ^ 12

  abbrev field : ℕ
  field = (slot s c n).field

  abbrev zeroed : Memory
  zeroed = clear (map_at new_table) b.memory

  abbrev linked_memory : Memory
  linked_memory = store64 zeroed field (bit_or new_table 3)

  table_under-new :
      get_option b.memory (slot s c n) pme_present ≡ false
      → table_under field b ≡ (new_table, record b { memory = linked_memory; tmp_pt = new_table })
  unfolding table_under alloc_pt get_option
  table_under-new absent =
      let table : u64 (b.tmp_pt + 8 * 512) ≡ new_table = omega arith in
      rw (get_option-lowest b.memory field, absent, table, zero_words-clear new_table b.memory) refl

  table_under-old :
      get_option b.memory (slot s c n) pme_present ≡ true
      → table_under field b ≡ (get_address b.memory (slot s c n), b)
  unfolding table_under alloc_pt get_option
  table_under-old present =
      let shifted : load64 b.memory field / 2 ^ 12 * 2 ^ 12 % 2 ^ 64
          ≡ get_address b.memory (slot s c n) =
        omega (arith, get_address-eq b.memory (slot s c n), load64-lt b.memory field) in
      rw (get_option-lowest b.memory field, present) (ap (λ a. (a, b)) shifted)

  field-bounds : (field ≡ s + 8 * index c n) × (s ≤ field) × (field + 8 ≤ s + 4096)
  field-bounds =
      entry_at-bounds s (index c n) (is.tree.frames c n s (omega arith) node) (index-lt c n)

  below_new : field + 8 ≤ new_table
  below_new = omega (arith, field-bounds, is.made c n s (omega arith) node)

  linked_word : load64 linked_memory field ≡ new_table + 3
  linked_word =
      let word : bit_or new_table 3 ≡ new_table + 3 =
        bit_or_aligned new_table 3 (omega (arith, is.aligned)) (omega arith) in
      rw word (load64-store64_self zeroed field (new_table + 3) (omega arith))

  empty_word : (i : ℕ) → i < 512 → load64 linked_memory (u64 (new_table + 8 * i)) ≡ 0
  empty_word i lt =
      let whole : u64 (new_table + 8 * i) ≡ new_table + 8 * i = omega arith in
      rw whole (
        load64-congr linked_memory zeroed (new_table + 8 * i) (λ x p q.
          store64-outside zeroed field (bit_or new_table 3) x (inr (omega (arith, below_new))))
        ∙ load64-clear (map_at new_table) (omega arith) b.memory i lt)

  linked_address : get_address linked_memory (slot s c n) ≡ new_table
  linked_address =
      get_address-eq linked_memory (slot s c n) ∙ omega (arith, linked_word, is.aligned)

  new-Linking :
      get_option b.memory (slot s c n) pme_present ≡ false
      → Linking b.memory linked_memory root c n s new_table
  unfolding get_option
  new-Linking absent = record {
    depth = depth;
    node = node;
    absent = absent;
    frame = record { aligned = omega (arith, is.aligned); bounded = omega arith };
    apart = λ a d t h nd. inr (omega (arith, is.made a d t h nd));
    linked = record {
      present =
          (==_iff _ 1).1
            (omega (arith, bit_and_low 1 (load64 linked_memory field), linked_word, is.aligned));
      address = linked_address;
    };
    outside = λ x out out'.
        store64-outside zeroed field (bit_or new_table 3) x out
        ∙ clear-outside (map_at new_table) (omega arith) b.memory x out';
    empty = λ i lt.
        let option = bit_and_low 1 (load64 linked_memory (u64 (new_table + 8 * i))) in
        ne→== _ 1 (omega (arith, option, empty_word i lt));
  }

  -- The table under an entry: the tree has it, and the words of all addresses are as they were.
  abbrev pub Under : ℕ × Boot → Type 0
  Under (t, b') =
      IsBoot root b'
      × (b'.tmp_pml4t ≡ b.tmp_pml4t)
      × (b'.tmp_pt ≤ b.tmp_pt + 2 ^ 12)
      × ((a d u : ℕ) → d ≤ 3 → Node b.memory root a d u → Node b'.memory root a d u)
      × IsLinked b'.memory (slot s c n) t
      × ((a w : ℕ) → Leaf b.memory root a w ↔ Leaf b'.memory root a w)

  pub table_under-Under : Under (table_under field b)
  table_under-Under = elim (Bool-cases (get_option b.memory (slot s c n) pme_present)) [
    | inl present ↦ rw (table_under-old present) (
      is,
      refl,
      omega arith,
      (λ a d u h nd. nd),
      record { present = present; address = refl },
      (λ a w. ((λ x. x), (λ x. x))),
    )
    | inr absent ↦
        let l = new-Linking absent in
        let tree = is.tree in
        rw (table_under-new absent) (
          record {
            tree = IsTree-link b.memory linked_memory root c n s new_table tree l;
            made = λ a d t h nd.
                elim (Node-unlink b.memory linked_memory root c n s new_table tree l a d t h nd) [
                  | inl old ↦ omega (arith, is.made a d t h old)
                  | inr (_, _, e) ↦ omega (arith, e)
                ];
            aligned = omega (arith, is.aligned);
          },
          refl,
          omega arith,
          (λ a d u h nd. Node-link b.memory linked_memory root c n s new_table tree l a d u h nd),
          l.linked,
          (λ a w. Leaf-link b.memory linked_memory root c n s new_table tree l a w),
        )
  ]
