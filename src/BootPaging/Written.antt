-- ===== src/BootPaging/Written.antt =====
-- An entry of the last level that `map_address_range_pt` of src/entry/paging.cpp writes.
use kmd.Base.{
  ℕ, suc, ◌+◌, ◌-◌, ◌%◌, ◌^◌, ◌≤◌, ◌<◌, ◌≡◌, ◌≢◌, ◌∙◌, ◌⊎◌, ◌↔◌, sym, refl, ap, subst, arith, inl,
  inr, Bool-cases, ◌==◌, ==_iff, ne→==, u64,
}
use kmd.Base.Bits.{bit_and_low}
use kmd.Entry.Words.{bit_or_aligned}
use kmd.Memory.{load64, store64}
use kmd.Memory.Laws.{load64-store64_self, store64-outside}
use kmd.PageMapEntry.{get_option}
use kmd.Paging.Tree.{index, slot, Node, Leaf}
use kmd.Paging.Tree.Write.{Node-write, Node-unwrite, IsTree-write, Leaf-write}
use kmd.Paging.Tree.Walk.{page_number, Same-iff}
use kmd.BootPaging.{Walk, put_entry}
use kmd.BootPaging.Tables.{IsBoot}
use kmd.BootPaging.Digits.{digit-below, index-digit, AreDigits-next}
use kmd.BootPaging.Way.{IsAt, indices, here-Node}

module _ (root page src : ℕ) (w : Walk) (is : IsAt root page w) (last : w.ll ≡ 1)
    (room : (w.l w.ll).i < 512) (a : ℕ) (eq : page_number a ≡ page)
    (aligned : (src + w.cl) % 2 ^ 12 ≡ 0) (fits : src + w.cl + 2 ^ 12 ≤ 2 ^ 64) where
  abbrev w' : Walk
  w' = put_entry src w

  node : Node w.boot.memory root a 3 w.self
  node = let depth : 4 - w.ll ≡ 3 = omega arith in rw depth at (here-Node root page w is a eq room)

  abbrev field : ℕ
  field = (slot w.self a 3).field

  index-last : index a 3 ≡ (w.l w.ll).i
  index-last =
      index-digit w.ll (indices w) page is.digits a 3 eq room (omega arith)
      ∙ digit-below w.ll (indices w) 1 (omega arith)
      ∙ ap (indices w) (sym last)

  abbrev word : ℕ
  word = src + w.cl + 3

  put_entry-memory : w'.boot.memory ≡ store64 w.boot.memory field word
  unfolding put_entry
  put_entry-memory =
      let small : u64 (src + w.cl) ≡ src + w.cl = omega arith in
      rw (small, bit_or_aligned (src + w.cl) 3 aligned (omega arith), index-last) refl

  outside : (x : ℕ) → (x < field) ⊎ (field + 8 ≤ x) → w'.boot.memory x ≡ w.boot.memory x
  outside x out = rw put_entry-memory (store64-outside w.boot.memory field word x out)

  stored : load64 w'.boot.memory field ≡ word
  stored = rw put_entry-memory (load64-store64_self w.boot.memory field word (omega arith))

  pub put_entry-Leaf : Leaf w'.boot.memory root a word
  unfolding get_option
  put_entry-Leaf = (
    w.self,
    Node-write w.boot.memory w'.boot.memory root a w.self is.boot.tree node outside a 3 w.self
        (omega arith) node,
    (==_iff _ 1).1 (omega (arith, bit_and_low 1 (load64 w'.boot.memory field), stored)),
    stored,
  )

  pub put_entry-others :
      (b v : ℕ) → page_number b ≢ page → Leaf w.boot.memory root b v ↔ Leaf w'.boot.memory root b v
  put_entry-others b v other =
      Leaf-write w.boot.memory w'.boot.memory root a w.self is.boot.tree node outside b v
        (λ same. other ((Same-iff b a).0 same ∙ eq))

  put_entry-IsBoot : IsBoot root w'.boot
  unfolding put_entry
  put_entry-IsBoot = record {
    tree = IsTree-write w.boot.memory w'.boot.memory root a w.self is.boot.tree node outside;
    made = λ c d t h n. is.boot.made c d t h (
        Node-unwrite w.boot.memory w'.boot.memory root a w.self is.boot.tree node outside c d t h
          n);
    aligned = is.boot.aligned;
  }

  put_entry-l : (j : ℕ) → j ≢ 1 → w'.l j ≡ w.l j
  unfolding put_entry
  put_entry-l j h = rw (ne→== j w.ll (λ e. h (e ∙ last))) refl

  room_last : (w.l 1).i < 512
  room_last = subst (λ j. (w.l j).i < 512) last room

  put_entry-i : (w'.l 1).i ≡ (w.l 1).i + 1
  unfolding put_entry
  put_entry-i = rw last (omega (arith, room_last))

  put_entry-self : (j : ℕ) → (w'.l j).self ≡ (w.l j).self
  unfolding put_entry
  put_entry-self j = elim (Bool-cases (j == w.ll)) [
    | inl same ↦ rw same (ap (λ n. (w.l n).self) (sym ((==_iff j w.ll).0 same)))
    | inr other ↦ rw other refl
  ]

  pub put_entry-IsAt : IsAt root (suc page) w'
  unfolding put_entry
  put_entry-IsAt = record {
    boot = put_entry-IsBoot;
    digits =
        AreDigits-next w.ll (indices w) page is.digits (indices w') last room_last put_entry-i
          (λ j h. ap (λ v. v.i) (put_entry-l j h));
    in_hand = is.in_hand ∙ sym (put_entry-self w.ll);
    tables = λ j lo hi c on. rw (put_entry-self j) (
        Node-write w.boot.memory w'.boot.memory root a w.self is.boot.tree node outside c (4 - j)
          (w.l j).self (omega arith)
          (is.tables j lo hi c
            (λ d lt. on d lt ∙ ap (λ v. v.i) (put_entry-l (4 - d) (λ e. absurd (omega arith))))));
  }
