-- ===== src/Paging/Tree/Walk.antt =====
-- The tree of page maps and the addresses of src/mm/mm.cpp: which addresses have the same entry, and
-- what `getPME` finds.
use kmd.Base.{ℕ, ◌+◌, ◌-◌, ◌*◌, ◌/◌, ◌%◌, ◌^◌, ◌≡◌, ◌∙◌, ◌↔◌, sym, ap, arith}
use kmd.Base.Bits.{bit_and_low}
use kmd.Memory.{Memory, load64}
use kmd.Paging.Index.{map_index-eq}
use kmd.Paging.Tree.{index, slot, Node-unique, Node-Same, Same, Leaf}

-- The number of the page that an address lies in, as far as the 48 bits that the walk reads.
abbrev pub page_number : ℕ → ℕ
page_number a = a / 2 ^ 12 % 2 ^ 36

pub index-eq : (a d : ℕ) → index a d ≡ a / 2 ^ ((4 - d - 1) * 9 + 12) % 2 ^ 9
index-eq a d = map_index-eq a (4 - d) ∙ bit_and_low 9 (a / 2 ^ ((4 - d - 1) * 9 + 12))

-- Two addresses have the same way to the last entry exactly when they lie in the same page.
pub Same-iff : (a b : ℕ) → Same a b 4 ↔ (page_number a ≡ page_number b)
unfolding Same
Same-iff a b = (
  (λ s. omega (
    arith,
    s,
    index-eq a 0,
    index-eq a 1,
    index-eq a 2,
    index-eq a 3,
    index-eq b 0,
    index-eq b 1,
    index-eq b 2,
    index-eq b 3,
  )),
  (λ e. omega (
    arith,
    index-eq a 0,
    index-eq a 1,
    index-eq a 2,
    index-eq a 3,
    index-eq b 0,
    index-eq b 1,
    index-eq b 2,
    index-eq b 3,
  )),
)

-- Addresses of one page have the same words.
pub Leaf-page :
    (m : Memory) (root a b w : ℕ)
    → page_number a ≡ page_number b
    → Leaf m root a w
    → Leaf m root b w
unfolding Same
Leaf-page m root a b w e (t, n, present, word) =
    let (s, last) = (Same-iff a b).1 e in
    (t, Node-Same m root a b 3 t s n, rw (← last) present, rw (← last) word)

-- An address has one word.
pub Leaf-unique : (m : Memory) (root a v w : ℕ) → Leaf m root a v → Leaf m root a w → v ≡ w
Leaf-unique m root a v w (t, n, _, e) (u, n', _, e') =
    let same = Node-unique m root a 3 t u n n' in
    sym e ∙ ap (λ x. load64 m (slot x a 3).field) same ∙ e'
