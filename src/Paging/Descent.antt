-- ===== src/Paging/Descent.antt =====
-- One round of the loop of `mapPage`: which maps it follows or adds, and what it leaves alone.
use kmd.Base.{
  ℕ, ◌+◌, ◌%◌, ◌^◌, ◌≤◌, ◌<◌, ◌≡◌, ◌∙◌, sym, refl, ◌⊎◌, inl, inr, Bool, true, false, Bool-cases,
  some, arith, ◌∷◌, bit_and, ◌==◌, ==_iff,
}
use kmd.Base.Bits.{bit_and_low}
use kmd.Memory.{Memory, load64}
use kmd.Memory.Laws.{Apart, load64-congr, store64-outside}
use kmd.Kernel.{Kernel, Page, ok, invlpg}
use kmd.PageMapEntry.{
  PageMapEntry, entry_at, get_address, get_option, set_address, put_option, pme_present,
}
use kmd.PageMapEntry.Address.{get_address-set_address}
use kmd.PageMapEntry.Options.{get_option-put_option-true, get_address-put_option}
use kmd.PageMap.{map_at, clear}
use kmd.PageMap.Clear.{clear-outside}
use kmd.Page.{inc_references, update_page}
use kmd.Zones.{get_free_page}
use kmd.Paging.{link_new, descend}

-- The address of a page: aligned, and with its whole page below 2 ^ 64.
pub record IsFrame (a : ℕ) : Type 0 where
  pub aligned : a % 4096 ≡ 0
  pub bounded : a + 4096 ≤ 2 ^ 64

-- The entry is present and leads to the map at `t`.
pub record IsLinked (m : Memory) (e : PageMapEntry) (t : ℕ) : Type 0 where
  pub present : get_option m e pme_present ≡ true
  pub address : get_address m e ≡ t

-- Two memories agree on the word of an entry, so it reads the same in both.
pub IsLinked-congr :
    (m m' : Memory) (e : PageMapEntry) (t : ℕ)
    → ((x : ℕ) → e.field ≤ x → x < e.field + 8 → m x ≡ m' x)
    → IsLinked m e t
    → IsLinked m' e t
unfolding get_option get_address
IsLinked-congr m m' e t same l =
    let w = load64-congr m m' e.field same in
    record { present = rw w at l.present; address = rw w at l.address }

pub set_address-outside :
    (m : Memory) (e : PageMapEntry) (a x : ℕ)
    → (x < e.field) ⊎ (e.field + 8 ≤ x)
    → set_address m e a x ≡ m x
unfolding set_address
set_address-outside m e a x out =
    store64-outside _ e.field _ x out ∙ store64-outside m e.field _ x out

pub put_option-outside :
    (m : Memory) (e : PageMapEntry) (o : ℕ) (v : Bool) (x : ℕ)
    → (x < e.field) ⊎ (e.field + 8 ≤ x)
    → put_option m e o v x ≡ m x
unfolding put_option
put_option-outside m e o v x out = store64-outside m e.field _ x out

-- Options 1 and 2 together make the entry present.
present_of_both :
    (m : Memory) (e : PageMapEntry) → get_option m e 3 ≡ true → get_option m e pme_present ≡ true
unfolding get_option
present_of_both m e h =
    let w = load64 m e.field in
    (==_iff (bit_and w 1) 1).1
      (omega (arith, bit_and_low 2 w, bit_and_low 1 w, (==_iff (bit_and w 3) 3).0 h))

-- The memory once the entry leads to the page at `base`, and once that page is cleared.
abbrev linked : Memory → PageMapEntry → ℕ → Memory
linked m e base = put_option (set_address m e base) e 3 true

abbrev fresh : Memory → PageMapEntry → ℕ → Memory
fresh m e base = clear (map_at base) (linked m e base)

module _ (m : Memory) (e : PageMapEntry) (base : ℕ) (frame : IsFrame base) where
  linked-address : get_address (linked m e base) e ≡ base
  linked-address =
      get_address-put_option (set_address m e base) e 3 (omega arith) true (omega arith)
      ∙ get_address-set_address m e base (omega (arith, frame.bounded)) frame.aligned

  linked-IsLinked : IsLinked (linked m e base) e base
  linked-IsLinked = record {
    present =
        present_of_both (linked m e base) e
          (get_option-put_option-true (set_address m e base) e 3 (omega arith));
    address = linked-address;
  }

  fresh-IsLinked : Apart e.field 8 base 4096 → IsLinked (fresh m e base) e base
  fresh-IsLinked apart =
      IsLinked-congr (linked m e base) (fresh m e base) e base
        (λ x p q. sym (clear-outside (map_at base) frame.bounded (linked m e base) x (omega arith)))
        linked-IsLinked

  fresh-outside :
      (x : ℕ)
      → (x < e.field) ⊎ (e.field + 8 ≤ x)
      → (x < base) ⊎ (base + 4096 ≤ x)
      → fresh m e base x ≡ m x
  fresh-outside x out_entry out_page =
      clear-outside (map_at base) frame.bounded (linked m e base) x out_page
      ∙ put_option-outside (set_address m e base) e 3 true x out_entry
      ∙ set_address-outside m e base x out_entry

-- The state after `mapPage` has added the page of index `p` as the map below `e`.
abbrev pub added : Kernel → PageMapEntry → ℕ → Kernel
added k e p = record k {
  memory = fresh k.memory e (k.pages p).base;
  pages = update_page k.pages p (inc_references (k.pages p));
  trace = invlpg (k.pages p).base ∷ k.trace;
}

link_new-eq :
    (k : Kernel) (e : PageMapEntry) (p : ℕ)
    → IsFrame (k.pages p).base
    → link_new e p k ≡ ok (true, (k.pages p).base) (added k e p)
unfolding link_new
link_new-eq k e p frame = rw (linked-address k.memory e (k.pages p).base frame)

-- The rounds that succeed: the entry is present and its map is followed, or it is not and a free
-- page is added.
pub data Descent (fuel : ℕ) (k : Kernel) (self index : ℕ) (new : Bool) (t : ℕ) (k' : Kernel)
    : Type 0 where
  follow :
      get_option k.memory (entry_at self index) pme_present ≡ true
      → t ≡ get_address k.memory (entry_at self index)
      → new ≡ false
      → k' ≡ k
      → Descent fuel k self index new t k'
  add :
      (p : ℕ)
      → get_option k.memory (entry_at self index) pme_present ≡ false
      → get_free_page fuel k ≡ ok (some p) k
      → t ≡ (k.pages p).base
      → new ≡ true
      → k' ≡ added k (entry_at self index) p
      → Descent fuel k self index new t k'

-- What a round leaves, for a map at `t` apart from the entry: the entry leads to `t`, and the rest
-- of the memory outside that map, the addresses of pages and the root are as before.
pub record IsDescended (k : Kernel) (e : PageMapEntry) (t : ℕ) (k' : Kernel) : Type 0 where
  pub linked_to : IsLinked k'.memory e t
  pub outside :
      (x : ℕ)
      → (x < e.field) ⊎ (e.field + 8 ≤ x)
      → (x < t) ⊎ (t + 4096 ≤ x)
      → k'.memory x ≡ k.memory x
  pub bases : (p : ℕ) → (k'.pages p).base ≡ (k.pages p).base

pub update_page-base :
    (pages : ℕ → Page) (p j : ℕ)
    → (update_page pages p (inc_references (pages p)) j).base ≡ (pages j).base
unfolding inc_references
update_page-base pages p j = elim (Bool-cases (j == p)) [
  | inl same ↦ rw (same, (==_iff j p).0 same)
  | inr other ↦ rw other
]

follow-IsDescended :
    (k : Kernel) (e : PageMapEntry)
    → get_option k.memory e pme_present ≡ true
    → IsDescended k e (get_address k.memory e) k
follow-IsDescended k e present = record {
  linked_to = record { present = present; address = refl };
  outside = λ x p q. refl;
  bases = λ p. refl;
}

add-IsDescended :
    (k : Kernel) (e : PageMapEntry) (p : ℕ)
    → IsFrame (k.pages p).base
    → Apart e.field 8 (k.pages p).base 4096
    → IsDescended k e (k.pages p).base (added k e p)
add-IsDescended k e p frame apart = record {
  linked_to = fresh-IsLinked k.memory e (k.pages p).base frame apart;
  outside = fresh-outside k.memory e (k.pages p).base frame;
  bases = update_page-base k.pages p;
}

module _ {fuel : ℕ} {k : Kernel} {self index : ℕ} {new : Bool} {t : ℕ} {k' : Kernel}
    (frame : IsFrame t) where
  -- Such a round is what the code does.
  pub Descent-descend :
      Descent fuel k self index new t k' → descend fuel self index k ≡ ok (new, t) k'
  unfolding descend
  Descent-descend (follow present e en ek) = rw (present, e, en, ek)
  Descent-descend (add p absent free e en ek) =
      rw (absent, free, e, en, ek) (link_new-eq k (entry_at self index) p (rw e at frame))

  pub Descent-IsDescended :
      Apart (entry_at self index).field 8 t 4096
      → Descent fuel k self index new t k'
      → IsDescended k (entry_at self index) t k'
  Descent-IsDescended apart (follow present e en ek) =
      rw (ek, e) (follow-IsDescended k (entry_at self index) present)
  Descent-IsDescended apart (add p absent free e en ek) =
      rw (ek, e) (add-IsDescended k (entry_at self index) p (rw e at frame) (rw e at apart))
