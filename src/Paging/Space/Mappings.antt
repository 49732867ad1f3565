-- ===== src/Paging/Space/Mappings.antt =====
-- Calls of `mapPage` of src/mm/mm.cpp one behind the other, and what each does to the words that the
-- page maps have.
use kmd.Base.{
  ℕ, suc, ◌+◌, ◌%◌, ◌^◌, ◌<◌, ◌≡◌, ◌≢◌, ◌∙◌, ◌↔◌, inl, inr, sym, ap, subst, Bool, Option, none,
  some, List, [], ◌∷◌, bit_or, ◌==◌, ==_iff, ==_false→ne, Bool-cases, if◌then◌else◌,
}
use kmd.Kernel.{Kernel, ok, fault}
use kmd.Zones.{get_page}
use kmd.Zones.FreePage.{CanScan}
use kmd.Paging.{map_page}
use kmd.Paging.Descent.{IsFrame}
use kmd.Paging.Tree.Walk.{page_number, Leaf-page}
use kmd.Paging.Space.{IsSpace, Has}
use kmd.Paging.Space.MapPage.{IsWord, IsMapped, map_page-IsMapped}

-- A mapping: an address, a page and the flags.
pub record Mapping : Type 0 where
  pub dst : ℕ
  pub page : ℕ
  pub flags : ℕ

-- The latest mapping of the page of an address; the latest of the list is the first.
unfoldable pub lookup : ℕ → List Mapping → Option Mapping
lookup a [] = none
lookup a (m ∷ log) =
    let rest = lookup a log in if page_number a == page_number m.dst then some m else rest

-- The states that calls of `mapPage` that return lead to, with the mappings that were made. Each
-- call is of a page that `getPage` finds and whose references are not used up, with flags that
-- have the present bit and only option bits.
pub data Steps (fuel : ℕ) (k0 : Kernel) : Kernel → List Mapping → Type 0 where
  start : Steps fuel k0 k0 []
  step :
      {k k' : Kernel} {log : List Mapping} (m : Mapping) (src : ℕ) (new : Bool)
      → Steps fuel k0 k log
      → get_page src k ≡ ok (some m.page) k
      → IsFrame (k.pages m.page).base
      → (k.pages m.page).references + 1 < 2 ^ 64
      → m.flags < 4096
      → m.flags % 2 ≡ 1
      → map_page (suc fuel) m.dst src m.flags k ≡ ok new k'
      → Steps fuel k0 k' (m ∷ log)

-- The word of an address after the mappings, from its word before them: each mapping of its page
-- writes the base of the mapped page, keeps the low twelve bits and sets the flags.
unfoldable pub word_of : Kernel → ℕ → List Mapping → ℕ → ℕ
word_of k0 a [] w = w
word_of k0 a (m ∷ log) w =
    let rest = word_of k0 a log w in
    if page_number a == page_number m.dst
    then bit_or ((k0.pages m.page).base + rest % 4096) m.flags
    else rest

-- What the page maps have for an address, for its latest mapping: a word that maps the page, or
-- the words that they had at the start.
abbrev pub Agrees : Kernel → Kernel → ℕ → Option Mapping → Type 0
Agrees k0 k a none = (w : ℕ) → Has k0 a w ↔ Has k a w
Agrees k0 k a (some m) = (w : ℕ) × Has k a w × IsWord (k0.pages m.page).base m.flags w

pub record IsStepped (fuel : ℕ) (k0 k : Kernel) (log : List Mapping) : Type 0 where
  pub space : IsSpace k
  pub scan : CanScan k fuel
  pub zones : (k.zones ≡ k0.zones) × (k.zones_nr ≡ k0.zones_nr)
  pub bases : (p : ℕ) → (k.pages p).base ≡ (k0.pages p).base
  pub agrees : (a : ℕ) → Agrees k0 k a (lookup a log)
  pub exact : (a w : ℕ) → Has k0 a w → Has k a (word_of k0 a log w)

ok-injective : {a b : Bool} {k k' : Kernel} → ok a k ≡ ok b k' → k ≡ k'
ok-injective e = cc e

pub returned-IsMapped :
    (fuel : ℕ) (k k' : Kernel) (m : Mapping) (src : ℕ) (new : Bool)
    → IsSpace k
    → CanScan k fuel
    → get_page src k ≡ ok (some m.page) k
    → IsFrame (k.pages m.page).base
    → (k.pages m.page).references + 1 < 2 ^ 64
    → m.flags < 4096
    → m.flags % 2 ≡ 1
    → map_page (suc fuel) m.dst src m.flags k ≡ ok new k'
    → IsMapped k m.dst m.page m.flags k'
returned-IsMapped fuel k k' m src new space scan known frame small low present run =
    elim (map_page-IsMapped fuel k m.dst src m.flags m.page space scan frame small low present
      known) [
        | inl (run', _) ↦ let e : ok new k' ≡ fault = sym run ∙ run' in absurd (cc e)
        | inr (new', k'', run', mapped) ↦
            subst (IsMapped k m.dst m.page m.flags) (ok-injective (sym run' ∙ run)) mapped
      ]

module _ (k0 k k' : Kernel) (m : Mapping) (mapped : IsMapped k m.dst m.page m.flags k')
    (bases : (p : ℕ) → (k.pages p).base ≡ (k0.pages p).base) where
  Agrees-same : (a : ℕ) → page_number a ≡ page_number m.dst → Agrees k0 k' a (some m)
  Agrees-same a e = (
    mapped.word,
    Leaf-page k'.memory k'.page_map_level4 m.dst a mapped.word (sym e) mapped.has,
    (rw (← bases m.page) mapped.maps),
  )

  Agrees-other :
      (a : ℕ) (o : Option Mapping)
      → page_number a ≢ page_number m.dst
      → Agrees k0 k a o
      → Agrees k0 k' a o
  Agrees-other a none ne old = λ w.
      let (to, from) = mapped.others a w ne in ((λ h. to ((old w).0 h)), (λ h. (old w).1 (from h)))
  Agrees-other a (some n) ne (w, has, word) = (w, (mapped.others a w ne).0 has, word)

  pub Has-word_of :
      (a w : ℕ) (log : List Mapping)
      → Has k a (word_of k0 a log w)
      → Has k' a (word_of k0 a (m ∷ log) w)
  unfolding word_of
  Has-word_of a w log old = elim (Bool-cases (page_number a == page_number m.dst)) [
    | inl same ↦
        let e = (==_iff (page_number a) (page_number m.dst)).0 same in
        let was = mapped.was _ (Leaf-page k.memory k.page_map_level4 a m.dst _ e old) in
        let new : mapped.word
            ≡ bit_or ((k0.pages m.page).base + word_of k0 a log w % 4096) m.flags =
          mapped.written
          ∙ ap (λ x. bit_or (x + mapped.old % 4096) m.flags) (bases m.page)
          ∙ ap (λ x. bit_or ((k0.pages m.page).base + x % 4096) m.flags) (sym was) in
        rw same (
          subst (Has k' a) new
            (Leaf-page k'.memory k'.page_map_level4 m.dst a mapped.word (sym e) mapped.has))
    | inr other ↦ rw other ((mapped.others a _ (==_false→ne _ _ other)).0 old)
  ]

  pub Agrees-lookup :
      (a : ℕ) (log : List Mapping)
      → Agrees k0 k a (lookup a log)
      → Agrees k0 k' a (lookup a (m ∷ log))
  unfolding lookup
  Agrees-lookup a log old = elim (Bool-cases (page_number a == page_number m.dst)) [
    | inl same ↦ rw same (Agrees-same a ((==_iff _ _).0 same))
    | inr other ↦ rw other (Agrees-other a (lookup a log) (==_false→ne _ _ other) old)
  ]
