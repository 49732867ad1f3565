-- ===== src/Paging/Space/Steps.antt =====
-- A run of calls of `mapPage` of src/mm/mm.cpp, and what the page maps have after it.
use kmd.Base.{
  ℕ, ◌-◌, ◌^◌, ◌≡◌, ◌∙◌, ◌⊎◌, inl, inr, refl, ap, true, Option, none, some, List, bit_and, ◌==◌,
  ==_iff,
}
use kmd.Kernel.{Kernel}
use kmd.Memory.{load64}
use kmd.PageMapEntry.{null_entry, get_address, get_option, pme_present}
use kmd.PageMap.{map_at}
use kmd.Zones.FreePage.{CanScan}
use kmd.Zones.Unchanged.{CanScan-unchanged}
use kmd.Paging.{get_pme}
use kmd.Paging.Tree.Walk.{Leaf-unique}
use kmd.Paging.Tree.Lookup.{Found, get_pme-Found}
use kmd.Paging.Space.{IsSpace, Has}
use kmd.Paging.Space.Mappings.{
  Mapping, lookup, word_of, Steps, start, step, Agrees, IsStepped, returned-IsMapped, Has-word_of,
  Agrees-lookup,
}

-- From a state where the page maps are a tree apart from the free pages and `getFreePage` can search
-- the zones, calls of `mapPage` that return, each of a page that `getPage` finds and whose
-- references are not used up, with flags that have the present bit and only option bits, lead to
-- such a state again. The zones and their number are as they were, no page record changes its base, an address whose page was mapped has a word
-- that maps the page of the latest such call with at least its flags, and the others have the words that
-- they had. A word of the start has become the one to which each call for its page in turn has given
-- the base of its page, its flags, and the low twelve bits of the word before.
pub Steps-IsStepped :
    (fuel : ℕ) (k0 k : Kernel) (log : List Mapping)
    → IsSpace k0
    → CanScan k0 fuel
    → Steps fuel k0 k log
    → IsStepped fuel k0 k log
unfolding lookup word_of
Steps-IsStepped fuel k0 _ _ space scan start = record {
  space = space;
  scan = scan;
  zones = (refl, refl);
  bases = λ p. refl;
  agrees = λ a w. ((λ h. h), (λ h. h));
  exact = λ a w h. h;
}
Steps-IsStepped fuel k0 _ _ space scan
      (step {k} {k'} {log} m src new steps known frame small low present run) =
    let old = Steps-IsStepped fuel k0 k log space scan steps in
    let mapped =
      returned-IsMapped fuel k k' m src new old.space old.scan known frame small low present run in
    record {
      space = mapped.space;
      scan = CanScan-unchanged k k' fuel mapped.zones.0 mapped.zones.1 old.scan;
      zones = (mapped.zones.0 ∙ old.zones.0, mapped.zones.1 ∙ old.zones.1);
      bases = λ p. mapped.bases p ∙ old.bases p;
      agrees = λ a. Agrees-lookup k0 k k' m mapped old.bases a log (old.agrees a);
      exact = λ a w h. Has-word_of k0 k k' m mapped old.bases a w log (old.exact a w h);
    }

-- What `getPME` answers for an address, for its latest mapping: the present entry that maps the page
-- and has the flags, or, when there is no mapping, what it answered at the start: a present entry
-- with the same word, or the null entry.
abbrev pub Answers : Kernel → Kernel → ℕ → Option Mapping → Type 0
Answers k0 k a none =
    let e0 = get_pme k0.memory (map_at k0.page_map_level4) a in
    let e = get_pme k.memory (map_at k.page_map_level4) a in
    ((get_option k0.memory e0 pme_present ≡ true)
      × (get_option k.memory e pme_present ≡ true)
      × (load64 k.memory e.field ≡ load64 k0.memory e0.field))
    ⊎ ((e0 ≡ null_entry) × (e ≡ null_entry))
Answers k0 k a (some m) =
    let e = get_pme k.memory (map_at k.page_map_level4) a in
    (get_option k.memory e pme_present ≡ true)
    × (get_address k.memory e ≡ (k0.pages m.page).base)
    × (get_option k.memory e m.flags ≡ true)

Answers-Agrees :
    (k0 k : Kernel) (a : ℕ) (o : Option Mapping)
    → Found k0.memory k0.page_map_level4 a (get_pme k0.memory (map_at k0.page_map_level4) a)
    → Found k.memory k.page_map_level4 a (get_pme k.memory (map_at k.page_map_level4) a)
    → Agrees k0 k a o
    → Answers k0 k a o
unfolding get_address get_option
Answers-Agrees k0 k a none (inl (present0, leaf0)) (inl (present, leaf)) old =
    inl (present0, present, Leaf-unique k.memory k.page_map_level4 a _ _ leaf ((old _).0 leaf0))
Answers-Agrees k0 k a none (inl (_, leaf0)) (inr (_, missing)) old =
    absurd (missing _ ((old _).0 leaf0))
Answers-Agrees k0 k a none (inr (_, missing0)) (inl (_, leaf)) old =
    absurd (missing0 _ ((old _).1 leaf))
Answers-Agrees k0 k a none (inr (e0, _)) (inr (e, _)) old = inr (e0, e)
Answers-Agrees k0 k a (some m) _ (inl (present, leaf)) (w, has, (base, flags)) =
    let same = Leaf-unique k.memory k.page_map_level4 a _ w leaf has in
    (
      present,
      ap (λ x. bit_and x (2 ^ 64 - 4096)) same ∙ base,
      ap (λ x. bit_and x m.flags == m.flags) same ∙ (==_iff _ _).1 flags,
    )
Answers-Agrees k0 k a (some m) _ (inr (_, missing)) (w, has, _) = absurd (missing w has)

-- When the page maps had a word for the address at the start, `getPME` finds the one that the mappings
-- make of it.
abbrev pub Exact : Kernel → Kernel → ℕ → List Mapping → Type 0
Exact k0 k a log =
    let e = get_pme k.memory (map_at k.page_map_level4) a in
    (w : ℕ) → Has k0 a w → load64 k.memory e.field ≡ word_of k0 a log w

Exact-Has :
    (k0 k : Kernel) (a : ℕ) (log : List Mapping)
    → Found k.memory k.page_map_level4 a (get_pme k.memory (map_at k.page_map_level4) a)
    → ((w : ℕ) → Has k0 a w → Has k a (word_of k0 a log w))
    → Exact k0 k a log
Exact-Has k0 k a log (inl (_, leaf)) exact w has =
    Leaf-unique k.memory k.page_map_level4 a _ _ leaf (exact w has)
Exact-Has k0 k a log (inr (_, missing)) exact w has = absurd (missing _ (exact w has))

-- After calls of `mapPage` that return, each of a page that `getPage` finds and whose references
-- are not used up, with flags that have the present bit and only option bits, from a state where
-- the page maps are a tree apart from the free pages and `getFreePage` can search the zones: for an
-- address whose page was mapped, `getPME` returns a present entry with the base of the page of the
-- latest such call and at least its flags; for an address whose page was not mapped, it returns what
-- it returned at the start, a present entry with the same word or the null entry. For an address
-- that had a word at the start, the word of the entry is exactly the one to which each call for its
-- page in turn has given the base of its page, its flags, and the low twelve bits of the word before.
pub Steps-get_pme :
    (fuel : ℕ) (k0 k : Kernel) (log : List Mapping) (a : ℕ)
    → IsSpace k0
    → CanScan k0 fuel
    → Steps fuel k0 k log
    → Answers k0 k a (lookup a log) × Exact k0 k a log
Steps-get_pme fuel k0 k log a space scan steps =
    let after = Steps-IsStepped fuel k0 k log space scan steps in
    let found = get_pme-Found k.memory k.page_map_level4 a in
    (
      Answers-Agrees k0 k a (lookup a log) (get_pme-Found k0.memory k0.page_map_level4 a) found
          (after.agrees a),
      Exact-Has k0 k a log found (after.exact a),
    )
