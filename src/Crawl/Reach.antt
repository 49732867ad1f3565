-- ===== src/Crawl/Reach.antt =====
-- When `findPME` of src/mm/mm.cpp finds an entry.
use kmd.Base.{
  ℕ, zero, suc, ◌+◌, ◌≤◌, ◌<◌, ◌≡◌, ◌∙◌, ◌↔◌, sym, ap, subst, refl, Bool, true, false, ◌⊎◌, inl,
  inr, ◌==◌, not, if◌then◌else◌, Bool-cases, arith, ==_false→ne, ==_iff,
}
use mathlib.Core.Bool.{true≢false}
use kmd.Memory.{Memory, load64}
use kmd.PageMapEntry.{PageMapEntry, null_entry, get_field, get_option}
use kmd.PageMap.{PageMap, get_entry, map_of_entry}
use kmd.Crawl.{is_entry_of, find_loop, find_pme}
use kmd.Crawl.Find.{IsFound, find_pme-IsFound}

-- From a map with `level` levels below it there is an entry for the address: in the map itself, or in
-- a map that one of its entries, present or not, leads to.
unfoldable pub Reaches : Memory → ℕ → ℕ → PageMap → Type 0
Reaches m address zero root =
    (i : ℕ) × (i < 512) × (is_entry_of m address (get_entry root i) ≡ true)
Reaches m address (suc level) root =
    (i : ℕ) × (i < 512)
    × ((is_entry_of m address (get_entry root i) ≡ true)
        ⊎ Reaches m address level (map_of_entry m (get_entry root i)))

if_true {ℓ} : {A : Type ℓ} (b : Bool) (x y : A) → b ≡ true → (if b then x else y) ≡ x
if_true b x y e = rw e refl

if_false {ℓ} : {A : Type ℓ} (b : Bool) (x y : A) → b ≡ false → (if b then x else y) ≡ y
if_false b x y e = rw e refl

module _ (m : Memory) (address : ℕ) where
  zero-entry : (e : PageMapEntry) → get_field m e ≡ 0 → is_entry_of m address e ≡ false
  unfolding get_field get_option
  zero-entry e h = rw h refl

  module _ (null_zero : load64 m 0 ≡ 0) where
    null-entry : get_field m null_entry ≡ 0
    unfolding get_field
    null-entry = null_zero

    module _ (below : PageMapEntry → PageMapEntry) (deep : Bool) (Under : PageMapEntry → Type 0)
        (sound : (e : PageMapEntry) → IsFound m address (below e))
        (under : (e : PageMapEntry) → (is_entry_of m address (below e) ≡ true) ↔ Under e)
        (root : PageMap) where
      -- An entry of the map, or one below an entry of the map.
      Hit : ℕ → Type 0
      Hit j =
          (is_entry_of m address (get_entry root j) ≡ true)
          ⊎ ((deep ≡ true) × Under (get_entry root j))

      Hits : ℕ → ℕ → Type 0
      Hits i left = (j : ℕ) × (i ≤ j) × (j < i + left) × Hit j

      Finds : ℕ → ℕ → Type 0
      Finds i left =
          (is_entry_of m address (find_loop below deep left i m address root) ≡ true) ↔ Hits i left

      Hits-skip :
          (i left : ℕ)
          → (Hit i → ⊥)
          → Finds (i + 1) left
          → (is_entry_of m address (find_loop below deep left (i + 1) m address root) ≡ true)
            ↔ Hits i (suc left)
      unfolding Finds Hits
      Hits-skip i left miss (to, from) = (
        (λ h. (let (j, lo, hi, hit) = to h in (j, omega arith, omega arith, hit))),
        (λ (j, lo, hi, hit). (elim (Bool-cases (j == i)) [
          | inl same ↦ absurd (miss (rw ((==_iff j i).0 same) at hit))
          | inr other ↦ from (j, omega (arith, ==_false→ne j i other), omega arith, hit)
        ])),
      )

      abbrev Result : ℕ → ℕ → PageMapEntry
      Result i left = find_loop below deep left i m address root

      -- The three ways of a round.
      Result-here :
          (i left : ℕ)
          → is_entry_of m address (get_entry root i) ≡ true
          → Result i (suc left) ≡ get_entry root i
      unfolding find_loop
      Result-here i left here = if_true _ _ _ here

      Result-below :
          (i left : ℕ)
          → is_entry_of m address (get_entry root i) ≡ false
          → deep ≡ true
          → (get_field m (below (get_entry root i)) == 0) ≡ false
          → Result i (suc left) ≡ below (get_entry root i)
      unfolding find_loop
      Result-below i left miss d found =
          if_false _ _ _ miss ∙ if_true _ _ _ d ∙ if_true _ _ _ (ap not found)

      Result-rest :
          (i left : ℕ)
          → is_entry_of m address (get_entry root i) ≡ false
          → (deep ≡ false) ⊎ ((get_field m (below (get_entry root i)) == 0) ≡ true)
          → Result i (suc left) ≡ Result (i + 1) left
      unfolding find_loop
      Result-rest i left miss (inl shallow) = if_false _ _ _ miss ∙ if_false _ _ _ shallow
      Result-rest i left miss (inr nothing) = elim (Bool-cases deep) [
        | inl d ↦ if_false _ _ _ miss ∙ if_true _ _ _ d ∙ if_false _ _ _ (ap not nothing)
        | inr shallow ↦ if_false _ _ _ miss ∙ if_false _ _ _ shallow
      ]

      below-entry :
          (i : ℕ)
          → (get_field m (below (get_entry root i)) == 0) ≡ false
          → is_entry_of m address (below (get_entry root i)) ≡ true
      below-entry i found = elim (sound (get_entry root i)) [
        | inl entry ↦ entry
        | inr nothing ↦ absurd (==_false→ne _ 0 found (ap (get_field m) nothing ∙ null-entry))
      ]

      no-Hit :
          (i : ℕ)
          → is_entry_of m address (get_entry root i) ≡ false
          → (deep ≡ false) ⊎ ((get_field m (below (get_entry root i)) == 0) ≡ true)
          → Hit i
          → ⊥
      unfolding Hit
      no-Hit i miss why (inl here) = true≢false (sym here ∙ miss)
      no-Hit i miss (inl shallow) (inr (d, _)) = true≢false (sym d ∙ shallow)
      no-Hit i miss (inr nothing) (inr (_, u)) = true≢false (
          sym ((under (get_entry root i)).1 u)
          ∙ zero-entry (below (get_entry root i)) ((==_iff _ 0).0 nothing))

      -- What a round finds, from what its result is.
      Finds-of :
          (i left : ℕ) (e : PageMapEntry)
          → Result i (suc left) ≡ e
          → (is_entry_of m address e ≡ true) ↔ Hits i (suc left)
          → Finds i (suc left)
      unfolding Finds
      Finds-of i left e same =
          subst (λ x. (is_entry_of m address x ≡ true) ↔ Hits i (suc left)) (sym same)

      skip :
          (i left : ℕ)
          → is_entry_of m address (get_entry root i) ≡ false
          → (deep ≡ false) ⊎ ((get_field m (below (get_entry root i)) == 0) ≡ true)
          → Finds (i + 1) left
          → Finds i (suc left)
      skip i left miss why rest =
          Finds-of i left (Result (i + 1) left) (Result-rest i left miss why)
            (Hits-skip i left (no-Hit i miss why) rest)

      find_loop-Finds : (left i : ℕ) → Finds i left
      unfolding find_loop Finds Hits Hit
      find_loop-Finds zero i = (
        (λ h. absurd (true≢false (sym h ∙ zero-entry null_entry null-entry))),
        (λ (j, lo, hi, _). absurd (omega arith)),
      )
      find_loop-Finds (suc left) i =
          let rest = find_loop-Finds left (i + 1) in
          elim (Bool-cases (is_entry_of m address (get_entry root i))) [
            | inl here ↦
                Finds-of i left (get_entry root i) (Result-here i left here)
                  ((λ _. (i, omega arith, omega arith, inl here)), (λ _. here))
            | inr miss ↦ elim (Bool-cases deep) [
              | inr shallow ↦ skip i left miss (inl shallow) rest
              | inl d ↦ elim (Bool-cases (get_field m (below (get_entry root i)) == 0)) [
                | inl nothing ↦ skip i left miss (inr nothing) rest
                | inr found ↦
                    let entry = below-entry i found in
                    Finds-of i left (below (get_entry root i)) (Result-below i left miss d found) (
                      (λ _. (
                        i,
                        omega arith,
                        omega arith,
                        inr (d, (under (get_entry root i)).0 entry),
                      )),
                      (λ _. entry),
                    )
              ]
            ]
          ]

    none_below : (e : PageMapEntry) → (is_entry_of m address null_entry ≡ true) ↔ ⊥
    none_below e = ((λ h. true≢false (sym h ∙ zero-entry null_entry null-entry)), (λ x. absurd x))

    -- A level, from the level below it.
    module _ (level : ℕ) (root : PageMap)
        (next : (e : PageMapEntry)
          → (is_entry_of m address (find_pme m address (suc level) (map_of_entry m e)) ≡ true)
            ↔ Reaches m address level (map_of_entry m e)) where
      abbrev below_at : PageMapEntry → PageMapEntry
      below_at e = find_pme m address (suc level) (map_of_entry m e)

      sound_at : (e : PageMapEntry) → IsFound m address (below_at e)
      sound_at e = find_pme-IsFound m address (suc level) (map_of_entry m e)

      found_at :
          Finds below_at true
            (λ e. Reaches m address level (map_of_entry m e))
            sound_at
            next
            root
            0
            512
      found_at =
          find_loop-Finds below_at true (λ e. Reaches m address level (map_of_entry m e)) sound_at
            next root 512 0

      level-Reaches :
          (is_entry_of m address (find_pme m address (suc (suc level)) root) ≡ true)
          ↔ Reaches m address (suc level) root
      unfolding find_pme Reaches Finds Hits Hit
      level-Reaches = ((λ h. to (found_at.0 h)), (λ (i, lt, hit). found_at.1 (from i lt hit)))
        where
          to :
              Hits below_at true
                (λ e. Reaches m address level (map_of_entry m e))
                sound_at
                next
                root
                0
                512
              → Reaches m address (suc level) root
          to (j, _, lt, inl here) = (j, omega arith, inl here)
          to (j, _, lt, inr (_, deeper)) = (j, omega arith, inr deeper)

          from :
              (i : ℕ)
              → i < 512
              → ((is_entry_of m address (get_entry root i) ≡ true)
                  ⊎ Reaches m address level (map_of_entry m (get_entry root i)))
              → Hits below_at true
                  (λ e. Reaches m address level (map_of_entry m e))
                  sound_at
                  next
                  root
                  0
                  512
          from i lt (inl here) = (i, omega arith, omega arith, inl here)
          from i lt (inr deeper) = (i, omega arith, omega arith, inr (refl, deeper))

    -- When the word at address 0 is zero, `findPME` returns a present entry that holds the address
    -- exactly when there is one in the maps that it searches, down to the last level, also under
    -- entries that are not present.
    pub find_pme-Reaches :
        (level : ℕ) (root : PageMap)
        → (is_entry_of m address (find_pme m address (suc level) root) ≡ true)
          ↔ Reaches m address level root
    unfolding find_pme Reaches Finds Hits Hit
    find_pme-Reaches zero root =
        let found : Finds (λ e. null_entry) false (λ e. ⊥) (λ e. inr refl) none_below root 0 512 =
          find_loop-Finds (λ e. null_entry) false (λ e. ⊥) (λ e. inr refl) none_below root 512 0 in
        (
          (λ h. last_level (found.0 h)),
          (λ (i, lt, here). found.1 (i, omega arith, omega arith, inl here)),
        )
      where
        last_level :
            Hits (λ e. null_entry) false (λ e. ⊥) (λ e. inr refl) none_below root 0 512
            → Reaches m address zero root
        last_level (j, _, lt, inl here) = (j, omega arith, here)
        last_level (j, _, lt, inr (_, x)) = absurd x
    find_pme-Reaches (suc level) root =
        level-Reaches level root (λ e. find_pme-Reaches level (map_of_entry m e))
