-- ===== src/Ranges/MapFirst/Step.antt =====
-- A page mapped by `mapFirst` of src/mm/mm.cpp, and the rest of the range after it.
use kmd.Base.{
  ℕ, suc, ◌+◌, ◌*◌, ◌^◌, ◌≤◌, ◌≡◌, ◌≢◌, ◌∙◌, ◌⊎◌, inl, inr, sym, refl, true, ◌==◌, if◌then◌else◌,
  arith, Bool-cases, ==_iff, ==_false→ne, ne→==, ==_refl,
}
use kmd.Kernel.{Kernel}
use kmd.Page.{is_free}
use kmd.Paging.Space.{Has}
use kmd.Paging.Space.MapPage.{IsWord, IsMapped}
use kmd.Ranges.{page_dst}
use kmd.Zones.Spare.{Loses-trans, Loses-more}
use kmd.Ranges.MapFirst.{InRange, IsRange, page_number-page_dst}

InRange-split : (i n j : ℕ) → InRange i (suc n) j → (j ≡ i) ⊎ InRange (i + 1) n j
InRange-split i n j h = elim (Bool-cases (j == i)) [
  | inl same ↦ inl ((==_iff j i).0 same)
  | inr other ↦ inr (omega (arith, ==_false→ne j i other))
]

-- The pages of a range whose first page is `p`.
abbrev pick : ℕ → ℕ → (ℕ → ℕ) → ℕ → ℕ
pick i p page j = if j == i then p else page j

pick-later : (i p n : ℕ) (page : ℕ → ℕ) (j : ℕ) → InRange (i + 1) n j → pick i p page j ≡ page j
pick-later i p n page j h = rw (ne→== j i (omega arith)) refl

-- A page is mapped, and then the rest of the range.
module _ (fuel : ℕ) (k k1 k2 : Kernel) (dst i n flags p : ℕ) (free : is_free (k.pages p) ≡ true)
    (m : IsMapped k (page_dst dst i) p flags k1) (rest : IsRange fuel k1 dst (i + 1) n flags k2)
    (bound : i + suc n ≤ 2 ^ 36) where
  abbrev page : ℕ → ℕ
  page = pick i p rest.page

  page-was_free : (j : ℕ) → InRange i (suc n) j → is_free (k.pages (page j)) ≡ true
  page-was_free j h = elim (InRange-split i n j h) [
    | inl e ↦ rw (e, ==_refl i) free
    | inr h' ↦ rw (pick-later i p n rest.page j h') (m.fewer (rest.page j) (rest.was_free j h')).1
  ]

  page-own : (j l : ℕ) → InRange i (suc n) j → InRange i (suc n) l → j ≢ l → page j ≢ page l
  page-own j l h h' ne = elim (InRange-split i n j h) [
    | inl e ↦ elim (InRange-split i n l h') [
      | inl e' ↦ absurd (ne (e ∙ sym e'))
      | inr r ↦
          rw (e, ==_refl i, pick-later i p n rest.page l r)
            (λ q. (m.fewer (rest.page l) (rest.was_free l r)).0 (sym q))
    ]
    | inr r ↦ elim (InRange-split i n l h') [
      | inl e ↦
          rw (e, ==_refl i, pick-later i p n rest.page j r)
            (m.fewer (rest.page j) (rest.was_free j r)).0
      | inr r' ↦
          rw (pick-later i p n rest.page j r, pick-later i p n rest.page l r')
            (rest.own j l r r' ne)
    ]
  ]

  page-taken : (q : ℕ) → is_free (k2.pages q) ≡ true → (j : ℕ) → InRange i (suc n) j → q ≢ page j
  page-taken q free' j h = elim (InRange-split i n j h) [
    | inl e ↦ rw (e, ==_refl i) (m.fewer q (rest.fewer q free')).0
    | inr r ↦ rw (pick-later i p n rest.page j r) (rest.taken q free' j r)
  ]

  first-Has : Has k2 (page_dst dst i) m.word
  first-Has =
      (rest.others (page_dst dst i) m.word
          (λ j h. page_number-page_dst dst i j (omega arith) (omega arith) (omega arith))).0
        m.has

  page-maps :
      (j : ℕ)
      → InRange i (suc n) j
      → (w : ℕ) × Has k2 (page_dst dst j) w × IsWord (k.pages (page j)).base flags w
  page-maps j h = elim (InRange-split i n j h) [
    | inl e ↦ rw (e, ==_refl i) (m.word, first-Has, m.maps)
    | inr r ↦
        let (w, has, word) = rest.maps j r in
        rw (pick-later i p n rest.page j r) (w, has, (rw (← m.bases (rest.page j)) word))
  ]

  pub IsRange-suc : IsRange fuel k dst i (suc n) flags k2
  IsRange-suc = record {
    ready = rest.ready;
    page = page;
    was_free = page-was_free;
    own = page-own;
    taken = page-taken;
    maps = page-maps;
    others = λ a w ne.
        let first = m.others a w (ne i (omega arith)) in
        let later = rest.others a w (λ j h. ne j (omega arith)) in
        ((λ x. later.0 (first.0 x)), (λ x. first.1 (later.1 x)));
    root = rest.root ∙ m.root;
    fewer = λ q free'. (m.fewer q (rest.fewer q free')).1;
    lost =
        Loses-more (4 + 4 * n) (4 * suc n) k k2 (omega arith)
          (Loses-trans 4 (4 * n) k k1 k2 m.lost rest.lost);
  }
