-- ===== src/Strcmp/Order.antt =====
-- `strcmp` compares the texts that end in a zero byte.
use kmd.Base.{
  ℕ, zero, suc, ◌+◌, ◌<◌, ◌≡◌, ◌≢◌, ◌∙◌, refl, ap, ltb, if◌then◌else◌, some, List, [], ◌∷◌, arith,
  length, min, ◌↔◌, ◌≤◌, Bool-cases, inl, inr, true, false,
}
use kmd.Memory.{Memory}
use kmd.Strcmp.{Sign, minus, null, plus, rank, char_at, strcmp}

-- At `a` stand the characters of a text and a zero byte.
pub data Text (m : Memory) : ℕ → List ℕ → Type 0 where
  end : {a : ℕ} → char_at m a ≡ 0 → Text m a []
  char : {a : ℕ} {cs : List ℕ} → char_at m a ≢ 0 → Text m (a + 1) cs → Text m a (char_at m a ∷ cs)

-- The comparison of two texts: by the first characters that differ, and by length.
unfoldable pub compare_texts : List ℕ → List ℕ → Sign
compare_texts [] [] = null
compare_texts [] (d ∷ ds) = minus
compare_texts (c ∷ cs) [] = plus
compare_texts (c ∷ cs) (d ∷ ds) =
    if ltb (rank d) (rank c)
    then plus
    else if ltb (rank c) (rank d)
    then minus
    else compare_texts cs ds

compare_self : (cs : List ℕ) → compare_texts cs cs ≡ null
unfolding compare_texts
compare_self [] = refl
compare_self (c ∷ cs) = ground (arith, compare_self cs)

char-lt : (m : Memory) (a : ℕ) → char_at m a < 256
unfolding char_at
char-lt m a = omega arith

module _ {m : Memory} where
  -- With fuel for the shorter text, `strcmp` returns the comparison of the texts.
  pub strcmp-compare_texts :
      (fuel : ℕ) {a b : ℕ} {cs ds : List ℕ}
      → Text m a cs
      → Text m b ds
      → min (length cs) (length ds) < fuel
      → strcmp fuel m a b ≡ some (compare_texts cs ds)
  unfolding strcmp compare_texts
  strcmp-compare_texts zero s t h = absurd (omega arith)
  strcmp-compare_texts (suc fuel) (end e) (end f) h = ground arith
  strcmp-compare_texts (suc fuel) (end e) (char f t) h = ground arith
  strcmp-compare_texts (suc fuel) (char e s) (end f) h = ground arith
  strcmp-compare_texts (suc fuel) (char e s) (char f t) h =
      ground (arith, strcmp-compare_texts fuel s t (omega arith))

  compare-null :
      {a b : ℕ} {cs ds : List ℕ} → Text m a cs → Text m b ds → compare_texts cs ds ≡ null → cs ≡ ds
  unfolding compare_texts rank
  compare-null (end e) (end f) h = refl
  compare-null (end e) (char f t) h = cc
  compare-null (char e s) (end f) h = cc
  compare-null (char {a} e s) (char {a = b} f t) h =
      ground (arith, char-lt m a, char-lt m b, compare-null s t)

  -- `strcmp` returns 0 exactly when the two texts are the same.
  pub strcmp-null_iff :
      (fuel : ℕ) {a b : ℕ} {cs ds : List ℕ}
      → Text m a cs
      → Text m b ds
      → min (length cs) (length ds) < fuel
      → (strcmp fuel m a b ≡ some null) ↔ (cs ≡ ds)
  strcmp-null_iff fuel {cs} {ds} s t h =
      let run = strcmp-compare_texts fuel s t h in
      (λ e. compare-null s t (cc (run, e)), λ e. run ∙ ap some (rw e (compare_self ds)))

-- The order of signed characters: those from 128 on are negative, and stand before the others.
pub data CharLess (c d : ℕ) : Type 0 where
  by_sign : 128 ≤ c → d < 128 → CharLess c d
  positive : c < d → d < 128 → CharLess c d
  negative : 128 ≤ c → c < d → CharLess c d

-- Where two texts stand to each other: the first characters that differ decide, and a text that ends
-- stands before one that goes on.
pub data Compared : List ℕ → List ℕ → Sign → Type 0 where
  both_end : Compared [] [] null
  first_ends : {d : ℕ} {ds : List ℕ} → Compared [] (d ∷ ds) minus
  second_ends : {c : ℕ} {cs : List ℕ} → Compared (c ∷ cs) [] plus
  less : {c d : ℕ} {cs ds : List ℕ} → CharLess c d → Compared (c ∷ cs) (d ∷ ds) minus
  greater : {c d : ℕ} {cs ds : List ℕ} → CharLess d c → Compared (c ∷ cs) (d ∷ ds) plus
  go_on :
      {c d : ℕ} {cs ds : List ℕ} {s : Sign}
      → c ≡ d
      → Compared cs ds s
      → Compared (c ∷ cs) (d ∷ ds) s

ltb-CharLess : (c d : ℕ) → c < 256 → d < 256 → ltb (rank c) (rank d) ≡ true → CharLess c d
unfolding rank
ltb-CharLess c d hc hd h = elim (Bool-cases (ltb c 128)) [
  | inl small ↦ positive (ground arith) (ground arith)
  | inr large ↦ elim (Bool-cases (ltb d 128)) [
    | inl small ↦ by_sign (ground arith) (ground arith)
    | inr both ↦ negative (ground arith) (ground arith)
  ]
]

rank-injective :
    (c d : ℕ)
    → c < 256
    → d < 256
    → ltb (rank c) (rank d) ≡ false
    → ltb (rank d) (rank c) ≡ false
    → c ≡ d
unfolding rank
rank-injective c d hc hd h h' = ground arith

module _ {m : Memory} where
  compare_texts-Compared :
      {a b : ℕ} {cs ds : List ℕ} → Text m a cs → Text m b ds → Compared cs ds (compare_texts cs ds)
  unfolding compare_texts
  compare_texts-Compared (end e) (end f) = both_end
  compare_texts-Compared (end e) (char f t) = first_ends
  compare_texts-Compared (char e s) (end f) = second_ends
  compare_texts-Compared (char {a} e s) (char {a = b} f t) =
      let c = char_at m a in
      let d = char_at m b in
      let rest = compare_texts-Compared s t in
      elim (Bool-cases (ltb (rank d) (rank c))) [
        | inl above ↦ rw above (greater (ltb-CharLess d c (char-lt m b) (char-lt m a) above))
        | inr h ↦ elim (Bool-cases (ltb (rank c) (rank d))) [
          | inl below ↦ rw (h, below) (less (ltb-CharLess c d (char-lt m a) (char-lt m b) below))
          | inr h' ↦ rw (h, h') (go_on (rank-injective c d (char-lt m a) (char-lt m b) h' h) rest)
        ]
      ]

  -- With fuel for the shorter text, `strcmp` returns where the texts stand to each other: the first
  -- characters that differ decide, in the order of signed characters, and a text that ends stands
  -- before one that goes on.
  pub strcmp-compare :
      (fuel : ℕ) {a b : ℕ} {cs ds : List ℕ}
      → Text m a cs
      → Text m b ds
      → min (length cs) (length ds) < fuel
      → (s : Sign) × (strcmp fuel m a b ≡ some s) × Compared cs ds s
  strcmp-compare fuel {cs} {ds} s t h =
      (compare_texts cs ds, strcmp-compare_texts fuel s t h, compare_texts-Compared s t)
