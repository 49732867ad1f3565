-- ===== src/Chunk/Chain/Lists.antt =====
-- Chains of chunks that are put together and taken apart.
use kmd.Base.{ℕ, ◌≡◌, ◌∙◌, ◌↔◌, sym, ap, refl, List, [], ◌∷◌, ◌++◌, All, arith}
use kmd.Memory.{Memory}
use kmd.Chunk.{Header, get_prev, get_next}
use kmd.Chunk.Fields.{Disjoint, header}
use kmd.Chunk.Chain.{head_or, Links, Apart}

pub last_or : ℕ → List ℕ → ℕ
last_or p [] = p
last_or p (c ∷ xs) = last_or c xs

head_or-append : (e : ℕ) (xs ys : List ℕ) → head_or e (xs ++ ys) ≡ head_or (head_or e ys) xs
head_or-append e [] ys = refl
head_or-append e (c ∷ xs) ys = refl

pub Links-append :
    (m : Memory) (e p : ℕ) (xs ys : List ℕ)
    → Links m e p (xs ++ ys) ↔ (Links m (head_or e ys) p xs × Links m e (last_or p xs) ys)
unfolding Links last_or
Links-append m e p [] ys = ((λ l. (tt, l)), (λ (_, l). l))
Links-append m e p (c ∷ xs) ys =
    let (to, from) = Links-append m e c xs ys in
    let same = head_or-append e xs ys in
    (
      (λ (prev, next, l). (let (x, y) = to l in ((prev, next ∙ same, x), y))),
      (λ ((prev, next, l), y). (prev, next ∙ sym same, from (l, y))),
    )

-- A chunk has the links that it had.
abbrev pub SameLinks : Memory → Memory → ℕ → Type 0
SameLinks m m' c = (get_prev m' c ≡ get_prev m c) × (get_next m' c ≡ get_next m c)

pub header-SameLinks : (m m' : Memory) (c : ℕ) → header m' c ≡ header m c → SameLinks m m' c
header-SameLinks m m' c same = (ap (λ (h : Header). h.prev) same, ap (λ (h : Header). h.next) same)

pub Links-same :
    (m m' : Memory) (e p : ℕ) (xs : List ℕ)
    → All (SameLinks m m') xs
    → Links m e p xs
    → Links m' e p xs
unfolding Links
Links-same m m' e p [] same l = tt
Links-same m m' e p (c ∷ xs) ((here, there), rest) (prev, next, l) =
    (here ∙ prev, there ∙ next, Links-same m m' e c xs rest l)

pub All-map {ℓ κ μ} :
    {A : Type ℓ} (P : A → Type κ) (Q : A → Type μ) (xs : List A)
    → ((a : A) → P a → Q a)
    → All P xs
    → All Q xs
All-map P Q [] f h = tt
All-map P Q (a ∷ xs) f (here, rest) = (f a here, All-map P Q xs f rest)

pub All-both {ℓ κ μ} :
    {A : Type ℓ} (P : A → Type κ) (Q : A → Type μ) (xs : List A)
    → All P xs
    → All Q xs
    → All (λ a. P a × Q a) xs
All-both P Q [] h k = tt
All-both P Q (a ∷ xs) (h, hs) (k, ks) = ((h, k), All-both P Q xs hs ks)

-- Without one of the elements.
pub All-without {ℓ κ} :
    {A : Type ℓ} (P : A → Type κ) (xs : List A) (a : A) (ys : List A)
    → All P (xs ++ a ∷ ys)
    → P a × All P (xs ++ ys)
All-without P [] a ys (h, rest) = (h, rest)
All-without P (x ∷ xs) a ys (h, rest) =
    let (here, others) = All-without P xs a ys rest in (here, (h, others))

pub All-with {ℓ κ} :
    {A : Type ℓ} (P : A → Type κ) (xs : List A) (a : A) (ys : List A)
    → P a
    → All P (xs ++ ys)
    → All P (xs ++ a ∷ ys)
All-with P [] a ys here rest = (here, rest)
All-with P (x ∷ xs) a ys here (h, rest) = (h, All-with P xs a ys here rest)

pub All-split {ℓ κ} :
    {A : Type ℓ} (P : A → Type κ) (xs ys : List A) → All P (xs ++ ys) ↔ (All P xs × All P ys)
All-split P [] ys = ((λ h. (tt, h)), (λ (_, h). h))
All-split P (x ∷ xs) ys =
    let (to, from) = All-split P xs ys in
    ((λ (h, rest). (let (a, b) = to rest in ((h, a), b))), (λ ((h, a), b). (h, from (a, b))))

pub Disjoint-sym : (c d : ℕ) → Disjoint c d → Disjoint d c
Disjoint-sym c d h = omega arith

-- A chunk of a chain is apart from the others, and these from each other.
pub Apart-without :
    (xs : List ℕ) (c : ℕ) (ys : List ℕ)
    → Apart (xs ++ c ∷ ys)
    → All (Disjoint c) (xs ++ ys) × Apart (xs ++ ys)
unfolding Apart
Apart-without [] c ys (h, rest) = (h, rest)
Apart-without (x ∷ xs) c ys (h, rest) =
    let (apart, others) = Apart-without xs c ys rest in
    let (first, h') = All-without (Disjoint x) xs c ys h in
    ((Disjoint-sym x c first, apart), (h', others))

-- A chunk that is apart from all can be put in.
pub Apart-with :
    (xs : List ℕ) (c : ℕ) (ys : List ℕ)
    → All (Disjoint c) (xs ++ ys)
    → Apart (xs ++ ys)
    → Apart (xs ++ c ∷ ys)
unfolding Apart
Apart-with [] c ys h rest = (h, rest)
Apart-with (x ∷ xs) c ys (h, hs) (k, ks) =
    let (left, right) = (All-split (Disjoint x) xs ys).0 k in
    (
      (All-split (Disjoint x) xs (c ∷ ys)).1 (left, (Disjoint-sym c x h, right)),
      Apart-with xs c ys hs ks,
    )

pub append-snoc : (xs : List ℕ) (c : ℕ) (ys : List ℕ) → (xs ++ c ∷ []) ++ ys ≡ xs ++ c ∷ ys
append-snoc [] c ys = refl
append-snoc (x ∷ xs) c ys = ap (λ l. x ∷ l) (append-snoc xs c ys)
