-- ===== src/Crawl/Find.antt =====
-- What `findPME` of src/mm/mm.cpp returns.
use kmd.Base.{
  ℕ, zero, suc, ◌+◌, ◌≡◌, refl, Bool, true, false, ◌⊎◌, inl, inr, ◌==◌, not, if◌then◌else◌,
}
use kmd.Memory.{Memory}
use kmd.PageMapEntry.{PageMapEntry, null_entry, get_field}
use kmd.PageMap.{PageMap, get_entry, map_of_entry}
use kmd.Crawl.{is_entry_of, find_loop, find_pme}

-- An entry that is present and holds the address.
abbrev pub IsFound : Memory → ℕ → PageMapEntry → Type 0
IsFound m address e = (is_entry_of m address e ≡ true) ⊎ (e ≡ null_entry)

-- What holds of both results of a test holds of its result.
if_else {ℓ κ} :
    {A : Type ℓ} (Good : A → Type κ) (b : Bool) {x y : A}
    → (b ≡ true → Good x)
    → Good y
    → Good (if b then x else y)
if_else Good true f g = f refl
if_else Good false f g = g

find_loop-IsFound :
    (below : PageMapEntry → PageMapEntry) (deep : Bool) (left i : ℕ) (m : Memory) (address : ℕ)
    (root : PageMap)
    → ((e : PageMapEntry) → IsFound m address (below e))
    → IsFound m address (find_loop below deep left i m address root)
unfolding find_loop
find_loop-IsFound below deep zero i m address root h = inr refl
find_loop-IsFound below deep (suc left) i m address root h =
    let pme = get_entry root i in
    let rest = find_loop-IsFound below deep left (i + 1) m address root h in
    if_else (IsFound m address) (is_entry_of m address pme) inl (
      if_else (IsFound m address) deep
        (λ d. if_else (IsFound m address) (not (get_field m (below pme) == 0)) (λ e. h pme) rest)
        rest)

-- `findPME` returns an entry that is present and holds the address, or the null entry.
pub find_pme-IsFound :
    (m : Memory) (address level : ℕ) (root : PageMap)
    → IsFound m address (find_pme m address level root)
unfolding find_pme
find_pme-IsFound m address zero root =
    find_loop-IsFound _ false 512 0 m address root (λ e. inr refl)
find_pme-IsFound m address (suc zero) root =
    find_loop-IsFound _ false 512 0 m address root (λ e. inr refl)
find_pme-IsFound m address (suc (suc level)) root =
    find_loop-IsFound _ true 512 0 m address root
      (λ e. find_pme-IsFound m address (suc level) (map_of_entry m e))
