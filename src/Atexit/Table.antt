-- ===== src/Atexit/Table.antt =====
-- The table of destructors: it keeps what was registered, in order, up to its size.
use kmd.Base.{
  ℕ, zero, suc, ◌+◌, ◌≤◌, ◌<◌, ◌≡◌, ◌∙◌, refl, some, List, [], ◌∷◌, arith, length, get_elem?,
  length-set, min, get_elem?-set_self, get_elem?-set_ne,
}
use kmd.Atexit.{AtexitFuncEntry, Atexit, atexit_max_funcs, Status, registered, full, cxa_atexit}

-- The array has its fixed size and the count does not exceed it.
pub record IsTable (s : Atexit) : Type 0 where
  pub sized : length s.funcs ≡ atexit_max_funcs
  pub counted : s.func_count ≤ atexit_max_funcs

-- The calls in order.
unfoldable pub register_all : List AtexitFuncEntry → Atexit → Atexit
register_all [] s = s
register_all (e ∷ es) s = register_all es (cxa_atexit e.destructor_func e.obj_ptr e.dso_handle s).1

module _ (s : Atexit) (t : IsTable s) (e : AtexitFuncEntry) where
  abbrev next : Status × Atexit
  next = cxa_atexit e.destructor_func e.obj_ptr e.dso_handle s

  -- One call: with a full table it says so and changes nothing; otherwise it stores the entry
  -- behind the others, which stay, and counts it.
  pub cxa_atexit-full : s.func_count ≡ atexit_max_funcs → next ≡ (full, s)
  unfolding cxa_atexit
  cxa_atexit-full is_full = ground arith

  pub cxa_atexit-room :
      s.func_count < atexit_max_funcs
      → (next.0 ≡ registered)
        × (next.1.func_count ≡ s.func_count + 1)
        × (get_elem? next.1.funcs s.func_count ≡ some e)
  unfolding cxa_atexit
  cxa_atexit-room room = ground (arith, get_elem?-set_self s.funcs s.func_count e)

  cxa_atexit-kept : (j : ℕ) → j < s.func_count → get_elem? next.1.funcs j ≡ get_elem? s.funcs j
  unfolding cxa_atexit
  cxa_atexit-kept j h = ground (arith, get_elem?-set_ne s.funcs s.func_count j e)

  pub cxa_atexit-IsTable : IsTable next.1
  unfolding cxa_atexit
  cxa_atexit-IsTable = ground (arith, length-set s.funcs s.func_count e)

  func_count-cases : next.1.func_count ≡ min 128 (s.func_count + 1)
  unfolding cxa_atexit
  func_count-cases = ground (arith, t.counted)

-- Entries that are in the table stay.
register_all-kept :
    (es : List AtexitFuncEntry) (s : Atexit) (j : ℕ)
    → IsTable s
    → j < s.func_count
    → get_elem? (register_all es s).funcs j ≡ get_elem? s.funcs j
unfolding register_all
register_all-kept [] s j t h = refl
register_all-kept (e ∷ es) s j t h =
    register_all-kept es (next s t e).1 j (cxa_atexit-IsTable s t e)
      (omega (arith, func_count-cases s t e, t.counted))
    ∙ cxa_atexit-kept s t e j h

-- After a sequence of calls the count is the number of entries, or the size of the table if there
-- were more.
pub register_all-func_count :
    (es : List AtexitFuncEntry) (s : Atexit)
    → IsTable s
    → (register_all es s).func_count ≡ min 128 (s.func_count + length es)
unfolding register_all
register_all-func_count [] s t = omega (arith, t.counted)
register_all-func_count (e ∷ es) s t = omega (
  arith,
  register_all-func_count es (next s t e).1 (cxa_atexit-IsTable s t e),
  func_count-cases s t e,
)

-- The entry that was registered as number `j` of a sequence is in the table behind those that
-- were there, if the table reaches that far.
pub register_all-get_elem? :
    (es : List AtexitFuncEntry) (s : Atexit) (j : ℕ)
    → IsTable s
    → j < length es
    → s.func_count + j < 128
    → get_elem? (register_all es s).funcs (s.func_count + j) ≡ get_elem? es j
unfolding register_all
register_all-get_elem? [] s j t h room = absurd (omega arith)
register_all-get_elem? (e ∷ es) s zero t h room =
    let stored = cxa_atexit-room s t e (omega arith) in
    let here : s.func_count + 0 ≡ s.func_count = omega arith in
    rw here (
      register_all-kept es (next s t e).1 s.func_count (cxa_atexit-IsTable s t e)
        (omega (arith, stored.1))
      ∙ stored.2)
register_all-get_elem? (e ∷ es) s (suc j) t h room =
    let stored = cxa_atexit-room s t e (omega arith) in
    let shift : s.func_count + suc j ≡ (next s t e).1.func_count + j = omega (arith, stored.1) in
    rw shift (
      register_all-get_elem? es (next s t e).1 j (cxa_atexit-IsTable s t e) (omega arith)
        (omega (arith, stored.1)))
