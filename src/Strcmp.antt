-- ===== src/Strcmp.antt =====
-- `strcmp` of src/runtime/cstring.cpp. `char` is signed, as it is on this target.
pub mod Order
use kmd.Base.{ℕ, zero, suc, ◌+◌, ◌%◌, Bool, ◌==◌, ltb, if◌then◌else◌, Option, none, some}
use kmd.Memory.{Memory}

-- The three results: -1, 0 and 1.
pub data Sign : Type 0 where
  minus : Sign
  null : Sign
  plus : Sign

-- The place of a byte in the order of signed characters.
unfoldable pub rank : ℕ → ℕ
rank c = (c + 128) % 256

unfoldable pub char_at : Memory → ℕ → ℕ
char_at m a = m a % 256

-- The tests behind the loop.
unfoldable pub at_end : ℕ → ℕ → Sign
at_end c1 c2 = if c1 == 0 then (if c2 == 0 then null else minus) else plus

-- The loop at the addresses `a` and `b`; `none` means that the fuel ran out.
unfoldable pub strcmp : ℕ → Memory → ℕ → ℕ → Option Sign
unfolding rank char_at at_end
strcmp zero m a b = none
strcmp (suc fuel) m a b =
    let rest = strcmp fuel m (a + 1) (b + 1) in
    let c1 = char_at m a in
    let c2 = char_at m b in
    if c1 == 0
    then some (at_end c1 c2)
    else if c2 == 0
    then some (at_end c1 c2)
    else if ltb (rank c2) (rank c1)
    then some plus
    else if ltb (rank c1) (rank c2)
    then some minus
    else rest
