-- ===== src/BootPaging.antt =====
-- The page maps that the kernel is entered with: src/entry/paging.cpp.
pub mod Levels
pub mod Cover
pub mod PhySize
pub mod Build
pub mod Rounds
pub mod Ends
pub mod Tables
pub mod Digits
pub mod Way
pub mod Written
pub mod Maps
pub mod Range
pub mod Mapping
pub mod Start
use kmd.Base.{
  ℕ, zero, suc, ◌+◌, ◌-◌, ◌*◌, ◌/◌, ◌%◌, ◌^◌, Bool, bit_and, bit_or, ◌==◌, ltb, leb, if◌then◌else◌,
  Option, none, some, u8, u16, u64, sub64, ◌<<<◌, ◌>>>◌,
}
use kmd.Memory.{Memory, load64, store64}
use mathlib.Core.Option.{bind}

abbrev pub page_size : ℕ
page_size = 2 ^ 12

-- The globals `tmp_pml4t` and `tmp_pt`, and the memory.
pub record Boot : Type 0 where
  pub memory : Memory
  pub tmp_pml4t : ℕ
  pub tmp_pt : ℕ

-- `map[i] = 0` from `i` on, with `left` words to go.
unfoldable pub zero_words : ℕ → ℕ → ℕ → Memory → Memory
zero_words zero i map m = m
zero_words (suc left) i map m = zero_words left (i + 1) map (store64 m (u64 (map + 8 * i)) 0)

-- The first map stands on the next boundary of 2 MB behind the kernel, whose end is `end`.
unfoldable pub alloc_pml4t : ℕ → Memory → Boot
unfolding zero_words
alloc_pml4t end m =
    let map = u64 ((end >>> 21) + 1) <<< 21 in
    record { memory = zero_words 512 0 map m; tmp_pml4t = map; tmp_pt = map }

unfoldable pub alloc_pt : Boot → Boot
unfolding zero_words
alloc_pt b =
    let map = u64 (b.tmp_pt + 8 * 512) in
    record b { tmp_pt = map; memory = zero_words 512 0 map b.memory }

-- An element of the local array `l`.
pub record Level : Type 0 where
  pub i : ℕ
  pub self : ℕ

-- The locals of `map_address_range_pt`. `l` has the elements 0 to 4.
pub record Walk : Type 0 where
  pub boot : Boot
  pub cl : ℕ
  pub self : ℕ
  pub ll : ℕ
  pub l : ℕ → Level

abbrev pub set_level : (ℕ → Level) → ℕ → Level → ℕ → Level
set_level l ll v j = if j == ll then v else l j

-- A table is full: back to the one above. There is none above the first.
unfoldable pub go_up : Walk → Option Walk
go_up w =
    let ll = w.ll + 1 in
    let l = set_level w.l w.ll (record { i = 0; self = (w.l w.ll).self }) in
    if leb ll 4 then some (record w { l = l; ll = ll; self = (l ll).self }) else none

-- The table under an entry, which is made if there is none.
unfoldable pub table_under : ℕ → Boot → ℕ × Boot
unfolding alloc_pt
table_under entry b =
    let ns = load64 b.memory entry in
    let b' = alloc_pt b in
    if bit_and ns 1 == 0
    then (b'.tmp_pt, record b' { memory = store64 b'.memory entry (bit_or b'.tmp_pt 3) })
    else ((ns >>> 12) <<< 12, b)

unfoldable pub go_down : Walk → Walk
unfolding table_under
go_down w =
    let at = w.l w.ll in
    let (ns, b) = table_under (u64 (w.self + 8 * at.i)) w.boot in
    let l = set_level w.l w.ll (record { i = u16 (at.i + 1); self = at.self }) in
    let ll = w.ll - 1 in
    record {
      boot = b;
      cl = w.cl;
      self = ns;
      ll = ll;
      l = set_level l ll (record { i = (l ll).i; self = ns });
    }

-- An entry of the last level is written.
unfoldable pub put_entry : ℕ → Walk → Walk
put_entry src w =
    let at = w.l w.ll in
    let m = store64 w.boot.memory (u64 (w.self + 8 * at.i)) (bit_or (u64 (src + w.cl)) 3) in
    record w {
      boot = record w.boot { memory = m };
      cl = u64 (w.cl + 2 ^ 12);
      l = set_level w.l w.ll (record { i = u16 (at.i + 1); self = at.self });
    }

-- The body of the loop; `none` is a read beyond the array `l`.
unfoldable pub walk_step : ℕ → ℕ → Walk → Option Walk
unfolding go_up go_down put_entry
walk_step src last_level w =
    if leb 512 (w.l w.ll).i
    then go_up w
    else if w.ll == last_level
    then some (put_entry src w)
    else some (go_down w)

-- The loop ends, or reads beyond the array `l`, or is still running when the fuel is used up.
pub data Walked : Type 0 where
  walked : Walk → Walked
  beyond : Walked
  running : Walked

unfoldable pub walk_loop : ℕ → ℕ → ℕ → ℕ → Walk → Walked
walk_loop zero src len last_level w = running
walk_loop (suc fuel) src len last_level w =
    let next = elim (walk_step src last_level w) as (λ _. Walked) [
      | none ↦ beyond
      | some w' ↦ walk_loop fuel src len last_level w'
    ] in
    if leb w.cl len then next else walked w

abbrev pub boot_of : Walked → Option Boot
boot_of (walked w) = some w.boot
boot_of beyond = none
boot_of running = none

-- `l` before the loop. The code sets `self` in element 4 alone and nothing in element 0; the other
-- tables are set on the way down, before they are read.
abbrev pub first_level : ℕ → ℕ → ℕ → Level
first_level dst self j = record { i = bit_and (dst >>> ((j - 1) * 9 + 12)) 0x1FF; self = self }

-- `depth` and `perm` are not looked at.
unfoldable pub map_address_range_pt : ℕ → ℕ → ℕ → ℕ → ℕ → ℕ → Boot → Option Boot
unfolding walk_loop walk_step
map_address_range_pt fuel self dst src len last_level b = boot_of (
    walk_loop fuel src len last_level
      (record { boot = b; cl = 0; self = self; ll = 4; l = first_level dst self }))

-- The bits below a page of the last level, and the parts of `map_address_range`.
abbrev pub offset_of : ℕ → ℕ
offset_of last_level = u8 (12 + 9 * (last_level - 1))

abbrev pub start_of : ℕ → ℕ → ℕ
start_of offset addr = (addr >>> offset) <<< offset

unfoldable pub range_len : ℕ → ℕ → ℕ → ℕ → ℕ
range_len offset dst src len =
    let from_src = sub64 src (start_of offset src) in
    let from_dst = sub64 dst (start_of offset dst) in
    let md = if ltb from_dst from_src then from_src else from_dst in
    let nlen = u64 (len + md) in
    if nlen == start_of offset nlen then nlen else u64 ((nlen >>> offset) + 1) <<< offset

unfoldable pub map_address_range : ℕ → ℕ → ℕ → ℕ → ℕ → Boot → Option Boot
unfolding map_address_range_pt range_len
map_address_range fuel dst src len last_level b =
    let offset = offset_of last_level in
    map_address_range_pt fuel b.tmp_pml4t (start_of offset dst) (start_of offset src)
      (range_len offset dst src len) last_level b

-- The loop of `page_level_from_size`; `none` means that the fuel ran out.
unfoldable pub level_loop : ℕ → ℕ → ℕ → Option ℕ
level_loop zero size i = none
level_loop (suc fuel) size i =
    let rest = level_loop fuel (size >>> 9) (i + 1) in if size == 0 then some i else rest

-- A number of 64 bits is 0 after six rounds, so seven tests are enough.
unfoldable pub page_level_from_size : ℕ → Option ℕ
unfolding level_loop
page_level_from_size size = level_loop 7 (size >>> 12) 0
