-- ===== src/Paging.antt =====
-- The walks of the page maps in src/mm/mm.cpp: `getPME`, `mapPage`, `map`, `mapFirst` and
-- `flushTLB`. Page maps are reached at their physical addresses, as the code reaches them.
pub mod Index
pub mod Descent
pub mod PutPage
pub mod MapPage
pub mod Tree
pub mod Space
use kmd.Base.{
  ℕ, zero, suc, ◌+◌, ◌-◌, ◌*◌, ◌^◌, Bool, true, false, ◌||◌, bit_and, bit_or, ◌==◌, if◌then◌else◌,
  Option, none, some, u16, u64, ◌<<<◌, ◌>>>◌, ◌∷◌,
}
use kmd.Memory.{Memory}
use kmd.Kernel.{
  Kernel, Event, invlpg, load_cr3, ok, fault, Cmd, pure, emit, invalidate_tlb_entry, ◌>>=◌, ◌>>◌,
}
use kmd.PageMapEntry.{
  PageMapEntry, null_entry, entry_at, get_address, get_option, set_address, set_option, pme_present,
  pme_rw,
}
use kmd.PageMap.{PageMap, map_at, map_of_entry, get_entry, clear}
use kmd.Page.{inc_page}
use kmd.Zones.{get_page, get_free_page}

-- The index that `getPME` uses at a level.
abbrev pub walk_index : ℕ → ℕ → ℕ
walk_index addr level = bit_and (addr >>> ((level - 1) * 9 + 12)) 0x1FF

-- The index that `mapPage` uses, which goes through a `u16`.
abbrev pub map_index : ℕ → ℕ → ℕ
map_index dst level = bit_and (u16 (dst >>> (12 + 9 * (level - 1)))) 0x1FF

-- The loop of `getPME` at a level. It returns at level 1 at the latest.
unfoldable pub get_pme_loop : ℕ → Memory → PageMap → ℕ → PageMapEntry
get_pme_loop zero m root addr = null_entry
get_pme_loop (suc zero) m root addr =
    let pme = get_entry root (walk_index addr 1) in
    if get_option m pme pme_present then pme else null_entry
get_pme_loop (suc (suc level)) m root addr =
    let pme = get_entry root (walk_index addr (suc (suc level))) in
    let rest = get_pme_loop (suc level) m (map_of_entry m pme) addr in
    if get_option m pme pme_present then rest else null_entry

unfoldable pub get_pme : Memory → PageMap → ℕ → PageMapEntry
unfolding get_pme_loop map_of_entry
get_pme m root addr = get_pme_loop 4 m root addr

-- `cr3` is read and written back, which drops all translations.
unfoldable pub flush_tlb : Cmd (Unit {0})
flush_tlb k = ok tt (record k { trace = load_cr3 k.cr3 ∷ k.trace })

unfoldable pub put_address : PageMapEntry → ℕ → Cmd (Unit {0})
unfolding set_address
put_address e address k = ok tt (record k { memory = set_address k.memory e address })

unfoldable pub clear_map : PageMap → Cmd (Unit {0})
unfolding clear
clear_map p k = ok tt (record k { memory = clear p k.memory })

-- The branch of `mapPage` for an entry that is not present: a free page becomes the next map.
unfoldable pub link_new : PageMapEntry → ℕ → Cmd (Bool × ℕ)
unfolding put_address set_option inc_page clear_map get_address
link_new pme pg k =
    (do
      put_address pme (k.pages pg).base
      set_option pme (bit_or pme_present pme_rw) true
      inc_page pg
      next ← λ k'. ok (get_address k'.memory pme) k'
      clear_map (map_at next)
      pure (true, next))
      k

-- One round of the loop of `mapPage`: whether a map was added, and the map of the next level.
unfoldable pub descend : ℕ → ℕ → ℕ → Cmd (Bool × ℕ)
unfolding get_address
descend fuel self index k =
    let pme = entry_at self index in
    if get_option k.memory pme pme_present
    then ok (false, get_address k.memory pme) k
    else (do pg ← get_free_page fuel; elim pg [ none ↦ λ _. fault | some p ↦ link_new pme p ]) k

-- The loop of `mapPage`, with `n` rounds to go: at levels `n + 1` down to 2.
unfoldable pub descend_all : ℕ → ℕ → ℕ → Bool → ℕ → Cmd (Bool × ℕ)
descend_all fuel zero dst pt_mod self = pure (pt_mod, self)
descend_all fuel (suc n) dst pt_mod self = do
  (new, next) ← descend fuel self (map_index dst (n + 2))
  descend_all fuel n dst (pt_mod || new) next

-- The end of `mapPage`: the entry of the last level.
unfoldable pub put_page : ℕ → ℕ → ℕ → ℕ → Cmd (Unit {0})
unfolding put_address set_option
put_page dst npg flags self = do
  let npme = entry_at self (bit_and (dst >>> 12) 0x1FF)
  invalidate_tlb_entry dst
  (λ k. put_address npme (k.pages npg).base k)
  set_option npme flags true

unfoldable pub map_known : ℕ → ℕ → ℕ → ℕ → Cmd Bool
map_known fuel dst npg flags = do
  inc_page npg
  (λ k.
      (do
        (pt_mod, self) ← descend_all fuel 3 dst false k.page_map_level4
        put_page dst npg flags self
        pure pt_mod)
        k)

unfoldable pub map_page : ℕ → ℕ → ℕ → ℕ → Cmd Bool
map_page fuel dst src flags = do
  npg ← get_page src
  elim npg [ none ↦ pure false | some p ↦ map_known fuel dst p flags ]
