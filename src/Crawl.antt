-- ===== src/Crawl.antt =====
-- The walks over whole trees of page maps in src/mm/mm.cpp: `findPME` and `crawlPagingTree`.
pub mod Counts
pub mod Find
pub mod Leaves
pub mod Reach
use kmd.Base.{ℕ, zero, suc, ◌+◌, Bool, true, false, ◌&&◌, not, ◌==◌, if◌then◌else◌, none, some}
use kmd.Memory.{Memory}
use kmd.Kernel.{Kernel, Run, ok, fault, out_of_fuel, Cmd, pure, ◌>>=◌, ◌>>◌}
use kmd.PageMapEntry.{PageMapEntry, null_entry, get_address, get_field, get_option, pme_present}
use kmd.PageMap.{PageMap, map_of_entry, get_entry}
use kmd.Page.{inc_page}
use kmd.Zones.{get_page}

-- The test of `findPME`.
abbrev pub is_entry_of : Memory → ℕ → PageMapEntry → Bool
is_entry_of m address pme = get_option m pme pme_present && (get_address m pme == address)

-- The loop of `findPME` from entry `i`, with `left` entries to go; `below` is what the next level
-- finds under an entry, and `none` when there is no next level.
unfoldable pub find_loop :
    (PageMapEntry → PageMapEntry) → Bool → ℕ → ℕ → Memory → ℕ → PageMap → PageMapEntry
find_loop below deep zero i m address root = null_entry
find_loop below deep (suc left) i m address root =
    let pme = get_entry root i in
    let rest = find_loop below deep left (i + 1) m address root in
    if is_entry_of m address pme
    then pme
    else if deep
    then if not (get_field m (below pme) == 0) then below pme else rest
    else rest

-- A call is for a level from 4 down to 1; the next level is searched under every entry, also under
-- one that is not present.
unfoldable pub find_pme : Memory → ℕ → ℕ → PageMap → PageMapEntry
unfolding find_loop map_of_entry
find_pme m address zero root = find_loop (λ pme. null_entry) false 512 0 m address root
find_pme m address (suc zero) root = find_loop (λ pme. null_entry) false 512 0 m address root
find_pme m address (suc (suc level)) root =
    find_loop (λ pme. find_pme m address (suc level) (map_of_entry m pme)) true 512 0 m address root

-- `getPage(address)->incReferences()`, with no test for a null pointer.
unfoldable pub count_page : ℕ → Cmd (Unit {0})
count_page address = do pg ← get_page address; elim pg [ none ↦ λ _. fault | some p ↦ inc_page p ]

-- The loop of `crawlPagingTree` from entry `i`; `visit` is what is done with a present entry.
unfoldable pub crawl_loop : (ℕ → Cmd (Unit {0})) → ℕ → ℕ → PageMap → Cmd (Unit {0})
crawl_loop visit zero i root k = ok tt k
crawl_loop visit (suc left) i root k =
    let pme = get_entry root i in
    if get_option k.memory pme pme_present
    then (visit (get_address k.memory pme) >> crawl_loop visit left (i + 1) root) k
    else crawl_loop visit left (i + 1) root k

-- A call is for a level from 4 down to 1.
unfoldable pub crawl_paging_tree : ℕ → ℕ → Cmd (Unit {0})
unfolding crawl_loop
crawl_paging_tree zero root = λ _. out_of_fuel
crawl_paging_tree (suc zero) root = crawl_loop count_page 512 0 (record { fields = root })
crawl_paging_tree (suc (suc level)) root =
    crawl_loop (crawl_paging_tree (suc level)) 512 0 (record { fields = root })
