-- ===== src/Tests/Boot.antt =====
-- The ranges of pages, the walks over whole trees, and what is done at the entry of the kernel.
use kmd.Base.{ℕ, ◌≡◌, ◌↔◌, [], ◌∷◌, true, none, List, refl}
use kmd.Memory.{load64, load_bytes, Memory, store64, store_bytes}
use kmd.Kernel.{Zone}
use kmd.Crawl.{is_entry_of, find_pme}
use kmd.Crawl.Reach.{Reaches, find_pme-Reaches}
use kmd.BootPaging.{Boot}
use kmd.ParseMmap.Merged.{join}

-- The map at 0x1000 has one entry, for the map at 0x2000, which has one for the page at 0x5000.
tables : Memory
unfolding store64 store_bytes
tables = store64 (store64 (λ _. 0) 0x1000 0x2003) 0x2000 0x5003

boot : Boot
unfolding tables
boot = record { memory = tables; tmp_pml4t = 0x1000; tmp_pt = 0x2000 }

-- Three zones, of which the second follows the first without a gap.
abbrev zone : ℕ → ℕ → Zone
zone begin end = record { begin = begin; end = end; pages = none }

abbrev later : List Zone
later = zone 0x1000 0x3000 ∷ zone 0x8000 0x9000 ∷ []

joined_zones : join (zone 0 0x1000) later ≡ zone 0 0x3000 ∷ zone 0x8000 0x9000 ∷ []
unfolding join
joined_zones = refl

null_word : load64 tables 0 ≡ 0
unfolding tables load64 load_bytes
null_word = refl

find_pme-Reaches_example :
    (is_entry_of tables 0x5000 (find_pme tables 0x5000 2 (record { fields = 0x1000 })) ≡ true)
    ↔ Reaches tables 0x5000 1 (record { fields = 0x1000 })
find_pme-Reaches_example = find_pme-Reaches tables 0x5000 null_word 1 (record { fields = 0x1000 })
