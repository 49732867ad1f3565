-- ===== src/Mm.antt =====
-- `init` of src/mm/mm.cpp: the order in which the memory manager is set up.
use kmd.Base.{ℕ, none, some, List}
use kmd.Kernel.{Zone, ok, out_of_fuel, Cmd, ◌>>=◌, ◌>>◌}
use kmd.Mboot.{get_mbi_tag}
use kmd.ParseMmap.{Compare, parse_mmap}
use kmd.Crawl.{crawl_paging_tree}
use kmd.Paging.{flush_tlb}

-- `MULTIBOOT_TAG_TYPE_BASIC_MEMINFO` and `MULTIBOOT_TAG_TYPE_MMAP`.
abbrev pub tag_type_basic_meminfo : ℕ
tag_type_basic_meminfo = 4

abbrev pub tag_type_mmap : ℕ
tag_type_mmap = 6

unfoldable pub find_tag : ℕ → ℕ → ℕ → Cmd ℕ
unfolding get_mbi_tag
find_tag fuel addr type k = elim (get_mbi_tag fuel k.memory addr type) [
  | none ↦ out_of_fuel
  | some tag ↦ ok tag k
]

abbrev pub set_root : ℕ → Cmd (Unit {0})
set_root root k = ok tt (record k { page_map_level4 = root })

-- The tag of the basic information is looked for and not used, and `initArena` is empty.
unfoldable pub init : (Compare → List Zone → List Zone) → ℕ → ℕ → ℕ → Cmd (Unit {0})
unfolding find_tag parse_mmap crawl_paging_tree flush_tlb
init qsort fuel tmp_pml4t addr = do
  set_root tmp_pml4t
  find_tag fuel addr tag_type_basic_meminfo
  mmap ← find_tag fuel addr tag_type_mmap
  parse_mmap qsort fuel mmap
  crawl_paging_tree 4 tmp_pml4t
  flush_tlb
