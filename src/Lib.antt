-- ===== src/Lib.antt =====
-- kmd, an operating system kernel for x86-64 (C++): the entry, the memory manager, the runtime
-- functions, the interrupt table, the timers and the processor's set-up, as functions on explicit
-- state.
--
-- The program. `build_paging_table` (src/entry/paging.cpp) makes the page maps that the kernel is
-- entered with. `kMain` (src/kernel.cpp) then finds the memory map that the boot loader left
-- (src/mboot.cpp), sets up the records of physical pages and their zones (src/mm/mm.cpp,
-- src/mm/Page.cpp), walks and extends the page maps (src/mm/PageMap.cpp,
-- src/mm/PageMapEntry.cpp), and then fills the interrupt table (src/arch64/idt.cpp), starts
-- the local APIC (src/arch64/apic.cpp) with the interval timer (src/arch64/pit.cpp) as its clock, and
-- sets the memory types (src/arch64/arch64.cpp). An arena of
-- chunks (src/mm/Chunk.cpp) serves `smalloc`. The runtime (src/runtime) has `strcmp` and the table
-- of destructors.
--
-- The model.
--   Base: shared names, tests, lists, machine words and the laws of the bit operations.
--   Memory: memory as bytes, with little-endian words of 32 and 64 bits; every pointer to data that
--     the code reaches by casts (chunks, page maps, boot information, texts) is an address in it.
--   Chunk: src/mm/Chunk.cpp and src/include/arena.h, one function for each method; Chunk.Chain is the
--     list that the chunks form.
--   Kernel: the globals of src/mm/mm.cpp and the commands over them, which end with a result, in a
--     fault or out of fuel.
--   Smalloc: `smalloc` of src/mm/mm.cpp.
--   PageMapEntry, PageMap, Page: the classes of those names.
--   Zones: `getPage` and `getFreePage` of src/mm/mm.cpp.
--     Zones.Held is what `getPage` returns for each address, and Zones.Spare counts the pages that
--     `getFreePage` can still find.
--   Paging: `getPME`, `mapPage` and `flushTLB` of src/mm/mm.cpp. Paging.Tree is the tree that the page
--     maps form, Paging.Space the invariant that ties it to the zones and the free pages, and
--     Paging.Space.Steps, over Paging.Space.Mappings, the runs of calls of `mapPage`.
--   Ranges: `map`, `mapFirst`, `salloc` and `kalloc` of src/mm/mm.cpp; Ranges.MapFirst is what
--     `mapFirst` makes of the page maps, Ranges.Sources which page `map` takes, and Ranges.Errors what
--     happens when there is nothing to map.
--   Reg: src/Reg.cpp, over `strcmp`, and `flushTLB` by way of it.
--   Crawl: `findPME` and `crawlPagingTree` of src/mm/mm.cpp.
--   Mmap, ParseMmap: the boot loader's memory map, and `parseMmap` of src/mm/mm.cpp; `qsort` is a
--     parameter.
--   Mm: `init` of src/mm/mm.cpp.
--   BootPaging: src/entry/paging.cpp; the symbols of the linker script are a parameter. The tree of
--     Paging.Tree is also the one that this code builds; BootPaging.Digits has the indices of its walk
--     as the digits of a page number.
--   Hardware: ports, model-specific registers and registers in memory (src/io/io.cpp); what the
--     devices answer is a parameter.
--   Pit, Apic, Arch64: src/arch64/pit.cpp, src/arch64/apic.cpp and src/arch64/arch64.cpp, with the
--     handler of src/interrupts/int.cpp; Arch64.Interrupts is when interrupts are let in. What is said to
--     the processor, `lidt` and `sti`, stands in one list with what is said to the devices.
--   Main: `kMain` of src/kernel.cpp.
--   Stub: src/interrupts/int.s, as lists of instructions that run on registers and a stack, with the
--     handler as a function. Stub.Handle is what they do to the program that is interrupted.
--   Entry: src/entry/entry.s, up to the jump into long mode. Entry.Translate is the translation of
--     addresses by the processor.
--   Strcmp, Atexit: src/runtime/cstring.cpp and `__cxa_atexit` of src/runtime/libcxx.cpp.
--   Idt: src/arch64/idt.cpp; the addresses of the assembly stubs are a parameter.
--   Mboot: `getMBITag` of src/mboot.cpp.
--   Tests: runs at concrete inputs, and each theorem with hypotheses at an input that meets them.
--
-- Numbers are natural numbers with the wrap-around of the width written out. Reads and writes near
-- the end of the address space are those of one flat memory and do not wrap inside a word. A null
-- pointer to data is address 0 of that memory, as on the machine; a null `Page *`, an index beyond
-- the array of zones and a division by zero are faults. The functions of BootPaging have one result,
-- `none`, for a division by zero and for fuel that has run out. The array of page records is a function
-- from indices, apart from the bytes of the memory. Page maps are read and written at their
-- physical addresses, as the code does through its identity mapping, and the translation that the
-- processor makes of the kernel's own accesses is not modelled; what it is told (`invlpg`, a load of
-- `cr3`) is kept in a trace.
--
-- Fuel. `smalloc` takes one round for each chunk of the free list and one more, `getFreePage` one
-- for each page below the end of a zone and one more, `getMBITag` one for each tag and one more,
-- `strcmp` one for each character of the shorter text and one more, `wraparound` one for each
-- count that it reads after the first and one more, and the loops of `parseMmap` and
-- `get_phy_size` over the pages of an entry one for each page and one more; the theorems on them
-- show that this is enough. `page_level_from_size` has seven tests, which are enough at every
-- size, and the loop of `map_address_range_pt` takes eight rounds for each page and sixteen more.
-- The fuel of `parseMmap` is for the entries and, with one round for each of them to spare, for the
-- pages of each entry. The loop of `entry` takes 512 rounds. `calc_hierarchy_size` has a fuel with
-- no theorem. Nothing bounds the loops of the code itself: a free list or a tag list that is a cycle
-- never ends, and such lists are excluded by the hypotheses.
--
-- Not modelled: in src/entry/entry.s the segments, the stack and the two calls behind the jump, the
-- header for the boot loader (src/entry/multiboot.s), and the copies of other projects' code
-- (src/runtime/qsort.cpp of musl, src/include/multiboot2.h). The empty function of
-- src/arch64/acpi.cpp has nothing to model.
pub mod Base
pub mod Memory
pub mod Chunk
pub mod Kernel
pub mod Main
pub mod Smalloc
pub mod PageMapEntry
pub mod PageMap
pub mod Page
pub mod Zones
pub mod Paging
pub mod Ranges
pub mod Reg
pub mod Crawl
pub mod Mm
pub mod Hardware
pub mod Pit
pub mod Apic
pub mod Arch64
pub mod Strcmp
pub mod Stub
pub mod Entry
pub mod Idt
pub mod Mboot
pub mod Mmap
pub mod ParseMmap
pub mod BootPaging
pub mod Tests
pub mod Atexit
