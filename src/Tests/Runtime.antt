-- ===== src/Tests/Runtime.antt =====
-- The boot information, the table of destructors, the comparison of texts and the interrupt table.
use kmd.Base.{ℕ, zero, suc, ◌+◌, ◌≡◌, refl, not, ◌==◌, List, [], ◌∷◌, arith, some, u64}
use kmd.Memory.{Memory, update, load32, store32, load_bytes, store_bytes}
use kmd.Mboot.{tag_type, tag_size, round_up, next_tag, get_mbi_tag}
use kmd.Mboot.Tags.{Tags, end, tag, first_of_type, get_mbi_tag-first}
use kmd.Atexit.{AtexitFuncEntry, Atexit, full, cxa_atexit}
use kmd.Atexit.Table.{IsTable, cxa_atexit-full}
use kmd.Strcmp.{Sign, char_at, strcmp}
use kmd.Strcmp.Order.{Text, end as end_text, char, Compared, strcmp-compare}
use kmd.Idt.{Gate, init}
use kmd.Idt.Table.{offset, is_present, init-gates}

-- A tag of type 4 and size 10 at 0x108, one of type 6 and size 16 behind it, and the end.
info : Memory
unfolding store32 store_bytes
info = store32 (store32 (store32 (store32 (λ _. 0) 0x108 4) 0x10C 10) 0x118 6) 0x11C 16

info-Tags : Tags info (u64 (0x100 + 8)) (0x108 ∷ 0x118 ∷ [])
unfolding info tag_type tag_size next_tag round_up load32 load_bytes
info-Tags = tag (omega arith) (tag (omega arith) (end refl))

get_mbi_tag-first_example :
    get_mbi_tag 3 info 0x100 6 ≡ some (first_of_type info 6 (0x108 ∷ 0x118 ∷ []))
get_mbi_tag-first_example =
    get_mbi_tag-first 3 info 0x100 6 (0x108 ∷ 0x118 ∷ []) info-Tags (omega arith)

abbrev no_entry : AtexitFuncEntry
no_entry = record { destructor_func = 0; obj_ptr = 0; dso_handle = 0 }

abbrev some_entry : AtexitFuncEntry
some_entry = record { destructor_func = 0x1000; obj_ptr = 7; dso_handle = 9 }

abbrev copies : ℕ → List AtexitFuncEntry
copies zero = []
copies (suc n) = no_entry ∷ copies n

abbrev fresh_table : Atexit
fresh_table = record { funcs = copies 128; func_count = 0 }

fresh_table-IsTable : IsTable fresh_table
fresh_table-IsTable = record { sized = refl; counted = omega arith }

abbrev full_table : Atexit
full_table = record { funcs = copies 128; func_count = 128 }

cxa_atexit-full_example : cxa_atexit 0x1000 7 9 full_table ≡ (full, full_table)
cxa_atexit-full_example =
    cxa_atexit-full full_table (record { sized = refl; counted = omega arith }) some_entry refl

-- The text "cr3" at 16 and at 32, and "cr" at 48.
texts : Memory
texts =
    update
      (update
        (update
          (update (update (update (update (update (λ _. 0) 16 b'c') 17 b'r') 18 b'3') 32 b'c') 33
            b'r')
          34 b'3')
        48 b'c')
      49 b'r'

cr3-Text : Text texts 16 (b'c' ∷ b'r' ∷ b'3' ∷ [])
unfolding texts char_at
cr3-Text = char (omega arith) (char (omega arith) (char (omega arith) (end_text refl)))

cr-Text : Text texts 48 (b'c' ∷ b'r' ∷ [])
unfolding texts char_at
cr-Text = char (omega arith) (char (omega arith) (end_text refl))

-- At 64 stands the character 0xE9, which is negative.
abbrev accented : Memory
accented = update texts 64 0xE9

accented-Text : Text accented 64 (0xE9 ∷ [])
unfolding texts char_at
accented-Text = char (omega arith) (end_text refl)

cr_accented-Text : Text accented 48 (b'c' ∷ b'r' ∷ [])
unfolding texts char_at
cr_accented-Text = char (omega arith) (char (omega arith) (end_text refl))

strcmp-compare_example :
    (s : Sign) × (strcmp 4 accented 64 48 ≡ some s) × Compared (0xE9 ∷ []) (b'c' ∷ b'r' ∷ []) s
strcmp-compare_example = strcmp-compare 4 accented-Text cr_accented-Text (omega arith)

abbrev zero_gate : Gate
zero_gate = record {
  offset_low = 0;
  selector = 0;
  zero1 = 0;
  flags = 0;
  offset_middle = 0;
  offset_high = 0;
  zero2 = 0;
}

init-gates_example :
    (offset ((init (λ i. 0xFFFFC00000000000 + i) 0x5000 (λ _. zero_gate)).0 8)
      ≡ 0xFFFFC00000000000 + 8)
    × (((init (λ i. 0xFFFFC00000000000 + i) 0x5000 (λ _. zero_gate)).0 8).selector ≡ 8)
    × (is_present ((init (λ i. 0xFFFFC00000000000 + i) 0x5000 (λ _. zero_gate)).0 8) ≡ not (8 == 8))
init-gates_example =
    init-gates (λ i. 0xFFFFC00000000000 + i) 0x5000 (λ _. zero_gate) 8 (omega arith) (omega arith)
