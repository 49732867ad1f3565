-- ===== src/Tests/Arena.antt =====
-- Chunks and `smalloc`: a small arena.
use kmd.Base.{ℕ, ◌+◌, ◌≡◌, refl, inl, false, arith, u64, if◌then◌else◌}
use kmd.Memory.{Memory, load_bytes, store_bytes, load64, store64}
use kmd.Chunk.{
  Header, get_size, get_flags, get_prev, get_next, is_free, get_full_size, set_size, set_flags,
  set_free, set_prev, set_next, merge, cut, split, join_next, join_prev, free,
}
use kmd.Chunk.Fields.{header, extent}
use kmd.Chunk.Split.{rest_size, split-headers, split-eq_self}
use kmd.Chunk.Free.{AreApart, joined, free-header, free-prev, free-free, get_full_size-free}

abbrev place : Memory → ℕ → Header → Memory
place m c h =
    store64 (store64 (store64 (store64 m c h.size) (c + 8) h.flags) (c + 16) h.prev) (c + 24) h.next

-- Chunks at 1000 (free), 2000 (in use), 3000 (free) and 4000 (in use), in this order.
unfoldable pub arena : Memory
unfolding load64 store64 load_bytes store_bytes
arena =
    place
      (place
        (place (place (λ _. 0) 1000 (record { size = 952; flags = 1; prev = 0; next = 2000 })) 2000
          (record { size = 968; flags = 0; prev = 1000; next = 3000 }))
        3000 (record { size = 952; flags = 1; prev = 2000; next = 4000 }))
      4000 (record { size = 968; flags = 0; prev = 3000; next = 0 })

middle-AreApart : AreApart arena 2000
unfolding arena get_next get_prev
middle-AreApart = record {
  next = omega arith;
  prev = omega arith;
  after = omega arith;
  prev_next = omega arith;
  next_after = omega arith;
  prev_after = omega arith;
}

middle_busy : is_free arena 2000 ≡ false
unfolding arena is_free
middle_busy = refl

free-header_example : header (free arena 2000) 2000 ≡ joined arena 2000
free-header_example = free-header arena 2000 middle-AreApart middle_busy

free_run : header (free arena 2000) 1000 ≡ record { size = 2968; flags = 1; prev = 0; next = 4000 }
unfolding arena free join_next join_prev merge set_free set_flags set_prev set_next set_size
    get_full_size is_free get_size get_next get_prev
free_run = refl

free-prev_example : header (free arena 2000) 1000 ≡ (
    if is_free arena 1000
    then record (header arena 1000) {
      size = u64 ((header arena 1000).size + extent (joined arena 2000));
      next = (joined arena 2000).next;
    }
    else header arena 1000)
unfolding arena get_prev
free-prev_example = free-prev arena 2000 middle-AreApart middle_busy

free-free_example : free (free arena 2000) 2000 ≡ free arena 2000
free-free_example = free-free arena 2000 middle-AreApart

-- The last chunk, behind which there is nothing: its successor is null.
alone : Memory
unfolding arena
alone = place arena 3000 (record { size = 952; flags = 0; prev = 2000; next = 4000 })

last-AreApart : AreApart alone 3000
unfolding alone get_next get_prev
last-AreApart = record {
  next = omega arith;
  prev = omega arith;
  after = omega arith;
  prev_next = omega arith;
  next_after = omega arith;
  prev_after = omega arith;
}

get_full_size-free_example :
    get_full_size (free alone 3000) 3000 ≡ u64 (get_full_size alone 3000 + 16)
get_full_size-free_example =
    get_full_size-free alone 3000 last-AreApart (unfold alone is_free in refl)
      (unfold alone is_free get_next in refl)

split-headers_example :
    (header (split arena 1000 200) 1000 ≡ record (header arena 1000) { size = 200; next = 1248 })
    × (header (split arena 1000 200) 1248
        ≡ record { size = rest_size; flags = (header arena 1248).flags; prev = 1000; next = 2000 })
    × (header (split arena 1000 200) 2000 ≡ record (header arena 2000) { prev = 1248 })
unfolding arena get_next get_size is_free
split-headers_example =
    split-headers arena 1000 200 (omega arith) refl (omega arith) (omega arith) (omega arith)
      (omega arith) (omega arith)

split_run :
    header (split arena 1000 200) 1248
    ≡ record { size = 18446744073709551568; flags = 0; prev = 1000; next = 2000 }
unfolding arena split cut set_size set_prev set_next get_size get_flags get_prev get_next is_free
split_run = refl

split-eq_self_example : split arena 2000 200 ≡ arena
unfolding arena is_free
split-eq_self_example = split-eq_self arena 2000 200 (omega arith) (inl refl)
