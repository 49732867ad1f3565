-- ===== src/Chunk/Split.antt =====
-- `Chunk::split`: what becomes of the headers.
use kmd.Base.{ℕ, ◌+◌, ◌-◌, ◌^◌, ◌<◌, ◌≤◌, ◌≡◌, ◌∙◌, ap, arith, u64, sub64, true, false, ◌⊎◌}
use kmd.Memory.{Memory, load64}
use kmd.Memory.Laws.{Apart, load64-lt, load64-store64-Apart}
use kmd.Chunk.{
  Header, get_size, get_next, is_free, set_size, set_prev, set_next, cut, split, sizeof_free_chunk,
}
use kmd.Chunk.Fields.{
  header, Disjoint, header-set_size, header-set_prev, header-set_next, header-set_size_other,
  header-set_prev_other, header-set_next_other,
}

-- The size that `split` leaves in the second chunk: the first chunk's size is overwritten before
-- the difference is taken, so the difference is `0 - sizeof(FreeChunk)`.
abbrev pub rest_size : ℕ
rest_size = 2 ^ 64 - 48

-- The address of the second chunk.
abbrev pub second : ℕ → ℕ → ℕ
second c new_size = u64 (c + sizeof_free_chunk + new_size)

module _ (m : Memory) (c n : ℕ) (n_fits : n < 2 ^ 64) where
  abbrev c3 : ℕ
  c3 = get_next m c

  abbrev c2 : ℕ
  c2 = second c n

  c3-lt : c3 < 2 ^ 64
  unfolding get_next
  c3-lt = load64-lt m (c + 24)

  abbrev m1 : Memory
  m1 = set_size m c n

  abbrev m2 : Memory
  m2 = set_size m1 c2 (sub64 (sub64 (get_size m1 c) n) sizeof_free_chunk)

  abbrev m3 : Memory
  m3 = set_next m2 c c2

  abbrev m4 : Memory
  m4 = set_prev m3 c2 c

  abbrev m5 : Memory
  m5 = set_next m4 c2 c3

  wrapped : sub64 (sub64 (get_size m1 c) n) sizeof_free_chunk ≡ rest_size
  wrapped = omega (arith, ap (λ (h : Header). h.size) (header-set_size m c n n_fits))

  module _ (d12 : Disjoint c c2) (d13 : Disjoint c c3) (d23 : Disjoint c2 c3) where
    -- The first chunk has the new size and is followed by the second.
    pub cut-first : header (cut m c n) c ≡ record (header m c) { size = n; next = c2 }
    unfolding cut
    cut-first =
        header-set_prev_other m5 c3 c2 c (omega arith)
        ∙ header-set_next_other m4 c2 c3 c (omega arith)
        ∙ header-set_prev_other m3 c2 c c (omega arith)
        ∙ header-set_next m2 c c2 (omega arith)
        ∙ ap (λ (h : Header). record h { next = c2 })
            (header-set_size_other m1 c2 _ c (omega arith) ∙ header-set_size m c n n_fits)

    -- The second chunk is linked between the first and the third, its flags are what the memory
    -- held there, and its size is `rest_size` whatever was cut.
    pub cut-second :
        c < 2 ^ 64
        → header (cut m c n) c2
          ≡ record { size = rest_size; flags = (header m c2).flags; prev = c; next = c3 }
    unfolding cut
    cut-second fits =
        header-set_prev_other m5 c3 c2 c2 (omega arith)
        ∙ header-set_next m4 c2 c3 c3-lt
        ∙ ap (λ (h : Header). record h { next = c3 })
            (header-set_prev m3 c2 c fits
              ∙ ap (λ (h : Header). record h { prev = c })
                  (header-set_next_other m2 c c2 c2 d12
                    ∙ header-set_size m1 c2 _ (omega arith)
                    ∙ ap
                        (λ (h : Header). record h {
                          size = sub64 (sub64 (get_size m1 c) n) sizeof_free_chunk;
                        })
                        (header-set_size_other m c n c2 d12)))
        ∙ ap (λ (s : ℕ). record (header m c2) { size = s; prev = c; next = c3 }) wrapped

    -- The chunk that followed the first now follows the second.
    pub cut-third : header (cut m c n) c3 ≡ record (header m c3) { prev = c2 }
    unfolding cut
    cut-third =
        header-set_prev m5 c3 c2 (omega arith)
        ∙ ap (λ (h : Header). record h { prev = c2 })
            (header-set_next_other m4 c2 c3 c3 d23
              ∙ header-set_prev_other m3 c2 c c3 d23
              ∙ header-set_next_other m2 c c2 c3 d13
              ∙ header-set_size_other m1 c2 _ c3 d23
              ∙ header-set_size_other m c n c3 d13)

  -- Headers apart from the three that are written stay as they are.
  pub cut-other :
      (d : ℕ) → Disjoint c d → Disjoint c2 d → Disjoint c3 d → header (cut m c n) d ≡ header m d
  unfolding cut
  cut-other d d1 d2 d3 =
      header-set_prev_other m5 c3 c2 d d3
      ∙ header-set_next_other m4 c2 c3 d d2
      ∙ header-set_prev_other m3 c2 c d d2
      ∙ header-set_next_other m2 c c2 d d1
      ∙ header-set_size_other m1 c2 _ d d2
      ∙ header-set_size_other m c n d d1

  -- A word apart from the three headers keeps its value.
  pub load64-cut :
      (b : ℕ)
      → Apart c 32 b 8
      → Apart c2 32 b 8
      → Apart c3 32 b 8
      → load64 (cut m c n) b ≡ load64 m b
  unfolding cut set_size set_prev set_next
  load64-cut b d1 d2 d3 =
      load64-store64-Apart m5 (c3 + 16) c2 b (omega arith)
      ∙ load64-store64-Apart m4 (c2 + 24) c3 b (omega arith)
      ∙ load64-store64-Apart m3 (c2 + 16) c b (omega arith)
      ∙ load64-store64-Apart m2 (c + 24) c2 b (omega arith)
      ∙ load64-store64-Apart m1 c2 _ b (omega arith)
      ∙ load64-store64-Apart m c n b (omega arith)

  -- Where the guards of `split` let it through.
  pub split-cut :
      is_free m c ≡ true → n ≤ sub64 (get_size m c) sizeof_free_chunk → split m c n ≡ cut m c n
  unfolding split
  split-cut free room = ground arith

  -- Where they do not.
  pub split-eq_self :
      (is_free m c ≡ false) ⊎ (sub64 (get_size m c) sizeof_free_chunk < n) → split m c n ≡ m
  unfolding split
  split-eq_self refused = ground arith

  -- A free chunk that is large enough is split in two: the first has the new size, the second
  -- stands behind it between the first and the old successor, and the size of the second is
  -- `rest_size` and not the difference.
  pub split-headers :
      is_free m c ≡ true
      → n ≤ sub64 (get_size m c) sizeof_free_chunk
      → c < 2 ^ 64
      → Disjoint c c2
      → Disjoint c c3
      → Disjoint c2 c3
      → (header (split m c n) c ≡ record (header m c) { size = n; next = c2 })
        × (header (split m c n) c2
            ≡ record { size = rest_size; flags = (header m c2).flags; prev = c; next = c3 })
        × (header (split m c n) c3 ≡ record (header m c3) { prev = c2 })
  split-headers free room fits d12 d13 d23 =
      rw (split-cut free room)
        (cut-first d12 d13 d23, cut-second d12 d13 d23 fits, cut-third d12 d13 d23)
