-- ===== src/Ranges/Sources.antt =====
-- The page that `map` of src/mm/mm.cpp takes for a range of one page.
use kmd.Base.{
  ℕ, suc, ◌+◌, ◌*◌, ◌%◌, ◌^◌, ◌<◌, ◌≡◌, refl, some, arith, inl, inr, u64, Bool-cases, ◌∷◌,
}
use kmd.Kernel.{Kernel, ok, load_cr3}
use kmd.Zones.{get_page}
use kmd.Zones.FreePage.{CanScan}
use kmd.Zones.Spare.{HasSpare, Loses-same}
use kmd.Paging.{flush_tlb}
use kmd.Paging.Descent.{IsFrame}
use kmd.Paging.Space.{IsSpace}
use kmd.Paging.Space.MapPage.{IsMapped, map_page-returns}
use kmd.Ranges.{page_src, nr_pages, map_loop, map}

-- What the processor is told is no part of it.
IsMapped-flushed :
    (k : Kernel) (dst p flags : ℕ) (k' : Kernel)
    → IsMapped k dst p flags k'
    → IsMapped k dst p flags (record k' { trace = load_cr3 k'.cr3 ∷ k'.trace })
IsMapped-flushed k dst p flags k' m = record {
  space = record { tree = m.space.tree; pool = m.space.pool; apart = m.space.apart };
  root = m.root;
  word = m.word;
  has = m.has;
  maps = m.maps;
  old = m.old;
  written = m.written;
  was = m.was;
  others = m.others;
  zones = m.zones;
  bases = m.bases;
  fewer = m.fewer;
  lost =
      Loses-same 4 k k' (record k' { trace = load_cr3 k'.cr3 ∷ k'.trace }) refl refl (λ q. refl)
        m.lost;
}

-- The page of the first round is the one that has the source address for its number.
page_src-number : (src : ℕ) → src < 2 ^ 52 → page_src src 0 ≡ src * 4096
page_src-number src small = omega arith

module _ (fuel : ℕ) (k : Kernel) (dst src flags p : ℕ) (space : IsSpace k) (can : CanScan k fuel)
    (frame : IsFrame (k.pages p).base) (small : (k.pages p).references + 1 < 2 ^ 64)
    (low : flags < 4096) (present : flags % 2 ≡ 1) where
  -- `map` of a range of one page, with an address below 2 ^ 64 to map to it and a source below
  -- 2 ^ 52, with flags that have the present bit and only option bits, in a state where the page maps
  -- are a tree apart from the free pages and `getFreePage` can still find four pages: it takes the
  -- page at 4096 times the source, not the one at the source. When `getPage` finds that page and its
  -- references are not used up, `map` returns; the address has a word that maps the page with the
  -- flags, all other pages have the words that they had, and the page is not free.
  pub map-IsMapped :
      dst < 2 ^ 64
      → src < 2 ^ 52
      → HasSpare k 4
      → get_page (src * 4096) k ≡ ok (some p) k
      → (k' : Kernel) × (map (suc fuel) dst src 4096 flags k ≡ ok tt k') × IsMapped k dst p flags k'
  unfolding map map_loop nr_pages flush_tlb
  map-IsMapped fits near spare known =
      let at : u64 (dst + 0) ≡ dst = omega arith in
      let (new, k', run, mapped) =
        map_page-returns fuel k dst (src * 4096) flags p space can frame small low present spare
          known in
      elim (Bool-cases new) [
        | inl changed ↦ (
          record k' { trace = load_cr3 k'.cr3 ∷ k'.trace },
          rw (at, page_src-number src near, run, changed) refl,
          IsMapped-flushed k dst p flags k' mapped,
        )
        | inr same ↦ (k', rw (at, page_src-number src near, run, same) refl, mapped)
      ]
