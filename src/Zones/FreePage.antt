-- ===== src/Zones/FreePage.antt =====
-- `getFreePage` returns the record of a page that is free, or finds that none is.
use kmd.Base.{
  ℕ, zero, suc, ◌+◌, ◌*◌, ◌^◌, ◌≤◌, ◌<◌, ◌≡◌, ◌∙◌, ◌≢◌, refl, sym, ap, subst, ◌==◌, ==_iff,
  ==_false→ne, true, false, Bool-cases, inl, inr, Option, none, some, length, get_elem?,
  get_elem?-some, arith, ltb, ltb→lt, ltb_false→le, le→ltb_false, ◌<<<◌,
}
use kmd.Kernel.{Zone, Kernel, ok}
use kmd.Page.{is_free}
use kmd.Zones.{scan_zone, get_free_page_loop, get_free_page}

-- The zones in use lie in the array, and have records of pages and an end that leaves room for
-- one more page below 2 ^ 64. The fuel covers the pages below the end of each.
pub record CanScan (k : Kernel) (fuel : ℕ) : Type 0 where
  pub in_array : k.zones_nr ≤ length k.zones
  pub has_pages :
      (i : ℕ) (z : Zone)
      → get_elem? k.zones i ≡ some z
      → i < k.zones_nr
      → (p : ℕ) × (z.pages ≡ some p)
  pub bounded :
      (i : ℕ) (z : Zone)
      → get_elem? k.zones i ≡ some z
      → i < k.zones_nr
      → (z.end + 4096 ≤ 2 ^ 64) × (z.end ≤ fuel * 4096)

-- The record of index `p` is that of the page number `q` of zone `i`, as the loop counts them: up
-- to the zone's end and not its length.
pub record IsScanned (k : Kernel) (i p : ℕ) : Type 0 where
  pub zone : Zone
  pub at : get_elem? k.zones i ≡ some zone
  pub first : ℕ
  pub pages_eq : zone.pages ≡ some first
  pub page : ℕ
  pub below : page * 4096 < zone.end
  pub index : p ≡ first + page

-- The outcomes of the scan of one zone from page `j` on.
pub data Scan (k : Kernel) (end first j : ℕ) : Option ℕ → Type 0 where
  none_free :
      ((q : ℕ) → j ≤ q → q * 4096 < end → is_free (k.pages (first + q)) ≡ false)
      → Scan k end first j none
  one_free :
      (q : ℕ)
      → q * 4096 < end
      → is_free (k.pages (first + q)) ≡ true
      → Scan k end first j (some (first + q))

module _ (k : Kernel) (z : Zone) (first : ℕ) (pe : z.pages ≡ some first)
    (room : z.end + 4096 ≤ 2 ^ 64) where
  abbrev Scans : ℕ → ℕ → Type 0
  Scans fuel j = (r : Option ℕ) × (scan_zone fuel z j k ≡ ok r k) × Scan k z.end first j r

  Scan-skip :
      {j : ℕ} {r : Option ℕ}
      → is_free (k.pages (first + j)) ≡ false
      → Scan k z.end first (j + 1) r
      → Scan k z.end first j r
  Scan-skip {j} busy (none_free all) = none_free (λ q p below. elim (Bool-cases (j == q)) [
    | inl same ↦ rw (← (==_iff j q).0 same) busy
    | inr other ↦ all q (omega (arith, ==_false→ne j q other)) below
  ])
  Scan-skip busy (one_free q below free) = one_free q below free

  module _ (fuel j : ℕ) where
    scan_end : ltb (j <<< 12) z.end ≡ false → scan_zone (suc fuel) z j k ≡ ok none k
    unfolding scan_zone
    scan_end e = ground arith

    scan_free :
        ltb (j <<< 12) z.end ≡ true
        → is_free (k.pages (first + j)) ≡ true
        → scan_zone (suc fuel) z j k ≡ ok (some (first + j)) k
    unfolding scan_zone
    scan_free e free = ground arith

    scan_busy :
        ltb (j <<< 12) z.end ≡ true
        → is_free (k.pages (first + j)) ≡ false
        → scan_zone (suc fuel) z j k ≡ scan_zone fuel z (j + 1) k
    unfolding scan_zone
    scan_busy e busy = ground arith

  scan_zone-Scan : (f j : ℕ) → z.end ≤ (j + f) * 4096 → j * 4096 < z.end + 4096 → Scans (suc f) j
  scan_zone-Scan zero j enough near = (
    none,
    scan_end zero j (le→ltb_false _ _ (omega arith)),
    none_free (λ q p below. absurd (omega arith)),
  )
  scan_zone-Scan (suc f) j enough near = elim (Bool-cases (ltb (j <<< 12) z.end)) [
    | inr over ↦ (
      none,
      scan_end (suc f) j over,
      none_free (λ q p below. absurd (omega (arith, ltb_false→le _ _ over))),
    )
    | inl more ↦ elim (Bool-cases (is_free (k.pages (first + j)))) [
      | inl free ↦ (
        some (first + j),
        scan_free (suc f) j more free,
        one_free j (omega (arith, ltb→lt _ _ more)) free,
      )
      | inr busy ↦
          let (r, run, rest) =
            scan_zone-Scan f (j + 1) (omega arith) (omega (arith, ltb→lt _ _ more)) in
          (r, scan_busy (suc f) j more busy ∙ run, Scan-skip busy rest)
    ]
  ]

-- The outcomes of the search of the zones from `i` on.
pub data Search (k : Kernel) (i hi : ℕ) : Option ℕ → Type 0 where
  none_free :
      ((j p : ℕ) → i ≤ j → j < hi → IsScanned k j p → is_free (k.pages p) ≡ false)
      → Search k i hi none
  one_free :
      (j p : ℕ) → j < hi → IsScanned k j p → is_free (k.pages p) ≡ true → Search k i hi (some p)

module _ (k : Kernel) where
  Scan-Search :
      {i hi : ℕ} (z : Zone) (first : ℕ) {r : Option ℕ}
      → get_elem? k.zones i ≡ some z
      → z.pages ≡ some first
      → i < hi
      → Scan k z.end first 0 r
      → (r ≢ none)
      → Search k i hi r
  Scan-Search z first at pe lt (none_free all) ne = absurd (ne refl)
  Scan-Search {i} z first at pe lt (one_free q below free) ne =
      one_free i (first + q) lt
        (record {
          zone = z;
          at = at;
          first = first;
          pages_eq = pe;
          page = q;
          below = below;
          index = refl;
        })
        free

  -- No page of zone `i` is free, so the search of the rest is the search from `i` on.
  none_here :
      {i : ℕ} (z : Zone) (first : ℕ)
      → get_elem? k.zones i ≡ some z
      → z.pages ≡ some first
      → ((q : ℕ) → q * 4096 < z.end → is_free (k.pages (first + q)) ≡ false)
      → (p : ℕ) → IsScanned k i p
      → is_free (k.pages p) ≡ false
  none_here {i} z first at pe all p s =
      let same : z ≡ s.zone = cc s.at in
      let e : first ≡ s.first = cc (ap (λ (z : Zone). z.pages) same, s.pages_eq) in
      rw (s.index, ← e) (all s.page (rw same s.below))

  Search-skip :
      {i hi : ℕ} {r : Option ℕ}
      → ((p : ℕ) → IsScanned k i p → is_free (k.pages p) ≡ false)
      → Search k (i + 1) hi r
      → Search k i hi r
  Search-skip {i} here' (none_free all) = none_free (λ j p from to s. elim (Bool-cases (i == j)) [
    | inl same ↦ here' p (subst (λ (x : ℕ). IsScanned k x p) (sym ((==_iff i j).0 same)) s)
    | inr other ↦ all j p (omega (arith, ==_false→ne i j other)) to s
  ])
  Search-skip here' (one_free j p lt s free) = one_free j p lt s free

  module _ (fuel left i : ℕ) (z : Zone) (at : get_elem? k.zones i ≡ some z) where
    loop_stop :
        (p : ℕ)
        → scan_zone fuel z 0 k ≡ ok (some p) k
        → get_free_page_loop fuel (suc left) i k ≡ ok (some p) k
    unfolding get_free_page_loop
    loop_stop p e = ground arith

    loop_next :
        scan_zone fuel z 0 k ≡ ok none k
        → get_free_page_loop fuel (suc left) i k ≡ get_free_page_loop fuel left (i + 1) k
    unfolding get_free_page_loop
    loop_next e = ground arith

  abbrev Searches : ℕ → ℕ → ℕ → Type 0
  Searches fuel left i =
      (r : Option ℕ) × (get_free_page_loop fuel left i k ≡ ok r k) × Search k i k.zones_nr r

  after :
      (fuel left i : ℕ) (z : Zone)
      → i < k.zones_nr
      → get_elem? k.zones i ≡ some z
      → (first : ℕ) → z.pages ≡ some first
      → (r : Option ℕ) → scan_zone fuel z 0 k ≡ ok r k
      → Scan k z.end first 0 r
      → Searches fuel left (i + 1)
      → Searches fuel (suc left) i
  after fuel left i z lt at first pe none run (none_free all) (r, run', rest) = (
    r,
    loop_next fuel left i z at run ∙ run',
    Search-skip (none_here z first at pe (λ q below. all q (omega arith) below)) rest,
  )
  after fuel left i z lt at first pe (some p) run scan rest =
      (some p, loop_stop fuel left i z at p run, Scan-Search z first at pe lt scan (λ e. cc))

  module _ (fuel : ℕ) (can : CanScan k fuel) where
    loop-Search : (left i : ℕ) → i + left ≡ k.zones_nr → Searches (suc fuel) left i
    loop-Search zero i e =
        (none, unfold get_free_page_loop in refl, none_free (λ j p from to s. absurd (omega arith)))
    loop-Search (suc left) i e =
        go (get_elem?-some k.zones i (omega (arith, can.in_array)))
          (loop-Search left (i + 1) (omega arith))
      where
        go :
            (z : Zone) × (get_elem? k.zones i ≡ some z)
            → Searches (suc fuel) left (i + 1)
            → Searches (suc fuel) (suc left) i
        go (z, at) (r, run, rest) =
            let (first, pe) = can.has_pages i z at (omega arith) in
            let (room, enough) = can.bounded i z at (omega arith) in
            let (r', run', scan) =
              scan_zone-Scan k z first pe room fuel 0 (omega arith) (omega arith) in
            after (suc fuel) left i z (omega arith) at first pe r' run' scan (r, run, rest)

    -- `getFreePage` returns, with the state as it was: the record of a free page, or null if no
    -- record that it looks at is that of a free page.
    pub get_free_page-Search :
        (r : Option ℕ) × (get_free_page (suc fuel) k ≡ ok r k) × Search k 0 k.zones_nr r
    unfolding get_free_page
    get_free_page-Search = loop-Search k.zones_nr 0 (omega arith)
