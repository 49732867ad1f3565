-- ===== src/BootPaging/Maps.antt =====
-- What `map_address_range_pt` of src/entry/paging.cpp makes of the page maps.
use kmd.Base.{
  ℕ, suc, ◌+◌, ◌*◌, ◌/◌, ◌%◌, ◌^◌, ◌≤◌, ◌<◌, ◌≡◌, ◌≢◌, ◌∙◌, ◌↔◌, sym, refl, ap, subst, arith, true,
  false, inl, inr, Option, some, Bool-cases, leb, leb→le, ltb, ltb→lt, ltb_false→le, ◌==◌, ==_iff,
  ==_false→ne,
}
use kmd.Paging.Tree.{Leaf}
use kmd.Paging.Tree.Walk.{page_number}
use kmd.BootPaging.{Boot, Walk, go_down, put_entry, walk_step}
use kmd.BootPaging.Way.{IsAt, go_up-IsAt, go_down-IsAt, go_down-words}
use kmd.BootPaging.Written.{put_entry-Leaf, put_entry-others, put_entry-IsAt}

-- A range of pages to be mapped, in one half of the addresses.
pub record IsRange (dst src len : ℕ) : Type 0 where
  pub dst_aligned : dst % 2 ^ 12 ≡ 0
  pub src_aligned : src % 2 ^ 12 ≡ 0
  pub dst_fits : dst % 2 ^ 48 + len + 2 ^ 12 ≤ 2 ^ 48
  pub src_fits : src + len + 2 ^ 12 ≤ 2 ^ 64

leb_false→lt : (a b : ℕ) → leb a b ≡ false → b < a
leb_false→lt a b h = ground arith

module _ (root dst src len : ℕ) (b0 : Boot) (range : IsRange dst src len) where
  abbrev pub page_at : ℕ → ℕ
  page_at cl = (dst % 2 ^ 48 + cl) / 2 ^ 12

  page_number-at : (cl : ℕ) → cl ≤ len → page_number (dst + cl) ≡ page_at cl
  page_number-at cl le = omega (arith, range.dst_fits)

  -- The pages before `cl` are mapped, and no other address has a new word.
  pub record Maps (w : Walk) : Type 0 where
    pub at : IsAt root (page_at w.cl) w
    pub aligned : w.cl % 2 ^ 12 ≡ 0
    pub put :
        (k : ℕ)
        → k * 2 ^ 12 < w.cl
        → Leaf w.boot.memory root (dst + k * 2 ^ 12) (src + k * 2 ^ 12 + 3)
    pub kept :
        (a v : ℕ)
        → ((k : ℕ) → k * 2 ^ 12 < w.cl → page_number a ≢ page_number (dst + k * 2 ^ 12))
        → Leaf b0.memory root a v ↔ Leaf w.boot.memory root a v
    pub root_kept : w.boot.tmp_pml4t ≡ b0.tmp_pml4t

  -- A state with the same number of pages and the same words.
  Maps-same :
      (w w' : Walk)
      → Maps w
      → IsAt root (page_at w'.cl) w'
      → w'.cl ≡ w.cl
      → ((a v : ℕ) → Leaf w.boot.memory root a v ↔ Leaf w'.boot.memory root a v)
      → w'.boot.tmp_pml4t ≡ w.boot.tmp_pml4t
      → Maps w'
  Maps-same w w' is at cl words kept = record {
    at = at;
    aligned = rw cl is.aligned;
    put = λ k lt. (words _ _).0 (is.put k (rw cl at lt));
    kept = λ a v no'.
        let old = is.kept a v (λ k lt. no' k (rw cl lt)) in
        ((λ l. (words a v).0 (old.0 l)), (λ l. old.1 ((words a v).1 l)));
    root_kept = kept ∙ is.root_kept;
  }

  abbrev pub Stepped : Walk → Option Walk → Type 0
  Stepped w o = (w' : Walk) × (o ≡ some w') × Maps w' × (w'.boot.tmp_pt ≤ w.boot.tmp_pt + 2 ^ 12)

  module _ (w : Walk) (is : Maps w) (more : w.cl ≤ len)
      (room : w.boot.tmp_pt + 2 ^ 13 ≤ 2 ^ 64) where
    up-Stepped : leb 512 (w.l w.ll).i ≡ true → Stepped w (walk_step src 1 w)
    unfolding walk_step
    up-Stepped full =
        let (w', run, at, boot, cl) =
          go_up-IsAt root (page_at w.cl) w is.at (leb→le 512 (w.l w.ll).i full)
            (omega (arith, range.dst_fits)) in
        (
          w',
          rw full run,
          Maps-same w w' is (rw cl at) cl (λ a v. rw boot ((λ l. l), (λ l. l)))
              (ap (λ b. b.tmp_pml4t) boot),
          omega (arith, ap (λ b. b.tmp_pt) boot),
        )

    abbrev here : ℕ
    here = dst + w.cl

    here-page : page_number here ≡ page_at w.cl
    here-page = page_number-at w.cl more

    down-Stepped :
        leb 512 (w.l w.ll).i ≡ false → (w.ll == 1) ≡ false → Stepped w (walk_step src 1 w)
    unfolding walk_step go_down
    down-Stepped small inner =
        let room_i : (w.l w.ll).i < 512 = leb_false→lt 512 (w.l w.ll).i small in
        let deep : 1 < w.ll = omega (arith, is.at.digits.low, ==_false→ne w.ll 1 inner) in
        let (words, root', grown) =
          go_down-words root (page_at w.cl) w is.at here here-page room_i deep room in
        let at = go_down-IsAt root (page_at w.cl) w is.at here here-page room_i deep room in
        (go_down w, rw (small, inner) refl, Maps-same w (go_down w) is at refl words root', grown)

    -- The state that an entry of the last level is written in.
    module _ (last : w.ll ≡ 1) (room_i : (w.l w.ll).i < 512) where
      src_at : (src + w.cl) % 2 ^ 12 ≡ 0
      src_at = omega (arith, range.src_aligned, is.aligned)

      src_room : src + w.cl + 2 ^ 12 ≤ 2 ^ 64
      src_room = omega (arith, range.src_fits)

      abbrev after : Walk
      after = put_entry src w

      after-cl : after.cl ≡ w.cl + 2 ^ 12
      unfolding put_entry
      after-cl = omega (arith, range.src_fits)

      after-IsAt : IsAt root (page_at after.cl) after
      after-IsAt =
          let next : suc (page_at w.cl) ≡ page_at after.cl = omega (arith, after-cl) in
          subst (λ n. IsAt root n after) next
            (put_entry-IsAt root (page_at w.cl) src w is.at last room_i here here-page src_at
              src_room)

      others :
          (b v : ℕ)
          → page_number b ≢ page_at w.cl
          → Leaf w.boot.memory root b v ↔ Leaf after.boot.memory root b v
      others b v h =
          put_entry-others root (page_at w.cl) src w is.at last room_i here here-page src_at
            src_room b v h

      after-put :
          (k : ℕ)
          → k * 2 ^ 12 < after.cl
          → Leaf after.boot.memory root (dst + k * 2 ^ 12) (src + k * 2 ^ 12 + 3)
      after-put k lt =
          let le : k * 2 ^ 12 ≤ len = omega (arith, after-cl, is.aligned) in
          elim (Bool-cases (ltb (k * 2 ^ 12) w.cl)) [
            | inl old ↦
                let before = ltb→lt (k * 2 ^ 12) w.cl old in
                (others (dst + k * 2 ^ 12) (src + k * 2 ^ 12 + 3)
                    (λ e. absurd (omega (arith, page_number-at (k * 2 ^ 12) le, is.aligned)))).0
                  (is.put k before)
            | inr new ↦
                let now : w.cl ≡ k * 2 ^ 12 =
                  omega (arith, ltb_false→le (k * 2 ^ 12) w.cl new, after-cl, is.aligned) in
                subst (λ n. Leaf after.boot.memory root (dst + n) (src + n + 3)) now
                  (put_entry-Leaf root (page_at w.cl) src w is.at last room_i here here-page src_at
                    src_room)
          ]

      after-kept :
          (a v : ℕ)
          → ((k : ℕ) → k * 2 ^ 12 < after.cl → page_number a ≢ page_number (dst + k * 2 ^ 12))
          → Leaf b0.memory root a v ↔ Leaf after.boot.memory root a v
      after-kept a v no' =
          let old = is.kept a v (λ k lt. no' k (omega (arith, after-cl))) in
          let now : w.cl / 2 ^ 12 * 2 ^ 12 ≡ w.cl = omega (arith, is.aligned) in
          let new = others a v (λ e.
            no' (w.cl / 2 ^ 12) (omega (arith, after-cl))
              (e ∙ sym here-page ∙ ap (λ n. page_number (dst + n)) (sym now))) in
          ((λ l. new.0 (old.0 l)), (λ l. old.1 (new.1 l)))

      after-root : (after.boot.tmp_pml4t ≡ w.boot.tmp_pml4t) × (after.boot.tmp_pt ≡ w.boot.tmp_pt)
      unfolding put_entry
      after-root = (refl, refl)

      after-Maps : Maps after
      after-Maps = record {
        at = after-IsAt;
        aligned = omega (arith, after-cl, is.aligned);
        put = after-put;
        kept = after-kept;
        root_kept = after-root.0 ∙ is.root_kept;
      }

    put-Stepped : leb 512 (w.l w.ll).i ≡ false → (w.ll == 1) ≡ true → Stepped w (walk_step src 1 w)
    unfolding walk_step
    put-Stepped small last =
        let room_i : (w.l w.ll).i < 512 = leb_false→lt 512 (w.l w.ll).i small in
        let at = (==_iff w.ll 1).0 last in
        (
          put_entry src w,
          rw (small, last) refl,
          after-Maps at room_i,
          omega (arith, after-root at room_i),
        )

    pub walk_step-Stepped : Stepped w (walk_step src 1 w)
    walk_step-Stepped = elim (Bool-cases (leb 512 (w.l w.ll).i)) [
      | inl full ↦ up-Stepped full
      | inr small ↦ elim (Bool-cases (w.ll == 1)) [
        | inl last ↦ put-Stepped small last
        | inr inner ↦ down-Stepped small inner
      ]
    ]
