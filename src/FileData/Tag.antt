-- ===== src/FileData/Tag.antt =====
-- The tags of a range are for the blocks that the file system has the pages in.
use oxbow.Prelude.{
  ℕ, zero, suc, ◌+◌, ◌-◌, ◌%◌, ◌≤◌, ◌<◌, ◌≡◌, refl, sym, ap, ap₂, ◌∙◌, inl, inr, true, false,
  Option, some, [], ◌∷◌, ◌++◌, append-nil, map, All, All-append, ltb, leb, ◌==◌, u32, u64, add64,
  sub64, Bool-cases, arith,
}
use mathlib.Core.List.{map-append}
use mathlib.Core.Path.{subst}
use oxbow.Checkpoint.{invalid_start}
use oxbow.TagBlocks.{Etag}
use oxbow.FileData.{
  BufferExtent, Tagged, tags_before, Found, tag_of, find_tags, at_extent, tag_blocks,
}
use oxbow.FileData.Pages.{run, run-append, map-run, blocks_of, blocks_of-append}

-- A tag of blocks that have addresses, one or more.
pub record IsPlaced (e : Etag) : Type 0 where
  pub positive : 0 < e.cnt
  pub addressed : e.start + e.cnt < invalid_start
  pub counted : e.cnt < u32

module _ (lba_of : ℕ → ℕ) where
  -- An extent of the file whose pages are where `lba_of` says.
  pub record IsExtentOf (be : BufferExtent) : Type 0 where
    pub paged : be.iblock + be.nr < u64
    pub addressed : be.lba + be.nr < invalid_start
    pub counted : be.nr < u32
    pub maps : (p : ℕ) → be.iblock ≤ p → p < be.iblock + be.nr → lba_of p ≡ be.lba + (p - be.iblock)

  -- The answer for a page is an extent with it.
  pub record IsMapped (answer : Option BufferExtent) (p : ℕ) : Type 0 where
    pub extent : BufferExtent
    pub answered : answer ≡ some extent
    pub right : IsExtentOf extent
    pub from : extent.iblock ≤ p
    pub to : p < extent.iblock + extent.nr

  tag_of-lem :
      (be : BufferExtent) (start n : ℕ)
      → IsExtentOf be
      → be.iblock ≤ start
      → start + n ≤ be.iblock + be.nr
      → blocks_of (tag_of be start n ∷ []) ≡ map lba_of (run start n)
  unfolding blocks_of tag_of
  tag_of-lem be start n w lo hi =
      let at : sub64 (add64 be.lba start) be.iblock ≡ be.lba + (start - be.iblock) =
        omega (arith, w.paged, w.addressed, lo, hi) in
      let len : n % u32 ≡ n = omega (arith, w.counted, lo, hi) in
      append-nil _
      ∙ ap₂ run at len
      ∙ sym (
          map-run lba_of start (be.lba + (start - be.iblock)) n (λ k lt.
            w.maps (start + k) (omega (arith, lo)) (omega (arith, hi, lt)) ∙ omega (arith, lo)))

  tag_of-IsPlaced :
      (be : BufferExtent) (start n : ℕ)
      → IsExtentOf be
      → 0 < n
      → be.iblock ≤ start
      → start + n ≤ be.iblock + be.nr
      → IsPlaced (tag_of be start n)
  unfolding tag_of
  tag_of-IsPlaced be start n w pos lo hi = record {
    positive = omega (arith, w.counted, pos, lo, hi);
    addressed = omega (arith, w.paged, w.addressed, w.counted, lo, hi);
    counted = omega arith;
  }

  -- A part of the range is tagged, and the rest is left.
  record IsFound (start cnt : ℕ) (f : Found) : Type 0 where
    less : f.cnt < cnt
    tagged : blocks_of f.tags ≡ map lba_of (run start (cnt - f.cnt))
    placed : All IsPlaced f.tags
    behind : 0 < f.cnt → f.start ≡ start + (cnt - f.cnt)

  find_tags-IsFound :
      (be : BufferExtent) (start cnt : ℕ)
      → IsExtentOf be
      → be.iblock ≤ start
      → start < be.iblock + be.nr
      → 0 < cnt
      → cnt < u32
      → start + cnt < u64
      → IsFound start cnt (find_tags be start cnt)
  unfolding find_tags
  find_tags-IsFound be start cnt w from to pos small fits =
      let end : add64 be.iblock be.nr ≡ be.iblock + be.nr = omega (arith, w.paged) in
      let last : add64 start cnt ≡ start + cnt = omega (arith, fits) in
      elim (Bool-cases (leb (add64 start cnt) (add64 be.iblock be.nr))) [
        | inl q ↦
            let all : cnt - 0 ≡ cnt = omega arith in
            rw q (record {
              less = pos;
              tagged =
                  tag_of-lem be start cnt w from (ground (arith, q, end, last))
                  ∙ ap (λ n. map lba_of (run start n)) (sym all);
              placed = (tag_of-IsPlaced be start cnt w pos from (ground (arith, q, end, last)), tt);
              behind = λ h. absurd (omega (arith, h));
            })
        | inr q ↦
            let m = be.iblock + be.nr - start in
            let inside : ltb start (add64 be.iblock be.nr) ≡ true = ground (arith, end, to) in
            let left : sub64 (add64 be.iblock be.nr) start ≡ m = omega (arith, end, to, w.paged) in
            let over : m < cnt = ground (arith, q, end, last) in
            let rest : sub64 cnt m ≡ cnt - m = omega (arith, over, small) in
            let next : add64 start m ≡ start + m = omega (arith, over, fits) in
            let part : cnt - (cnt - m) ≡ m = omega (arith, over) in
            rw q (
              rw inside (
                rw left (record {
                  less = omega (arith, rest, over, to);
                  tagged =
                      tag_of-lem be start m w from (omega (arith, to))
                      ∙ ap (λ n. map lba_of (run start n)) (sym (ap (λ r. cnt - r) rest ∙ part));
                  placed = (
                    tag_of-IsPlaced be start m w (omega (arith, to)) from (omega (arith, to)),
                    tt,
                  );
                  behind = λ h. omega (arith, next, rest, part);
                })))
      ]

  -- When get_blocks knows all pages of the range, the loop ends, with fuel for each page.
  pub tag_blocks-blocks :
      (get_blocks : ℕ → Option BufferExtent) (fuel start cnt : ℕ)
      → 0 < cnt
      → cnt ≤ fuel
      → cnt < u32
      → start + cnt < u64
      → ((k : ℕ) → k < cnt → IsMapped (get_blocks (start + k)) (start + k))
      → (t : Tagged) × (tag_blocks fuel get_blocks start cnt ≡ some t)
        × (t.ok ≡ true)
        × (blocks_of t.tags ≡ map lba_of (run start cnt))
        × All IsPlaced t.tags
  unfolding tag_blocks at_extent tags_before
  tag_blocks-blocks get_blocks zero start cnt pos enough small fits known =
      absurd (omega (arith, pos, enough))
  tag_blocks-blocks get_blocks (suc fuel) start cnt pos enough small fits known =
      let here : start + 0 ≡ start = omega arith in
      let m = subst (λ p. IsMapped (get_blocks p) p) here (known 0 pos) in
      let f = find_tags m.extent start cnt in
      let i = find_tags-IsFound m.extent start cnt m.right m.from m.to pos small fits in
      elim (Bool-cases (f.cnt == 0)) [
        | inl q ↦
            let all : cnt - f.cnt ≡ cnt = ground (arith, q) in
            (
              record { tags = f.tags; ok = true },
              rw m.answered (rw q refl),
              refl,
              i.tagged ∙ ap (λ n. map lba_of (run start n)) all,
              i.placed,
            )
        | inr q ↦
            let more : 0 < f.cnt = ground (arith, q) in
            let positive : leb 9223372036854775808 f.cnt ≡ false = ground (arith, i.less, small) in
            let at : f.start ≡ start + (cnt - f.cnt) = i.behind more in
            let (t, run_rest, ok, same, placed) =
              tag_blocks-blocks get_blocks fuel f.start f.cnt more (omega (arith, i.less, enough))
                (omega (arith, i.less, small)) (omega (arith, at, fits, i.less))
                (λ k lt.
                  let to : start + (cnt - f.cnt + k) ≡ f.start + k = omega (arith, at) in
                  subst (λ p. IsMapped (get_blocks p) p) to
                    (known (cnt - f.cnt + k) (omega (arith, lt, i.less)))) in
            let whole : cnt - f.cnt + f.cnt ≡ cnt = omega (arith, i.less) in
            (
              record { tags = f.tags ++ t.tags; ok = t.ok },
              rw m.answered (rw q (rw positive (rw run_rest refl))),
              ok,
              blocks_of-append f.tags t.tags
                  ∙ ap₂ (λ l r. l ++ r) i.tagged (same ∙ ap (λ a. map lba_of (run a f.cnt)) at)
                  ∙ sym (
                      map-append lba_of (run start (cnt - f.cnt))
                        (run (start + (cnt - f.cnt)) f.cnt))
                  ∙ ap (map lba_of)
                      (sym (run-append start (cnt - f.cnt) f.cnt) ∙ ap (run start) whole),
              All-append IsPlaced f.tags t.tags i.placed placed,
            )
      ]
