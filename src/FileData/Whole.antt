-- ===== src/FileData/Whole.antt =====
-- The whole loop over the dirty ranges of a file.
use oxbow.Prelude.{
  ℕ, ◌+◌, ◌<◌, ◌≡◌, refl, sym, ap, ◌∙◌, inl, inr, Bool, true, Option, some, List, [], ◌∷◌, ◌++◌,
  append_assoc, append-nil, map, ◌==◌, u32, u64, All, All-append, split_All, length, Bool-cases,
  arith,
}
use mathlib.Core.List.{map-append}
use mathlib.Core.Option.{bind}
use mathlib.Core.Path.{subst}
use oxbow.RangeDirty.{RangeDirty, Ird, ird_count}
use oxbow.RangeDirty.Chain.{ranges, blocks, blocks-append, IsChain}
use oxbow.FileData.{
  DataTx, BufferExtent, FileTx, add_tags, has_ranges, journal_range, journal_ranges, journal_nodes,
  journal_file_data,
}
use oxbow.FileData.Pages.{
  run, length-run, pages_of, pages_of-append, blocks_of, blocks_of-append, unlocked,
}
use oxbow.FileData.Copy.{IsTx, data_of, IsCopy, IsCopy-trans, IsCopy-refl, copy_range-IsCopy}
use oxbow.FileData.Tag.{IsMapped, IsPlaced, tag_blocks-blocks}

-- A range of pages that get_blocks knows.
pub record IsKnown (lba_of : ℕ → ℕ) (get_blocks : ℕ → Option BufferExtent) (rd : RangeDirty)
    : Type 0 where
  pub paged : rd.start + rd.nr < u64
  pub known : (k : ℕ) → k < rd.nr → IsMapped lba_of (get_blocks (rd.start + k)) (rd.start + k)

no_ranges : (rds : List RangeDirty) → length rds ≡ 0 → rds ≡ []
no_ranges [] h = refl
no_ranges (r ∷ rds) h = absurd (omega (arith, h))

-- A node of a chain without ranges is the last one.
no_more :
    (ird : Ird) (l : List Ird)
    → IsChain (ird ∷ l)
    → (ird_count ird == 0) ≡ true
    → ranges (ird ∷ l) ≡ []
unfolding ranges IsChain
no_more ird [] chain q = append-nil ird.dirty_pages ∙ no_ranges ird.dirty_pages (ground arith)
no_more ird (next ∷ l) (node, full, chain) q = absurd (ground (arith, full, q))

module _ (alloc : ℕ → Option ℕ) (data_at : ℕ → ℕ) (get_blocks : ℕ → Option BufferExtent)
    (lba_of : ℕ → ℕ) (gives : (n : ℕ) → (id : ℕ) × (alloc n ≡ some id)) where
  -- The pages are copied, and tagged with their blocks.
  record IsMade (s s' : FileTx) (ps : List ℕ) : Type 0 where
    copied : IsCopy alloc data_at s.copying s'.copying ps
    answered : s'.ok ≡ true
    tagged : blocks_of s'.tags ≡ blocks_of s.tags ++ map lba_of ps
    placed : All IsPlaced s.tags → All IsPlaced s'.tags

  IsMade-refl : (s : FileTx) → IsTx s.copying.tx → s.ok ≡ true → IsMade s s []
  IsMade-refl s v ok = record {
    copied = IsCopy-refl alloc data_at s.copying v;
    answered = ok;
    tagged = sym (append-nil (blocks_of s.tags));
    placed = λ h. h;
  }

  IsMade-trans :
      (r s t : FileTx) (ps qs : List ℕ) → IsMade r s ps → IsMade s t qs → IsMade r t (ps ++ qs)
  IsMade-trans r s t ps qs m n = record {
    copied = IsCopy-trans alloc data_at r.copying s.copying t.copying ps qs m.copied n.copied;
    answered = n.answered;
    tagged =
        n.tagged
        ∙ ap (λ l. l ++ map lba_of qs) m.tagged
        ∙ append_assoc (blocks_of r.tags) (map lba_of ps) (map lba_of qs)
        ∙ ap (λ l. blocks_of r.tags ++ l) (sym (map-append lba_of ps qs));
    placed = λ h. n.placed (m.placed h);
  }

  journal_range-IsMade :
      (s : FileTx) (rd : RangeDirty)
      → IsTx s.copying.tx
      → s.ok ≡ true
      → s.copying.tx.used_blk_cnt + rd.nr < u32
      → IsKnown lba_of get_blocks rd
      → (s' : FileTx) × (journal_range alloc data_at get_blocks s rd ≡ some s')
        × IsMade s s' (run rd.start rd.nr)
  unfolding journal_range add_tags bind run
  journal_range-IsMade s rd v ok small k = elim (Bool-cases (rd.nr == 0)) [
    | inl q ↦
        let none_left : rd.nr ≡ 0 = ground arith in
        (
          s,
          rw q refl,
          subst (λ n. IsMade s s (run rd.start n)) (sym none_left) (IsMade-refl s v ok),
        )
    | inr q ↦
        let (c, copy, p) =
          copy_range-IsCopy alloc data_at gives rd.start rd.nr s.copying v small k.paged in
        let (t, tag, answered, same, placed) =
          tag_blocks-blocks lba_of get_blocks rd.nr rd.start rd.nr (ground arith) (omega arith)
            (omega (arith, small)) k.paged k.known in
        (
          record { copying = c; tags = s.tags ++ t.tags; ok = t.ok },
          rw q (rw copy (rw tag refl)),
          record {
            copied = p;
            answered = answered;
            tagged = blocks_of-append s.tags t.tags ∙ ap (λ l. blocks_of s.tags ++ l) same;
            placed = λ h. All-append IsPlaced s.tags t.tags h placed;
          },
        )
  ]

  journal_ranges-IsMade :
      (s : FileTx) (rds : List RangeDirty)
      → IsTx s.copying.tx
      → s.ok ≡ true
      → s.copying.tx.used_blk_cnt + blocks rds < u32
      → All (IsKnown lba_of get_blocks) rds
      → (s' : FileTx) × (journal_ranges alloc data_at get_blocks s rds ≡ some (s', []))
        × IsMade s s' (pages_of rds)
        × (s'.copying.tx.used_blk_cnt ≡ s.copying.tx.used_blk_cnt + blocks rds)
  unfolding journal_ranges bind pages_of blocks
  journal_ranges-IsMade s [] v ok small h = (s, refl, IsMade-refl s v ok, omega arith)
  journal_ranges-IsMade s (rd ∷ rds) v ok small (k, h) =
      let (t, one, m) = journal_range-IsMade s rd v ok (omega (arith, small)) k in
      let used : t.copying.tx.used_blk_cnt ≡ s.copying.tx.used_blk_cnt + rd.nr =
        omega (arith, m.copied.used_more, length-run rd.start rd.nr) in
      let (u, rest, n, more) =
        journal_ranges-IsMade t rds m.copied.valid m.answered (omega (arith, small, used)) h in
      (
        u,
        rw one (rw m.answered (rw rest (rw n.answered refl))),
        IsMade-trans s t u (run rd.start rd.nr) (pages_of rds) m n,
        omega (arith, used, more),
      )

  journal_nodes-IsMade :
      (s : FileTx) (irds : List Ird)
      → IsTx s.copying.tx
      → s.ok ≡ true
      → s.copying.tx.used_blk_cnt + blocks (ranges irds) < u32
      → IsChain irds
      → All (IsKnown lba_of get_blocks) (ranges irds)
      → (s' : FileTx) × (irds' : List Ird) × (journal_nodes alloc data_at get_blocks s irds
          ≡ some (s', irds'))
        × IsMade s s' (pages_of (ranges irds))
        × (ranges irds' ≡ [])
  unfolding journal_nodes bind ranges has_ranges IsChain
  journal_nodes-IsMade s [] v ok small chain h = absurd chain
  journal_nodes-IsMade s (ird ∷ []) v ok small chain h =
      let rds = ird.dirty_pages in
      let all = append-nil rds in
      let (t, one, m, used) =
        journal_ranges-IsMade s rds v ok (omega (arith, small, ap blocks all))
          (split_All (IsKnown lba_of get_blocks) rds [] h).0 in
      (
        t,
        record ird { dirty_pages = [] } ∷ [],
        rw one (rw m.answered refl),
        subst (λ l. IsMade s t (pages_of l)) (sym all) m,
        refl,
      )
  journal_nodes-IsMade s (ird ∷ next ∷ l) v ok small (node, full, chain) h =
      let rds = ird.dirty_pages in
      let behind = ranges (next ∷ l) in
      let (k, ks) = split_All (IsKnown lba_of get_blocks) rds behind h in
      let (t, one, m, used) =
        journal_ranges-IsMade s rds v ok (omega (arith, small, blocks-append rds behind)) k in
      let (u, irds, rest, n, done) =
        journal_nodes-IsMade t (next ∷ l) m.copied.valid m.answered
          (omega (arith, small, used, blocks-append rds behind)) chain ks in
      elim (Bool-cases (ird_count next == 0)) [
        | inr q ↦ (
          u,
          record ird { dirty_pages = [] } ∷ irds,
          rw one (rw m.answered (rw q (rw rest refl))),
          subst (IsMade s u) (sym (pages_of-append rds behind)) (IsMade-trans s t u _ _ m n),
          done,
        )
        | inl q ↦
            let empty = no_more next l chain q in
            let all = ap (λ b. rds ++ b) empty ∙ append-nil rds in
            (
              t,
              record ird { dirty_pages = [] } ∷ next ∷ l,
              rw one (rw m.answered (rw q refl)),
              subst (λ r. IsMade s t (pages_of r)) (sym all) m,
              empty,
            )
      ]

  -- The file's dirty ranges are a chain, get_blocks answers for all their pages, df_alloc_buffer always gives
  -- a buffer, and the blocks of the transaction are fewer than 2^32: then the loop comes to an end. The
  -- pages of the ranges, in their order, are behind the data blocks that the transaction had; the blocks
  -- that the tags are for, in their order, are those of the same pages; the pages are unlocked and no range
  -- is left. The server has been told of every full buffer, in order, and of no other.
  pub journal_file_data-tags :
      (tx : DataTx) (locked : ℕ → Bool) (irds : List Ird)
      → IsTx tx
      → tx.used_blk_cnt + blocks (ranges irds) < u32
      → IsChain irds
      → All (IsKnown lba_of get_blocks) (ranges irds)
      → (s : FileTx) × (irds' : List Ird) × (journal_file_data alloc data_at get_blocks tx locked
            irds
          ≡ some (s, irds'))
        × (data_of s.copying.tx ≡ data_of tx ++ map data_at (pages_of (ranges irds)))
        × (blocks_of s.tags ≡ map lba_of (pages_of (ranges irds)))
        × All IsPlaced s.tags
        × (s.copying.locked ≡ unlocked (pages_of (ranges irds)) locked)
        × (ranges irds' ≡ [])
        × IsTx s.copying.tx
  unfolding journal_file_data blocks_of
  journal_file_data-tags tx locked irds v small chain h =
      let (s, irds', run_all, m, done) =
        journal_nodes-IsMade
          (record { copying = record { tx = tx; locked = locked }; tags = []; ok = true }) irds v
          refl small chain h in
      (
        s,
        irds',
        run_all,
        m.copied.stream,
        m.tagged,
        m.placed tt,
        m.copied.locks,
        done,
        m.copied.valid,
      )
