-- ===== src/TagBlocks/Scan.antt =====
-- The tags that the storage server reads for a checkpoint are those that the daemon put in.
use oxbow.Prelude.{
  ℕ, zero, suc, ◌+◌, ◌≤◌, ◌<◌, ◌≡◌, refl, sym, ap, ◌∙◌, inl, inr, false, Option, none, some, List,
  [], ◌∷◌, ◌++◌, append-nil, append_assoc, ◌==◌, add32, length, Bool-cases, lt→ltb, length-append,
  arith,
}
use mathlib.Core.Option.{bind}
use oxbow.TagBlocks.{
  Etag, MetaBlock, DescriptorBlock, JournalTx, TxMeta, etag_blk, fill_all, start_desc,
  copy_desc_and_meta_to_tx_meta, entries, scan_block, scan_blocks, journal_scan,
}
use oxbow.TagBlocks.Fill.{joined, desc_tags, AtCursor, IsFilled, tags_max, fill_tagblk-Filled}

-- As many tags as fit can be put in.
fill_all-IsFilled :
    (es ts : List Etag) (tx : JournalTx)
    → IsFilled ts tx
    → length ts + length es < tags_max
    → (tx' : JournalTx) × (fill_all es tx ≡ some tx') × IsFilled (ts ++ es) tx'
unfolding fill_all bind
fill_all-IsFilled [] ts tx w fits = (tx, refl, rw (append-nil ts) w)
fill_all-IsFilled (e ∷ es) ts tx w fits =
    let (tx1, run1, w1) = fill_tagblk-Filled ts tx e w (omega (arith, fits)) in
    let (tx2, run2, w2) =
      fill_all-IsFilled es (ts ++ (e ∷ [])) tx1 w1
        (omega (arith, fits, length-append ts (e ∷ []))) in
    (tx2, rw run1 run2, rw (append_assoc ts (e ∷ []) es) at w2)

start_desc-IsFilled :
    (id : ℕ) (old : ℕ → Etag) (buf : ℕ → MetaBlock) → IsFilled [] (start_desc id old buf)
unfolding start_desc AtCursor desc_tags entries
start_desc-IsFilled id old buf = record {
  traces = refl;
  room = refl;
  place = refl;
  cursor = (refl, omega arith, refl, refl);
}

scan_blocks-joined :
    (d : DescriptorBlock) (buf : ℕ → MetaBlock) (old : TxMeta) (n : ℕ)
    → n ≤ add32 d.nr_etag_blks d.nr_stage_trace_blks
    → ((k : ℕ) → 0 < k → k ≤ n → (buf k).blocktype ≡ etag_blk)
    → scan_blocks (copy_desc_and_meta_to_tx_meta d buf old) n ≡ some (joined (desc_tags d) buf n)
unfolding scan_blocks copy_desc_and_meta_to_tx_meta joined desc_tags bind scan_block
scan_blocks-joined d buf old zero le kinds = refl
scan_blocks-joined d buf old (suc n) le kinds =
    let rest =
      scan_blocks-joined d buf old n (omega arith) (λ k pos l. kinds k pos (omega arith)) in
    let t = lt→ltb n (add32 d.nr_etag_blks d.nr_stage_trace_blks) (omega arith) in
    let s : n + 1 ≡ suc n = omega arith in
    rw rest (rw t (rw s (rw (kinds (suc n) (omega arith) (omega arith)) refl)))

-- One block of tags.
scan_desc :
    (ts : List Etag) (d : DescriptorBlock) (buf : ℕ → MetaBlock) (old : TxMeta)
    → d.nr_etag_blks ≡ 0
    → d.nr_stage_trace_blks ≡ 0
    → desc_tags d ≡ ts
    → journal_scan (copy_desc_and_meta_to_tx_meta d buf old) ≡ some ts
unfolding journal_scan scan_blocks copy_desc_and_meta_to_tx_meta desc_tags entries
scan_desc ts d buf old z tr eq = elim (Bool-cases (d.nr_tags == 0)) [
  | inl q ↦
      let none_put : d.nr_tags ≡ 0 = ground arith in
      rw q (rw z (ap some (ap (λ n. entries n d.tags) (sym none_put) ∙ eq)))
  | inr q ↦ rw q (rw z (rw tr (ap some eq)))
]

scan_filled :
    (ts : List Etag) (tx : JournalTx) (old : TxMeta) (o : Option ℕ)
    → IsFilled ts tx
    → AtCursor ts tx o
    → journal_scan (copy_desc_and_meta_to_tx_meta tx.desc_blk tx.md_buf old) ≡ some ts
unfolding AtCursor journal_scan copy_desc_and_meta_to_tx_meta
scan_filled ts tx old none w (z, lt, len, eq) = scan_desc ts tx.desc_blk tx.md_buf old z w.traces eq
scan_filled ts tx old (some i) w (here, pos, full, lt, count, kinds, eq) =
    let n = add32 tx.desc_blk.nr_etag_blks tx.desc_blk.nr_stage_trace_blks in
    let some_put : (tx.desc_blk.nr_tags == 0) ≡ false = ground arith in
    let all : n ≡ i = omega (arith, w.room, w.place, w.traces) in
    rw some_put (
      ap (scan_blocks (copy_desc_and_meta_to_tx_meta tx.desc_blk tx.md_buf old)) all
      ∙ scan_blocks-joined tx.desc_blk tx.md_buf old i (omega (arith, all)) kinds
      ∙ ap some eq)

-- A transaction can take any list of fewer than 2784939 tags. When the storage server has copied its
-- descriptor block and the blocks behind it, whatever was in the buffers before, the scan of the journal
-- for a checkpoint finds these tags, all of them and in their order.
pub journal_scan-fill_all :
    (id : ℕ) (old_tags : ℕ → Etag) (buf : ℕ → MetaBlock) (old : TxMeta) (es : List Etag)
    → length es < tags_max
    → (tx : JournalTx) × (fill_all es (start_desc id old_tags buf) ≡ some tx)
      × (journal_scan (copy_desc_and_meta_to_tx_meta tx.desc_blk tx.md_buf old) ≡ some es)
journal_scan-fill_all id old_tags buf old es fits =
    let (tx, run, w) =
      fill_all-IsFilled es [] (start_desc id old_tags buf) (start_desc-IsFilled id old_tags buf)
        (omega (arith, fits)) in
    (tx, run, scan_filled es tx old tx.ext_blk w w.cursor)
