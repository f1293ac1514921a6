-- ===== src/Durable/Content.antt =====
-- What the blocks of the file system hold in the end.
use oxbow.Prelude.{
  ℕ, ◌+◌, ◌-◌, ◌%◌, ◌≤◌, ◌<◌, ◌≡◌, ◌≢◌, refl, sym, ap, ◌∙◌, inl, inr, ◌⊎◌, Bool, false, Option,
  none, some, List, [], ◌++◌, map, get_elem?, length, u32, All, Option-cases, arith,
}
use mathlib.Core.Option
use mathlib.Core.Path.{subst}
use oxbow.JournalLog.Advance.{area}
use oxbow.TagBlocks.{
  Etag, MetaBlock, JournalTx, TxMeta, fill_all, start_desc, copy_desc_and_meta_to_tx_meta,
}
use oxbow.TagBlocks.Fill.{tags_max}
use oxbow.RangeDirty.{Ird}
use oxbow.RangeDirty.Chain.{ranges, blocks, IsChain}
use oxbow.Checkpoint.{behind}
use oxbow.Checkpoint.View.{source_of}
use oxbow.Checkpoint.Transfer.{Logs, Event}
use oxbow.Checkpoint.Transfer.Address.{IsLogs}
use oxbow.Checkpoint.Disk.{run_events, content}
use oxbow.Checkpoint.Journal.{
  checkpoint_journal, is_log, IsExtent, data_source, checkpoint_journal-fill_all,
}
use oxbow.FileData.{DataTx, BufferExtent, FileTx, journal_file_data}
use oxbow.FileData.Pages.{pages_of, blocks_of}
use oxbow.FileData.Copy.{IsTx, data_of}
use oxbow.FileData.Whole.{IsKnown, journal_file_data-tags}
use oxbow.Durable.Blocks.{
  get_elem?-map, some-injective, none-ne-some, nodes, source_of-blocks_of, no_source,
  length-blocks_of, length_le-blocks_of, IsPlaced-IsExtent, length-map, some_tags,
  IsPlaced-IsOutside,
}

-- The block of the log with data block `k` of the transaction whose descriptor block is at `j_start_baddr`.
abbrev pub data_block : Logs → ℕ → ℕ → ℕ
data_block logs j_start_baddr k =
    logs.first_blk false
    + (j_start_baddr + 1 - logs.first_blk false + k)
      % area (logs.first_blk false) (logs.last_blk false)

-- What block `d` holds behind a checkpoint of the pages: a page whose block it is, or, when there is none,
-- what it held before.
abbrev pub IsWritten : (ℕ → ℕ) → (ℕ → ℕ) → List ℕ → (ℕ → ℕ) → ℕ → ℕ → Type 0
IsWritten data_at lba_of pages disk d held =
    ((k : ℕ) × (p : ℕ) × (get_elem? pages k ≡ some p) × (lba_of p ≡ d) × (held ≡ data_at p))
    ⊎ (((k : ℕ) → get_elem? (map lba_of pages) k ≢ some d) × (held ≡ disk d))

module _ (data_at lba_of : ℕ → ℕ) (logs : Logs) (j_start_baddr : ℕ) (pages : List ℕ) where
  page_at :
      (o : Option ℕ) (d : ℕ)
      → Option.map lba_of o ≡ some d
      → (p : ℕ) × (o ≡ some p) × (lba_of p ≡ d)
  page_at none d e = absurd (none-ne-some e)
  page_at (some p) d e = (p, refl, some-injective _ _ e)

  -- The pages are in the log, and the tags are for their blocks.
  content-IsWritten :
      (es : List Etag) (disk : ℕ → ℕ)
      → blocks_of es ≡ map lba_of pages
      → All IsExtent es
      → ((k p : ℕ)
          → get_elem? pages k ≡ some p
          → disk (data_block logs j_start_baddr k) ≡ data_at p)
      → (d : ℕ)
      → IsWritten data_at lba_of pages disk d
          (content disk (data_source logs j_start_baddr es d) (disk d))
  unfolding nodes
  content-IsWritten es disk tagged ok in_log d =
      elim (Option-cases (source_of (behind (nodes j_start_baddr es) []) d)) [
        | inl f ↦
            let unseen = (no_source j_start_baddr es [] d ok f).1 in
            inr ((λ k h. unseen k (ap (λ l. get_elem? l k) tagged ∙ h)), rw f refl)
        | inr (q, f) ↦ elim (source_of-blocks_of j_start_baddr es [] d q ok f) [
          | inr g ↦ absurd (none-ne-some g)
          | inl (i, q_at, found) ↦
              let same : q ≡ i = omega (arith, q_at) in
              let (p, at, block) = page_at (get_elem? pages i) d (
                sym (get_elem?-map lba_of pages i)
                ∙ ap (λ l. get_elem? l i) (sym tagged)
                ∙ found) in
              inl (
                i,
                p,
                at,
                block,
                rw f (ap (λ r. disk (data_block logs j_start_baddr r)) same ∙ in_log i p at),
              )
        ]
      ]

-- The pages of a file are put in a transaction that has no data blocks yet and whose buffer has room, the
-- server has the data blocks in its log behind the descriptor block, which is in the log, round the end, and
-- checkpoints the transaction. The file's dirty ranges are a chain of 1 to 2784938 pages, which the counter
-- of the data blocks can count; get_blocks answers for all of them with blocks outside the log, and
-- df_alloc_buffer always gives a buffer. Then the daemon and the server come to an end, and every block of
-- the disk holds a dirty page whose block it is, or, if it is the block of none, what it held before.
pub checkpoint_journal-journal_file_data :
    (alloc : ℕ → Option ℕ) (data_at : ℕ → ℕ) (get_blocks : ℕ → Option BufferExtent) (lba_of : ℕ → ℕ)
    (tx : DataTx) (locked : ℕ → Bool) (irds : List Ird) (logs : Logs) (max_buf j_start_baddr id : ℕ)
    (old_tags : ℕ → Etag) (buf : ℕ → MetaBlock) (old : TxMeta) (disk : ℕ → ℕ)
    → ((n : ℕ) → (i : ℕ) × (alloc n ≡ some i))
    → IsTx tx
    → data_of tx ≡ []
    → tx.used_blk_cnt + blocks (ranges irds) < u32
    → IsChain irds
    → All (IsKnown lba_of get_blocks) (ranges irds)
    → 0 < length (pages_of (ranges irds))
    → length (pages_of (ranges irds)) < tags_max
    → IsLogs logs
    → logs.first_blk false ≤ j_start_baddr
    → j_start_baddr ≤ logs.last_blk false
    → ((k p : ℕ) → get_elem? (pages_of (ranges irds)) k ≡ some p → is_log logs (lba_of p) ≡ false)
    → ((k p : ℕ)
        → get_elem? (pages_of (ranges irds)) k ≡ some p
        → disk (data_block logs j_start_baddr k) ≡ data_at p)
    → (s : FileTx) × (irds' : List Ird) × (journal_file_data alloc data_at get_blocks tx locked irds
        ≡ some (s, irds'))
      × (data_of s.copying.tx ≡ map data_at (pages_of (ranges irds)))
      × (jtx : JournalTx) × (fill_all s.tags (start_desc id old_tags buf) ≡ some jtx)
      × (evs : List Event) × (checkpoint_journal logs max_buf j_start_baddr 0 []
            (copy_desc_and_meta_to_tx_meta jtx.desc_blk jtx.md_buf old)
          ≡ some evs)
      × ((d : ℕ)
          → IsWritten data_at lba_of (pages_of (ranges irds)) disk d (run_events evs [] disk d))
unfolding nodes
checkpoint_journal-journal_file_data alloc data_at get_blocks lba_of tx locked irds logs max_buf
      j_start_baddr id old_tags buf old disk gives v new small chain known some_page few w lo hi
      outside in_log =
    let pages = pages_of (ranges irds) in
    let (s, irds', run_file, stream, tagged, placed, locks, done, valid) =
      journal_file_data-tags alloc data_at get_blocks lba_of gives tx locked irds v small chain
        known in
    let ok = IsPlaced-IsExtent s.tags placed in
    let count : length (blocks_of s.tags) ≡ length pages =
      ap length tagged ∙ length-map lba_of pages in
    let bounded = length_le-blocks_of s.tags placed in
    let all = length-blocks_of j_start_baddr s.tags in
    let out = IsPlaced-IsOutside logs w s.tags placed (λ k d e.
      let (p, at, block) =
        page_at data_at lba_of logs j_start_baddr pages (get_elem? pages k) d
          (sym (get_elem?-map lba_of pages k) ∙ ap (λ l. get_elem? l k) (sym tagged) ∙ e) in
      ap (is_log logs) (sym block) ∙ outside k p at) in
    let (jtx, fill, evs, run_ckpt, after, once) =
      checkpoint_journal-fill_all logs max_buf j_start_baddr w lo hi id old_tags buf old s.tags
        (some_tags s.tags (omega (arith, count, some_page))) (omega (arith, bounded, count, few)) ok
        out (omega (arith, all, count, few)) in
    (
      s,
      irds',
      run_file,
      stream ∙ ap (λ l. l ++ map data_at pages) new,
      jtx,
      fill,
      evs,
      run_ckpt,
      (λ d. subst (IsWritten data_at lba_of pages disk d) (sym (after disk d)) (
          content-IsWritten data_at lba_of logs j_start_baddr pages s.tags disk tagged ok in_log
            d)),
    )
