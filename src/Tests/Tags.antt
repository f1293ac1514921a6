-- ===== src/Tests/Tags.antt =====
-- Tags of a transaction.
use oxbow.Prelude.{ℕ, ◌+◌, ◌≡◌, some, List, arith}
use oxbow.TagBlocks.{
  Etag, MetaBlock, JournalTx, TxMeta, fill_all, start_desc, entries, journal_scan,
  copy_desc_and_meta_to_tx_meta,
}
use oxbow.TagBlocks.Scan.{journal_scan-fill_all}

abbrev pub stale_tags : ℕ → Etag
stale_tags k = record { start = 9; cnt = 9 }

abbrev pub stale_blocks : ℕ → MetaBlock
stale_blocks k = record { blocktype = 5; nr = 300; tags = stale_tags }

abbrev pub stale_meta : TxMeta
stale_meta = record {
  desc_blk = (start_desc 3 stale_tags stale_blocks).desc_blk;
  meta_start = stale_blocks;
}

-- The descriptor block and six tags in the first extent tag block.
abbrev extents : List Etag
extents = entries 345 (λ k. record { start = k + 1000; cnt = 1 })

journal_scan-fill_all_example :
    (tx : JournalTx) × (fill_all extents (start_desc 4 stale_tags stale_blocks) ≡ some tx)
    × (journal_scan (copy_desc_and_meta_to_tx_meta tx.desc_blk tx.md_buf stale_meta) ≡ some extents)
unfolding entries
journal_scan-fill_all_example =
    journal_scan-fill_all 4 stale_tags stale_blocks stale_meta extents (omega arith)
