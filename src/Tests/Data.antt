-- ===== src/Tests/Data.antt =====
-- A file of 100000 pages in one extent, with a dirty range that is longer than a buffer and a short one.
use oxbow.Prelude.{
  zero, suc, false, ◌==◌, if◌then◌else◌, get_elem?, ℕ, ◌+◌, ◌*◌, ◌<◌, ◌≡◌, refl, Bool, true, Option,
  some, List, [], ◌∷◌, ◌++◌, map, All, arith,
}
use oxbow.TagBlocks.{JournalTx, fill_all, start_desc, copy_desc_and_meta_to_tx_meta}
use oxbow.Tests.Tags.{stale_tags, stale_blocks, stale_meta}
use oxbow.Checkpoint.Transfer.{Logs, Event}
use oxbow.Checkpoint.Transfer.Address.{IsLogs}
use oxbow.Checkpoint.Disk.{run_events}
use oxbow.Checkpoint.Journal.{is_log, checkpoint_journal}
use oxbow.Durable.Content.{IsWritten, data_block, checkpoint_journal-journal_file_data}
use oxbow.RangeDirty.{Ird}
use oxbow.RangeDirty.Chain.{ranges, blocks, IsChain}
use oxbow.FileData.{DataTx, BufferExtent, FileTx, journal_file_data}
use oxbow.FileData.Pages.{run, pages_of, blocks_of, unlocked}
use oxbow.FileData.Copy.{IsTx, data_of, sent_pages, AreReported}
use oxbow.FileData.Tag.{IsMapped, IsPlaced}
use oxbow.FileData.Whole.{IsKnown, journal_file_data-tags}

abbrev new_tx : DataTx
new_tx = record {
  buf = [];
  df_buf_id = 0;
  nr_blocks = 8192;
  used_blk_cnt = 0;
  tot_nr_blocks = 8192;
  n_df_bufs = 1;
  nr_sent_blks = 0;
  requests = [];
}

abbrev buffer_ids : ℕ → Option ℕ
buffer_ids n = some n

abbrev page_data : ℕ → ℕ
page_data p = p * 7

abbrev all_locked : ℕ → Bool
all_locked p = true

abbrev only_extent : BufferExtent
only_extent = record { iblock = 0; nr = 100000; lba = 5000 }

abbrev extent_of : ℕ → Option BufferExtent
extent_of p = some only_extent

abbrev lba_of : ℕ → ℕ
lba_of p = 5000 + p

abbrev dirty : List Ird
dirty =
    record {
      dirty_pages = record { start = 10; nr = 9000 } ∷ (record { start = 20000; nr = 3 } ∷ []);
      dirty_blk_nr = 9003;
    }
    ∷ []

new_tx-IsTx : IsTx new_tx
unfolding AreReported
new_tx-IsTx = record {
  room = omega arith;
  whole = omega arith;
  used = omega arith;
  sent = omega arith;
  bufs = omega arith;
  reported = tt;
}

dirty-IsChain : IsChain dirty
unfolding IsChain blocks
dirty-IsChain = (omega arith, omega arith)

page_known : (p : ℕ) → p < 100000 → IsMapped lba_of (extent_of p) p
page_known p lt = record {
  extent = only_extent;
  answered = refl;
  right = record {
    paged = omega arith;
    addressed = omega arith;
    counted = omega arith;
    maps = λ q lo hi. omega arith;
  };
  from = omega arith;
  to = omega (arith, lt);
}

dirty-IsKnown : All (IsKnown lba_of extent_of) (ranges dirty)
unfolding ranges
dirty-IsKnown = (
  record { paged = omega arith; known = λ k lt. page_known (10 + k) (omega (arith, lt)) },
  (record { paged = omega arith; known = λ k lt. page_known (20000 + k) (omega (arith, lt)) }, tt),
)

journal_file_data-tags_example :
    (s : FileTx) × (irds : List Ird) × (journal_file_data buffer_ids page_data extent_of new_tx
        all_locked dirty
      ≡ some (s, irds))
    × (data_of s.copying.tx ≡ data_of new_tx ++ map page_data (pages_of (ranges dirty)))
    × (blocks_of s.tags ≡ map lba_of (pages_of (ranges dirty)))
    × All IsPlaced s.tags
    × (s.copying.locked ≡ unlocked (pages_of (ranges dirty)) all_locked)
    × (ranges irds ≡ [])
    × IsTx s.copying.tx
unfolding ranges blocks
journal_file_data-tags_example =
    journal_file_data-tags buffer_ids page_data extent_of lba_of (λ n. (n, refl)) new_tx all_locked
      dirty new_tx-IsTx (omega arith) dirty-IsChain dirty-IsKnown

-- A log of ten blocks, whose last block is the first data block of the transaction.
abbrev file_log : Logs
file_log = record { first_blk = λ stage. 1000000; last_blk = λ stage. 1000009 }

file_log-IsLogs : IsLogs file_log
file_log-IsLogs = record { ordered = λ kind. omega arith; addressed = λ kind. omega arith }

abbrev three_pages : List Ird
three_pages = record { dirty_pages = record { start = 10; nr = 3 } ∷ []; dirty_blk_nr = 3 } ∷ []

abbrev with_pages : ℕ → ℕ
with_pages a =
    if a == 1000009 then 70 else if a == 1000000 then 77 else if a == 1000001 then 84 else 0

three_pages-IsChain : IsChain three_pages
unfolding IsChain blocks
three_pages-IsChain = (omega arith, omega arith)

three_pages-IsKnown : All (IsKnown lba_of extent_of) (ranges three_pages)
unfolding ranges
three_pages-IsKnown =
    (record { paged = omega arith; known = λ k lt. page_known (10 + k) (omega (arith, lt)) }, tt)

three_in_log :
    (k p : ℕ)
    → get_elem? (pages_of (ranges three_pages)) k ≡ some p
    → (is_log file_log (lba_of p) ≡ false)
      × (with_pages (data_block file_log 1000008 k) ≡ page_data p)
unfolding pages_of ranges run
three_in_log zero p e = let at : p ≡ 10 = ground arith in rw at (refl, refl)
three_in_log (suc zero) p e = let at : p ≡ 11 = ground arith in rw at (refl, refl)
three_in_log (suc (suc zero)) p e = let at : p ≡ 12 = ground arith in rw at (refl, refl)
three_in_log (suc (suc (suc k))) p e = absurd (ground arith)

checkpoint_journal-journal_file_data_example :
    (s : FileTx) × (irds : List Ird) × (journal_file_data buffer_ids page_data extent_of new_tx
        all_locked three_pages
      ≡ some (s, irds))
    × (data_of s.copying.tx ≡ map page_data (pages_of (ranges three_pages)))
    × (jtx : JournalTx) × (fill_all s.tags (start_desc 4 stale_tags stale_blocks) ≡ some jtx)
    × (evs : List Event) × (checkpoint_journal file_log 1073741824 1000008 0 []
          (copy_desc_and_meta_to_tx_meta jtx.desc_blk jtx.md_buf stale_meta)
        ≡ some evs)
    × ((d : ℕ)
        → IsWritten page_data lba_of
            (pages_of (ranges three_pages))
            with_pages
            d
            (run_events evs [] with_pages d))
unfolding ranges blocks pages_of run data_of sent_pages
checkpoint_journal-journal_file_data_example =
    checkpoint_journal-journal_file_data buffer_ids page_data extent_of lba_of new_tx all_locked
      three_pages file_log 1073741824 1000008 4 stale_tags stale_blocks stale_meta with_pages
      (λ n. (n, refl)) new_tx-IsTx refl (omega arith) three_pages-IsChain three_pages-IsKnown
      (omega arith) (omega arith) file_log-IsLogs (omega arith) (omega arith)
      (λ k p e. (three_in_log k p e).0) (λ k p e. (three_in_log k p e).1)
