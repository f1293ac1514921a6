-- ===== src/Tests/Ckpt.antt =====
-- A checkpoint of three tags whose blocks go round the end of the journal, of ten blocks, and of a tag of a
-- stage transaction.
use oxbow.Prelude.{
  ℕ, ◌≤◌, ◌≡◌, refl, inr, true, false, if◌then◌else◌, some, List, [], ◌∷◌, ◌++◌, All, ltb, arith,
  Bool,
}
use mathlib.Core.Option
use oxbow.TagBlocks.{Etag, JournalTx, fill_all, start_desc, copy_desc_and_meta_to_tx_meta}
use oxbow.Tests.Tags.{stale_tags, stale_blocks, stale_meta}
use oxbow.Checkpoint.{TagListNode, invalid_start, behind, optimize, coalesce}
use oxbow.Checkpoint.View.{IsNode, writers, source_of}
use oxbow.Checkpoint.Groups.{SameCopies, SameCopies-refl}
use oxbow.Checkpoint.Optimize.{optimize-SameCopies}
use oxbow.Checkpoint.Coalesce.{coalesce-SameCopies}
use oxbow.Checkpoint.Transfer.{Logs, Event, dispatch_io, transfer}
use oxbow.Checkpoint.Transfer.Address.{log_address, IsLogs}
use oxbow.Checkpoint.Transfer.Copied.{copied, copies, asked}
use oxbow.Checkpoint.Transfer.Loop.{transfer-copies}
use oxbow.Checkpoint.Passes.{
  checkpoint_tags, checkpoint_tags-copies, groups_of, start_progress, start-IsAt,
}
use oxbow.Checkpoint.Disk.{run_events, content}
use oxbow.Checkpoint.Journal.{
  checkpoint_journal, data_source, journal_node, checkpoint_journal-fill_all,
}

abbrev logs : Logs
logs = record {
  first_blk = λ stage. if stage then 10 else 100;
  last_blk = λ stage. if stage then 19 else 109;
}

logs-IsLogs : IsLogs logs
logs-IsLogs = record {
  ordered = elim [ true ↦ omega arith | false ↦ omega arith ];
  addressed = elim [ true ↦ omega arith | false ↦ omega arith ];
}

abbrev three : List Etag
three =
    record { start = 500; cnt = 3 }
    ∷ (record { start = 502; cnt = 2 } ∷ (record { start = 501; cnt = 1 } ∷ []))

-- Block 502 comes from block 101: the blocks from 108 on hold 500, 501, 502 (108, 109, 100), then 502 and 503
-- (101, 102), then 501 (103).
source_502 : data_source logs 107 three 502 ≡ some 101
unfolding journal_node
source_502 = refl

checkpoint_journal-fill_all_example :
    (tx : JournalTx) × (fill_all three (start_desc 4 stale_tags stale_blocks) ≡ some tx)
    × (evs : List Event) × (checkpoint_journal logs 1073741824 107 0 []
          (copy_desc_and_meta_to_tx_meta tx.desc_blk tx.md_buf stale_meta)
        ≡ some evs)
    × ((disk : ℕ → ℕ) (d : ℕ)
        → run_events evs [] disk d ≡ content disk (data_source logs 107 three d) (disk d))
    × ((d : ℕ) → copies evs d ≤ 1)
unfolding journal_node
checkpoint_journal-fill_all_example =
    checkpoint_journal-fill_all logs 1073741824 107 logs-IsLogs (omega arith) (omega arith) 4
      stale_tags stale_blocks stale_meta three (omega arith) (omega arith)
      (
        record { addressed = omega arith; counted = omega arith },
        (
          record { addressed = omega arith; counted = omega arith },
          (record { addressed = omega arith; counted = omega arith }, tt),
        ),
      )
      (inr (omega arith), (inr (omega arith), (inr (omega arith), tt))) (omega arith)

-- The stage log is in the blocks below 100.
abbrev in_stage : ℕ → Bool
in_stage g = ltb g 100

abbrev staged_first : List TagListNode
staged_first =
    record { start = 500; src_start_baddr = 18; cnt = 4; stage_tx = true }
    ∷ (record { start = 502; src_start_baddr = 108; cnt = 2; stage_tx = false }
        ∷ (record { start = 504; src_start_baddr = 108; cnt = 1; stage_tx = false } ∷ []))

checkpoint_tags-copies_example :
    (es : List Event) × (checkpoint_tags logs 1073741824 staged_first
      ≡ some (es ++ (dispatch_io ∷ [])))
    × ((d : ℕ)
        → copied es d
          ≡ Option.map
              (log_address logs in_stage (groups_of staged_first))
              (source_of (behind staged_first []) d))
    × ((d : ℕ) → copies es d ≤ 1)
checkpoint_tags-copies_example =
    checkpoint_tags-copies logs in_stage 1073741824 logs-IsLogs staged_first
      (
        record { addressed = omega arith; counted = omega arith },
        (
          record { addressed = omega arith; counted = omega arith },
          (record { addressed = omega arith; counted = omega arith }, tt),
        ),
      )
      (refl, (refl, (refl, tt))) (omega arith)

optimize-SameCopies_example :
    (ns : List TagListNode) × (optimize [] staged_first ≡ some ns)
    × All IsNode ns
    × ((d : ℕ) → writers ns d ≤ 1)
    × SameCopies ns (behind staged_first [])
optimize-SameCopies_example =
    optimize-SameCopies staged_first [] []
      (
        record { addressed = omega arith; counted = omega arith },
        (
          record { addressed = omega arith; counted = omega arith },
          (record { addressed = omega arith; counted = omega arith }, tt),
        ),
      )
      tt (λ d. omega arith) (SameCopies-refl [])

staged_nodes : All IsNode staged_first
staged_nodes = (
  record { addressed = inr (omega arith); counted = omega arith },
  (
    record { addressed = inr (omega arith); counted = omega arith },
    (record { addressed = inr (omega arith); counted = omega arith }, tt),
  ),
)

coalesce-SameCopies_example :
    (ns : List TagListNode) × (coalesce invalid_start [] staged_first ≡ some ns)
    × All IsNode ns
    × ((d : ℕ) → writers ns d ≤ writers (behind staged_first []) d)
    × SameCopies ns (behind staged_first [])
coalesce-SameCopies_example =
    coalesce-SameCopies staged_first invalid_start []
      (
        λ e. absurd (omega (arith, e)),
        (λ e. absurd (omega (arith, e)), (λ e. absurd (omega (arith, e)), tt)),
      )
      staged_nodes tt refl (omega arith)

transfer-copies_example :
    (es : List Event) × (transfer 13 logs 1073741824 start_progress staged_first ≡ some es)
    × ((d : ℕ)
        → copied es d ≡ asked (log_address logs in_stage (groups_of staged_first)) 0 staged_first d)
    × ((d : ℕ) → copies es d ≡ writers staged_first d)
transfer-copies_example =
    transfer-copies logs in_stage (groups_of staged_first) logs-IsLogs 1073741824 13 start_progress
      0 staged_first staged_nodes (refl, (refl, (refl, tt)))
      (λ k lt. ground (arith, lt), (λ k lt. ground (arith, lt), (λ k lt. ground (arith, lt), tt)))
      (start-IsAt logs in_stage (groups_of staged_first) (omega arith)) (omega arith)
