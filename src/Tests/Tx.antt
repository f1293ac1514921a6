-- ===== src/Tests/Tx.antt =====
-- A transaction of four blocks on the log of ten blocks: one of data, the descriptor block, the
-- superblock copy and the commit block.
use oxbow.Prelude.{
  ℕ, ◌+◌, ◌≡◌, ◌≢◌, refl, inr, Bool, true, false, none, some, List, [], ◌∷◌, ◌++◌, arith, update,
}
use oxbow.Commit.{
  done, FetchCtx, reset_fetch_ctx, CkptEntry, Server, PendingTx, Persisted, persist_data, CommitReq,
  prepare_tx, ckpt_list_enqueue, ckpt_list_dequeue, commit_turn, release_entry,
}
use oxbow.Tests.Log.{ten_blocks, ten_blocks-IsValid}
use oxbow.JournalLog.Alloc.{IsValid, used_of, live, blocks_from}
use oxbow.JournalLog.Bios.{Bio}
use oxbow.JournalLog.Bios.Spans.{writes}
use oxbow.Commit.Prepare.{LaidOut, prepare_tx_lays_out}
use oxbow.Commit.Layout.{Fetched, IsRequest, tx_blks}
use oxbow.Commit.Data.{persist_data-writes}
use oxbow.Commit.Release.{release_entry_in_turn}
use oxbow.Commit.Tiles.{TilesFrom, Tiled, prepare_tx-Tiled, release_entry-releases}
use oxbow.Commit.Order.{
  Consecutive, IsOrdered, IsRunning, Step, stop, step, Steps-IsOrdered, commits, takes,
}
use oxbow.JournalLog.Bios.RingSpan.{ring_span}

abbrev one_fetched : FetchCtx
one_fetched = record { req_cnt = 1; desc_blk_baddr = 17; total_log_size = 4096 }

abbrev oldest : CkptEntry
oldest = record { df_id = 0; j_start_baddr = 12; total_tx_size = 20480; tx_id = 4; ready = true }

abbrev server : Server
server = record {
  logs = λ i. ten_blocks;
  g_fetch_ctx = λ i. one_fetched;
  sb_start = 12;
  sb_tx_id = 4;
  g_tx_seqn = 4;
  g_ckpt_list = oldest ∷ [];
  io = [];
}

abbrev request : CommitReq
request = record {
  df_id = 0;
  tx_id = 5;
  md_size = 4096;
  total_data_size = 4096;
  n_fetch_reqs = 1;
  rdma_buf = 65536;
  sb_buf = 131072;
  ch = 196608;
  ce_allocated = true;
}

request-IsRequest : IsRequest ten_blocks request
request-IsRequest = record {
  has_buffer = omega arith;
  has_metadata = omega arith;
  md_aligned = refl;
  data_aligned = refl;
  room = omega arith;
}

one_fetched-Fetched : Fetched ten_blocks one_fetched request
unfolding Fetched
one_fetched-Fetched = inr (omega arith, refl, refl, refl)

prepare_tx_lays_out_example :
    (s' : Server) × (p : PendingTx) × (prepare_tx server request ≡ done (s', some p))
    × LaidOut server request s' p
prepare_tx_lays_out_example =
    prepare_tx_lays_out server request ten_blocks-IsValid (omega arith) request-IsRequest
      one_fetched-Fetched refl

-- An engine that sends each list as one request.
abbrev engine : List Bio → ℕ
engine [] = 0
engine (b ∷ bl) = 1

persist_data-writes_example :
    (p : Persisted) × (persist_data engine ten_blocks
        (record { req_cnt = 0; desc_blk_baddr = 0; total_log_size = 0 })
        0
        65536
        12288
      ≡ done p)
    × (writes p.dispatched ≡ ring_span 10 10 8 65536 3)
    × (p.f_ctx ≡ record { req_cnt = 1; desc_blk_baddr = 17; total_log_size = 12288 })
persist_data-writes_example =
    persist_data-writes engine ten_blocks
      (record { req_cnt = 0; desc_blk_baddr = 0; total_log_size = 0 }) 0 65536 12288
      ten_blocks-IsValid (omega arith) (omega arith) (omega arith) (λ e. refl) (omega arith) refl
      (omega arith) (λ b bl. (omega arith, omega arith))

oldest-Tiled : Tiled ten_blocks (oldest ∷ [])
unfolding Tiled TilesFrom
oldest-Tiled = (refl, refl, omega arith, refl)

abbrev taken : Server
taken = record server { g_ckpt_list = [] }

release_entry-releases_example :
    (s' : Server) × (warned : Bool) × (release_entry taken oldest ≡ done (s', warned, oldest))
    × (live ten_blocks ≡ blocks_from ten_blocks 12 5 ++ live (s'.logs 0))
    × IsValid (s'.logs 0)
    × Tiled (s'.logs 0) []
    × (s'.sb_start ≡ (s'.logs 0).tail)
    × (s'.sb_tx_id ≡ 5)
    × (s'.g_ckpt_list ≡ [])
    × ((k : ℕ) → 0 ≢ k → s'.logs k ≡ ten_blocks)
release_entry-releases_example =
    release_entry-releases taken oldest [] ten_blocks-IsValid oldest-Tiled

prepare_tx-Tiled_example :
    (s' : Server) × (p : PendingTx) × (prepare_tx server request ≡ done (s', some p))
    × IsValid (s'.logs 0)
    × (used_of (s'.logs 0) ≡ used_of ten_blocks + tx_blks request)
    × Tiled (s'.logs 0) (oldest ∷ p.ce ∷ [])
prepare_tx-Tiled_example =
    prepare_tx-Tiled server request (oldest ∷ []) ten_blocks-IsValid (omega arith) request-IsRequest
      one_fetched-Fetched refl oldest-Tiled

server-IsOrdered : IsOrdered server
unfolding IsOrdered Consecutive
server-IsOrdered = inr (omega arith, omega arith, omega arith, (refl, refl))

abbrev fifth : PendingTx
fifth = record {
  commit_bl = [];
  log_tail = 12;
  ce = record { df_id = 0; j_start_baddr = 17; total_tx_size = 16384; tx_id = 5; ready = false };
}

takes_oldest : Step server none taken (some oldest)
unfolding ckpt_list_dequeue
takes_oldest = takes oldest [] refl

abbrev after_commit : Server
after_commit = record taken {
  sb_start = 12;
  io = [];
  g_fetch_ctx = update server.g_fetch_ctx 0 (reset_fetch_ctx one_fetched);
  g_ckpt_list = fifth.ce ∷ [];
  g_tx_seqn = 5;
}

commits_fifth : Step taken (some oldest) after_commit (some oldest)
unfolding commit_turn ckpt_list_enqueue
commits_fifth = commits fifth (omega arith) refl

Steps-IsOrdered_example : IsRunning after_commit (some oldest)
Steps-IsOrdered_example =
    Steps-IsOrdered (step (step stop takes_oldest) commits_fifth) server-IsOrdered

release_entry_in_turn_example :
    (s' : Server) × (release_entry taken oldest ≡ done (s', false, oldest))
    × IsOrdered s'
    × (oldest.tx_id ≡ taken.sb_tx_id)
    × (s'.sb_tx_id ≡ 5)
release_entry_in_turn_example =
    release_entry_in_turn taken oldest [] server-IsOrdered ten_blocks-IsValid oldest-Tiled
