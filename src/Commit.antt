-- ===== src/Commit.antt =====
-- Writing a transaction to the journal, committing it and releasing it after its checkpoint:
-- `persist_data`, `persist_meta_and_commit`, the checkpoint list and the end of `do_checkpoint` in
-- oxbow/devfs/src/journal.c.
-- `persist_meta_and_commit` runs in two steps, since other threads run while it waits for its turn:
-- `prepare_tx` up to the sequence number gate and `commit_turn` behind it. A wait is the outcome
-- `blocked`, after which the thread tries again; a failed assertion is `aborted`.
-- Bios are gathered in `io` in the order in which they are dispatched.
pub mod Data
pub mod Layout
pub mod Prepare
pub mod Tiles
pub mod Order
pub mod Release
use oxbow.Prelude.{
  ℕ, ◌+◌, ◌*◌, ◌/◌, ◌%◌, Bool, true, false, ◌&&◌, ◌||◌, not, Option, none, some, List, [], ◌∷◌,
  ◌++◌, ltb, leb, ◌==◌, if◌then◌else◌, update, u32, add64, sub64,
}
use oxbow.JournalLog.{
  JournalLog, block_size, alloc_journal_space, update_log_state, get_chunck_start,
  free_journal_space, journal_free_percent,
}
use oxbow.JournalLog.Bios.{
  add_bios_considering_wrap, add_bios_considering_wrap_into_separate_bls, add_bio_considering_wrap,
  Bio, is_empty,
}

pub data Outcome (A : Type 0) : Type 0 where
  blocked aborted : Outcome A
  done : A → Outcome A

module _ {A B : Type 0} where
  pub and_then : Outcome A → (A → Outcome B) → Outcome B
  and_then blocked k = blocked
  and_then aborted k = aborted
  and_then (done a) k = k a

-- The predicate holds for the result, if there is one.
abbrev pub Always : {A : Type 0} → (A → Type 0) → Outcome A → Type 0
Always P blocked = Unit
Always P aborted = Unit
Always P (done a) = P a

-- `struct fetch_ctx`
pub record FetchCtx : Type 0 where
  pub req_cnt : ℕ
  pub desc_blk_baddr : ℕ
  pub total_log_size : ℕ

pub reset_fetch_ctx : FetchCtx → FetchCtx
reset_fetch_ctx f = record { req_cnt = 0; desc_blk_baddr = 0; total_log_size = 0 }

-- `struct ckpt_list_entry`; of its `tx_meta`, the transaction's id.
pub record CkptEntry : Type 0 where
  pub df_id : ℕ
  pub j_start_baddr : ℕ
  pub total_tx_size : ℕ
  pub tx_id : ℕ
  pub ready : Bool

-- The global state: the logs and fetch contexts of the data fetchers, the superblock in memory, the
-- sequence number of the last commit, the checkpoint list and the bios dispatched.
pub record Server : Type 0 where
  pub logs : ℕ → JournalLog
  pub g_fetch_ctx : ℕ → FetchCtx
  pub sb_start : ℕ
  pub sb_tx_id : ℕ
  pub g_tx_seqn : ℕ
  pub g_ckpt_list : List CkptEntry
  pub io : List Bio

-- What a thread holds at the gate.
pub record PendingTx : Type 0 where
  pub commit_bl : List Bio
  pub log_tail : ℕ
  pub ce : CkptEntry

-- What `persist_data` leaves: the fetch context, the lists dispatched and the 32-bit result.
pub record Persisted : Type 0 where
  pub f_ctx : FetchCtx
  pub dispatched : List Bio
  pub ret : ℕ

-- The part of `persist_data` that sends the two lists.
pub dispatch_lists : (List Bio → ℕ) → FetchCtx → ℕ → List Bio → List Bio → Persisted
unfolding is_empty
dispatch_lists dispatch f1 size bl_first bl_second =
    let sent_first = dispatch bl_first in
    let sent_second = dispatch bl_second in
    let fetched = record f1 {
      total_log_size = add64 f1.total_log_size size;
      req_cnt = (f1.req_cnt + 1) % u32;
    } in
    if sent_first == 0
    then record { f_ctx = f1; dispatched = bl_first; ret = 0 }
    else if is_empty bl_second
    then record { f_ctx = fetched; dispatched = bl_first; ret = 0 }
    else if leb 2147483648 sent_second
    then record { f_ctx = f1; dispatched = bl_first ++ bl_second; ret = sent_second }
    else record { f_ctx = fetched; dispatched = bl_first ++ bl_second; ret = sent_second }

-- A failed assertion.
pub asserted : {A : Type 0} → Option A → Outcome A
asserted none = aborted
asserted (some a) = done a

-- `dispatch` is `se_dispatch_io_nocopy_async`: the number of requests, 0 if none was sent.
pub persist_data : (List Bio → ℕ) → JournalLog → FetchCtx → ℕ → ℕ → ℕ → Outcome Persisted
persist_data dispatch j f req_id rdma_buf size =
    let chunk_start = get_chunck_start j req_id in
    let first_chunk = req_id == 0 in
    let data_start = if first_chunk then add64 chunk_start 1 else chunk_start in
    let f1 = if first_chunk then record f { desc_blk_baddr = chunk_start } else f in
    if size == 0 || rdma_buf == 0 || (first_chunk && not (f.desc_blk_baddr == 0))
    then aborted
    else and_then
        (asserted (add_bios_considering_wrap_into_separate_bls j [] [] data_start rdma_buf size))
        (λ lists. done (dispatch_lists dispatch f1 size lists.0 lists.1))

pub wait_for_all_persist_data_completion : FetchCtx → ℕ → ℕ → Outcome FetchCtx
wait_for_all_persist_data_completion f total_data_size n_fetch_reqs =
    if f.req_cnt == n_fetch_reqs
    then if total_data_size == f.total_log_size then done f else aborted
    else blocked

-- The descriptor block and the data blocks are taken from the log.
pub reserve_data : JournalLog → FetchCtx → ℕ → ℕ → Outcome (JournalLog × FetchCtx)
unfolding wait_for_all_persist_data_completion
reserve_data j f total_data_size n_fetch_reqs =
    let fresh =
      total_data_size == 0 && f.req_cnt == 0 && f.desc_blk_baddr == 0 && f.total_log_size == 0 in
    if n_fetch_reqs == 0
    then if fresh
      then and_then (asserted (alloc_journal_space j block_size))
          (λ r. done (r.1, record f { desc_blk_baddr = r.0 }))
      else aborted
    else and_then (wait_for_all_persist_data_completion f total_data_size n_fetch_reqs)
        (λ g. done (update_log_state j (add64 (total_data_size / block_size) 1), g))

-- The request of the client and the addresses of the three buffers: the metadata (descriptor block
-- first), the copy of the superblock and the commit header. `ce_allocated` says whether
-- `alloc_ckpt_entry` succeeds, and `tx_id` is the transaction's id in the descriptor block.
pub record CommitReq : Type 0 where
  pub df_id : ℕ
  pub tx_id : ℕ
  pub md_size : ℕ
  pub total_data_size : ℕ
  pub n_fetch_reqs : ℕ
  pub rdma_buf : ℕ
  pub sb_buf : ℕ
  pub ch : ℕ
  pub ce_allocated : Bool

-- The metadata is requested; the superblock copy, the descriptor block and the commit block follow.
pub finish_bios : JournalLog → CommitReq → ℕ → List Bio × ℕ → List Bio × List Bio
finish_bios j r desc_blk_baddr (meta1, sb_baddr) =
    let (meta2, commit_baddr) = add_bio_considering_wrap j meta1 sb_baddr r.sb_buf in
    let (meta3, behind_desc) = add_bio_considering_wrap j meta2 desc_blk_baddr r.rdma_buf in
    let (commit_bl, behind) = add_bio_considering_wrap j [] commit_baddr r.ch in (meta3, commit_bl)

-- The requests for metadata, superblock copy and descriptor block, and that for the commit block.
pub build_bios : JournalLog → CommitReq → ℕ → ℕ → Outcome (List Bio × List Bio)
build_bios j r start_baddr desc_blk_baddr =
    let jnl_md_size = sub64 r.md_size block_size in
    and_then
      (asserted (add_bios_considering_wrap j [] start_baddr (r.rdma_buf + block_size) jnl_md_size))
      (λ meta. done (finish_bios j r desc_blk_baddr meta))

-- From the allocation in the log to the gate. Without memory for the checkpoint entry the function
-- returns -1 with the log advanced and the metadata written, and nothing is pending.
pub prepare_tx : Server → CommitReq → Outcome (Server × Option PendingTx)
prepare_tx s r =
    let jnl_meta_alloc_size = add64 (sub64 r.md_size block_size) (block_size * 2) in
    if r.md_size == 0 || r.rdma_buf == 0
    then aborted
    else and_then
        (reserve_data (s.logs r.df_id) (s.g_fetch_ctx r.df_id) r.total_data_size r.n_fetch_reqs)
        (λ d. and_then (asserted (alloc_journal_space d.0 jnl_meta_alloc_size)) (λ a.
          and_then (build_bios a.1 r a.0 d.1.desc_blk_baddr) (λ bios.
            let ce : CkptEntry = record {
              df_id = r.df_id;
              j_start_baddr = d.1.desc_blk_baddr;
              total_tx_size = add64 (add64 r.total_data_size jnl_meta_alloc_size) block_size;
              tx_id = r.tx_id;
              ready = false;
            } in
            let pending : PendingTx = record { commit_bl = bios.1; log_tail = a.1.tail; ce = ce } in
            done (
              record s {
                logs = update s.logs r.df_id a.1;
                g_fetch_ctx = update s.g_fetch_ctx r.df_id d.1;
                io = s.io ++ bios.0;
              },
              if r.ce_allocated then some pending else none,
            ))))

unfoldable pub ckpt_list_enqueue : List CkptEntry → CkptEntry → List CkptEntry
ckpt_list_enqueue l ce = l ++ (ce ∷ [])

-- The oldest entry, if there is one and it is ready.
unfoldable pub ckpt_list_dequeue : List CkptEntry → Option CkptEntry × List CkptEntry
ckpt_list_dequeue [] = (none, [])
ckpt_list_dequeue (ce ∷ l) = if ce.ready then (some ce, l) else (none, ce ∷ l)

-- Behind the gate.
unfoldable pub commit_turn : Server → PendingTx → Outcome Server
unfolding reset_fetch_ctx ckpt_list_enqueue
commit_turn s p =
    let df = p.ce.df_id in
    let my_turn = s.g_tx_seqn == 0 || p.ce.tx_id == (s.g_tx_seqn + 1) % u32 in
    if my_turn
    then done (record s {
      sb_start = p.log_tail;
      io = s.io ++ p.commit_bl;
      sb_tx_id = if s.sb_tx_id == 0 then p.ce.tx_id else s.sb_tx_id;
      g_fetch_ctx = update s.g_fetch_ctx df (reset_fetch_ctx (s.g_fetch_ctx df));
      g_ckpt_list = ckpt_list_enqueue s.g_ckpt_list p.ce;
      g_tx_seqn = p.ce.tx_id;
    })
    else blocked

pub mark_ready : ℕ → List CkptEntry → List CkptEntry
mark_ready tx_id [] = []
mark_ready tx_id (ce ∷ l) =
    (if ce.tx_id == tx_id then record ce { ready = true } else ce) ∷ mark_ready tx_id l

-- `prepare_ckpt` on the entry `ce`: the entry of its transaction becomes ready. With less than 2
-- percent of the log free, the server asserts.
pub prepare_ckpt : Server → CkptEntry → Outcome Server
unfolding mark_ready
prepare_ckpt s ce =
    if ltb (journal_free_percent (s.logs ce.df_id)) 2
    then aborted
    else done (record s { g_ckpt_list = mark_ready ce.tx_id s.g_ckpt_list })

-- The superblock's transaction id, and whether the warning on a mismatch is logged.
pub increase_journal_sb_tx_id : ℕ → ℕ → ℕ × Bool
increase_journal_sb_tx_id sb_tx_id this_tx_id =
    ((this_tx_id + 1) % u32, not (sb_tx_id == this_tx_id))

-- `sync_journal_sb`, for the tail that it is called with.
pub synced_start : ℕ → Option ℕ → ℕ
synced_start sb_start none = sb_start
synced_start sb_start (some tail) = tail

-- The end of a checkpoint of the entry `ce`, which `ckpt_list_dequeue` has taken off the list before and
-- whose data is in place now; no lock is held in between, so other threads run there. The superblock names
-- the next transaction, the entry's space is released, and the superblock gets the tail behind it. The
-- outcome is the server, whether a mismatch was logged, and the entry.
pub release_entry : Server → CkptEntry → Outcome (Server × Bool × CkptEntry)
unfolding increase_journal_sb_tx_id synced_start
release_entry s ce =
    let (sb_tx_id, warned) = increase_journal_sb_tx_id s.sb_tx_id ce.tx_id in
    and_then
      (asserted (free_journal_space (s.logs ce.df_id) ce.j_start_baddr ce.total_tx_size true))
      (λ r. done (
        record s {
          logs = update s.logs ce.df_id r.1;
          sb_tx_id = sb_tx_id;
          sb_start = synced_start s.sb_start r.0;
        },
        warned,
        ce,
      ))
