-- ===== src/Commit/Prepare.antt =====
-- A transaction takes the next blocks of the log and writes each block where it belongs.
use oxbow.Prelude.{
  Distinct, ℕ, ◌+◌, ◌-◌, ◌*◌, ◌/◌, ◌%◌, ◌≤◌, ◌<◌, ◌≡◌, refl, ap, ◌∙◌, true, false, some, List, [],
  ◌++◌, arith, ◌==◌, update, update_self, u32, add64, sub64,
}
use native.Mathlib.Nat.{mod-mod}
use oxbow.Commit.{
  CommitReq, done, Server, PendingTx, asserted, build_bios, finish_bios, prepare_tx, FetchCtx,
  and_then,
}
use oxbow.JournalLog.{JournalLog, bytes_to_nblks, alloc_journal_space}
use oxbow.JournalLog.Alloc.{
  size_of, IsValid, live, blocks_from, taken, taken-IsValid, live-taken, alloc-some, head-advanced,
  live-Distinct, used_of,
}
use oxbow.JournalLog.Window.{window}
use oxbow.Commit.Layout.{tx_blks, IsRequest, Fetched, reserve_lem, valid-IsArea, bios_lem}
use oxbow.JournalLog.Bios.Spans.{writes, Write}
use oxbow.JournalLog.Bios.{Bio, bios_considering_wrap, add_bios_considering_wrap}
use oxbow.JournalLog.Bios.RingSpan.{ring_span}

module _ {j : JournalLog} {r : CommitReq} (v : IsValid j) (q : IsRequest j r) where
  abbrev data_blks : ℕ
  data_blks = r.total_data_size / 4096

  abbrev with_data : JournalLog
  with_data = taken j (data_blks + 1)

  with_data-IsValid : IsValid with_data
  with_data-IsValid = taken-IsValid (data_blks + 1) v (omega (arith, q.room))

  meta_blks : bytes_to_nblks (add64 (sub64 r.md_size 4096) 8192) ≡ r.md_size / 4096 + 1
  meta_blks = omega (arith, q.room, q.has_metadata, q.md_aligned, v.counted, v.free_in)

  abbrev with_meta : JournalLog
  with_meta = taken with_data (r.md_size / 4096 + 1)

  meta_room : r.md_size / 4096 + 1 ≤ with_data.n_free_blks
  meta_room = omega (arith, q.room, v.counted, v.free_in)

  pub with_meta-IsValid : IsValid with_meta
  with_meta-IsValid = taken-IsValid (r.md_size / 4096 + 1) with_data-IsValid meta_room

  meta_alloc :
      alloc_journal_space with_data (add64 (sub64 r.md_size 4096) 8192)
      ≡ some (with_data.head, with_meta)
  meta_alloc =
      alloc-some with_data (add64 (sub64 r.md_size 4096) 8192)
        (omega (arith, q.md_aligned, q.has_metadata)) (omega (arith, meta_blks, meta_room))
        v.counted with_data-IsValid.free_in
      ∙ ap (λ n. some (with_data.head, taken with_data n)) meta_blks

  live-with_meta : live with_meta ≡ live j ++ blocks_from j j.head (tx_blks r)
  live-with_meta =
      ap (λ k. window j.first (size_of j) (j.tail - j.first) k)
        (omega (arith, q.room, v.counted, v.free_in))
      ∙ live-taken (tx_blks r) v q.room

-- What the transaction of request `r` writes, and where, when it starts at the head of log `j`: its
-- metadata behind the `data_blks` blocks of data, a copy of the superblock, the descriptor block in
-- front and, in a list of its own, the commit block behind all others. The blocks are added to those
-- in use, which are all different, and the entry for the checkpoint names them all.
pub record LaidOut (s : Server) (r : CommitReq) (s' : Server) (p : PendingTx) : Type 0 where
  pub meta_bl : List Bio
  pub dispatched : s'.io ≡ s.io ++ meta_bl
  pub meta_writes :
      let j = s.logs r.df_id in
      let off = j.head - j.first in
      let n = r.total_data_size / 4096 in
      let m = r.md_size / 4096 in
      writes meta_bl
      ≡ (ring_span j.first (size_of j) (off + n + 1) (r.rdma_buf + 4096) (m - 1)
          ++ ring_span j.first (size_of j) (off + n + m) r.sb_buf 1)
        ++ ring_span j.first (size_of j) off r.rdma_buf 1
  pub commit_writes :
      let j = s.logs r.df_id in
      writes p.commit_bl ≡ ring_span j.first (size_of j) (j.head - j.first + tx_blks r - 1) r.ch 1
  pub valid : IsValid (s'.logs r.df_id)
  pub appended :
      let j = s.logs r.df_id in live (s'.logs r.df_id) ≡ live j ++ blocks_from j j.head (tx_blks r)
  pub apart : Distinct (live (s'.logs r.df_id))
  pub unmoved :
      let j = s.logs r.df_id in
      let j' = s'.logs r.df_id in (j'.first ≡ j.first) × (j'.last ≡ j.last) × (j'.tail ≡ j.tail)
  pub used : used_of (s'.logs r.df_id) ≡ used_of (s.logs r.df_id) + tx_blks r
  pub entry_start : p.ce.j_start_baddr ≡ (s.logs r.df_id).head
  pub entry_size : p.ce.total_tx_size ≡ 4096 * tx_blks r
  pub entry_blks : tx_blks r < u32

module _ (s : Server) (r : CommitReq) (v : IsValid (s.logs r.df_id))
    (positive : 0 < (s.logs r.df_id).first) (q : IsRequest (s.logs r.df_id) r)
    (fetched : Fetched (s.logs r.df_id) (s.g_fetch_ctx r.df_id) r)
    (gets_entry : r.ce_allocated ≡ true) where
  abbrev j : JournalLog
  j = s.logs r.df_id

  abbrev j2 : JournalLog
  j2 = with_meta v q

  abbrev bios : List Bio × List Bio
  bios =
      finish_bios j2 r j.head (
        bios_considering_wrap j2 [] (with_data v q).head (r.rdma_buf + 4096) (sub64 r.md_size 4096))

  abbrev described : FetchCtx
  described = let f = s.g_fetch_ctx r.df_id in record f { desc_blk_baddr = j.head }

  abbrev after : Server
  after = record s {
    logs = update s.logs r.df_id j2;
    g_fetch_ctx = update s.g_fetch_ctx r.df_id (described);
    io = s.io ++ bios.0;
  }

  abbrev pending : PendingTx
  pending = record {
    commit_bl = bios.1;
    log_tail = j.tail;
    ce = record {
      df_id = r.df_id;
      j_start_baddr = j.head;
      total_tx_size = add64 (add64 r.total_data_size (add64 (sub64 r.md_size 4096) 8192)) 4096;
      tx_id = r.tx_id;
      ready = false;
    };
  }

  prepare_lem : prepare_tx s r ≡ done (after, some pending)
  unfolding and_then prepare_tx build_bios add_bios_considering_wrap asserted
  prepare_lem =
      let no_md : (r.md_size == 0) ≡ false = ground (arith, q.has_metadata) in
      let no_buf : (r.rdma_buf == 0) ≡ false = ground (arith, q.has_buffer) in
      let aligned : (sub64 r.md_size 4096 % 4096 == 0) ≡ true =
        ground (arith, q.md_aligned, q.has_metadata) in
      rw no_md (
        rw no_buf (
          rw (reserve_lem (s.g_fetch_ctx r.df_id) v q fetched)
            (rw (meta_alloc v q) (rw aligned (rw gets_entry refl)))))

  start_at :
      (with_data v q).head - j.first
      ≡ (j.head - j.first + (r.total_data_size / 4096 + 1)) % size_of j
  start_at = head-advanced (r.total_data_size / 4096 + 1) v (omega (arith, q.room))

  bios_at :
      let off = j.head - j.first + (r.total_data_size / 4096 + 1) in
      let m = r.md_size / 4096 - 1 in
      (writes bios.0
        ≡ (ring_span j.first (size_of j) off (r.rdma_buf + 4096) m
            ++ ring_span j.first (size_of j) (off + m) r.sb_buf 1)
          ++ ring_span j.first (size_of j) (j.head - j.first) r.rdma_buf 1)
      × (writes bios.1 ≡ ring_span j.first (size_of j) (off + m + 1) r.ch 1)
  bios_at =
      let v2 = with_meta-IsValid v q in
      let d = with_data-IsValid v q in
      bios_lem {j = j2} r (with_data v q).head j.head
        (j.head - j.first + (r.total_data_size / 4096 + 1)) (j.head - j.first)
        (valid-IsArea v2 positive) (omega (arith, d.head_in.0, d.head_in.1))
        (omega (arith, v.head_in.0, v.head_in.1))
        (omega (arith, q.room, q.md_aligned, q.has_metadata, v.counted, v.free_in))
        (ap (λ k. k % size_of j) start_at ∙ mod-mod _ (size_of j)) refl (r.md_size / 4096 - 1)
        (omega (arith, q.room, q.md_aligned, q.has_metadata, v.counted, v.free_in))

  abbrev superblock_at : ℕ → ℕ → ℕ → List Write
  superblock_at a m b =
      (ring_span j.first (size_of j) a (r.rdma_buf + 4096) (m - 1)
        ++ ring_span j.first (size_of j) b r.sb_buf 1)
      ++ ring_span j.first (size_of j) (j.head - j.first) r.rdma_buf 1

  abbrev metadata_at : ℕ → ℕ → List Write
  metadata_at m a = superblock_at a m (a + (m - 1))

  -- On a valid log that leaves out block 0, with room for the whole transaction, its data written
  -- and memory for its checkpoint entry, `persist_meta_and_commit` reaches the gate, and has laid
  -- the transaction out as `LaidOut` says: data, metadata, superblock copy and commit block follow
  -- the descriptor block, round the log, on blocks that were free.
  pub prepare_tx_lays_out :
      (s' : Server) × (p : PendingTx) × (prepare_tx s r ≡ done (s', some p)) × LaidOut s r s' p
  prepare_tx_lays_out =
      let here = update_self s.logs r.df_id j2 in
      let off = j.head - j.first in
      let n = r.total_data_size / 4096 in
      let m = r.md_size / 4096 in
      let has : 1 ≤ m = omega (arith, q.md_aligned, q.has_metadata) in
      (
        after,
        pending,
        prepare_lem,
        record {
          meta_bl = bios.0;
          dispatched = refl;
          meta_writes =
              bios_at.0
              ∙ ap (metadata_at m) {y = off + n + 1} (omega arith)
              ∙ ap (superblock_at (off + n + 1) m) {y = off + n + m} (omega arith);
          commit_writes =
              bios_at.1 ∙ ap (λ o. ring_span j.first (size_of j) o r.ch 1) (omega arith);
          valid = rw here (with_meta-IsValid v q);
          appended = rw here (live-with_meta v q);
          apart = rw here (live-Distinct (with_meta-IsValid v q));
          unmoved = rw here (refl, refl, refl);
          used = rw here (omega (arith, q.room, v.counted, v.free_in));
          entry_start = refl;
          entry_size = omega (arith, q.room, q.md_aligned, q.data_aligned, v.counted, v.free_in);
          entry_blks = omega (arith, q.room, v.counted, v.free_in);
        },
      )
