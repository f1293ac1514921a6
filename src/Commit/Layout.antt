-- ===== src/Commit/Layout.antt =====
-- Where a transaction lies in the log.
use oxbow.Prelude.{
  ℕ, ◌+◌, ◌-◌, ◌/◌, ◌%◌, ◌≤◌, ◌<◌, ◌≡◌, refl, sym, ap, ap₂, ◌∙◌, ◌⊎◌, inl, inr, true, false, List,
  [], ◌++◌, arith, ◌==◌, sub64,
}
use native.Mathlib.Nat.{mod-add-mod}
use oxbow.Commit.{
  CommitReq, finish_bios, done, FetchCtx, wait_for_all_persist_data_completion, reserve_data,
  asserted, and_then,
}
use oxbow.JournalLog.{JournalLog, bytes_to_nblks}
use oxbow.JournalLog.Advance.{area}
use oxbow.JournalLog.Alloc.{IsValid, taken, alloc-some}
use oxbow.JournalLog.Bios.{bios_considering_wrap, add_bio_considering_wrap}
use oxbow.JournalLog.Bios.Spans.{Write, writes}
use oxbow.JournalLog.Bios.Wrap.{
  IsArea, IsCursor, bios_considering_wrap_lem, log_writes-mod, add_bio_considering_wrap_lem,
}
use oxbow.JournalLog.Refine.{update_log_state-taken}
use oxbow.JournalLog.Bios.RingSpan.{ring_span}

module _ {j : JournalLog} (v : IsValid j) (positive : 0 < j.first) where
  pub valid-IsArea : IsArea j
  valid-IsArea = record {
    positive = positive;
    ordered = v.ordered;
    counted = v.counted;
    addressed = v.addressed;
  }

-- The bios of a transaction from position `off` of the log on: `n` blocks of metadata, the superblock,
-- the descriptor block in front, at `front`, and the commit block.
module _ {j : JournalLog} (r : CommitReq) (start desc off front : ℕ) (a : IsArea j)
    (c : IsCursor j start) (d : IsCursor j desc)
    (fits : bytes_to_nblks (sub64 r.md_size 4096) ≤ area j.first j.last)
    (at : (start - j.first) % area j.first j.last ≡ off % area j.first j.last)
    (first_at : (desc - j.first) % area j.first j.last ≡ front % area j.first j.last) where
  abbrev ring : ℕ → ℕ → ℕ → List Write
  ring o buf n = ring_span j.first (area j.first j.last) o buf n

  pub bios_lem :
      (n : ℕ)
      → n ≡ bytes_to_nblks (sub64 r.md_size 4096)
      → let (meta_bl, commit_bl) =
          finish_bios j r desc
            (bios_considering_wrap j [] start (r.rdma_buf + 4096) (sub64 r.md_size 4096)) in
        (writes meta_bl
          ≡ (ring off (r.rdma_buf + 4096) n ++ ring (off + n) r.sb_buf 1)
            ++ ring front r.rdma_buf 1)
        × (writes commit_bl ≡ ring (off + n + 1) r.ch 1)
  unfolding finish_bios writes
  bios_lem n e =
      let A = area j.first j.last in
      let meta = bios_considering_wrap j [] start (r.rdma_buf + 4096) (sub64 r.md_size 4096) in
      let m =
        bios_considering_wrap_lem {j = j} [] start (r.rdma_buf + 4096) (sub64 r.md_size 4096) a c
          fits in
      let sb = add_bio_considering_wrap j meta.0 meta.1 r.sb_buf in
      let s = add_bio_considering_wrap_lem {j = j} meta.0 meta.1 r.sb_buf a m.1 in
      let t = add_bio_considering_wrap_lem {j = j} sb.0 desc r.rdma_buf a d in
      let k = add_bio_considering_wrap_lem {j = j} [] sb.1 r.ch a s.1 in
      let sb_at : (meta.1 - j.first) % A ≡ (off + n) % A =
        m.2
        ∙ sym (mod-add-mod (start - j.first) A _)
        ∙ ap₂ (λ x y. (x + y) % A) at (sym e)
        ∙ mod-add-mod off A n in
      let commit_at : (sb.1 - j.first) % A ≡ (off + n + 1) % A =
        s.2
        ∙ sym (mod-add-mod (meta.1 - j.first) A 1)
        ∙ ap (λ x. (x + 1) % A) sb_at
        ∙ mod-add-mod (off + n) A 1 in
      (
        t.0
            ∙ ap₂ ◌++◌
                (s.0
                  ∙ ap₂ ◌++◌
                      (m.0
                        ∙ log_writes-mod j start off (r.rdma_buf + 4096) _ at
                        ∙ ap (λ x. ring off (r.rdma_buf + 4096) x) (sym e))
                      (log_writes-mod j meta.1 (off + n) r.sb_buf 1 sb_at))
                (log_writes-mod j desc front r.rdma_buf 1 first_at),
        k.0 ∙ log_writes-mod j sb.1 (off + n + 1) r.ch 1 commit_at,
      )

-- The fetch context of a transaction whose data is written: nothing was fetched, or all requests are
-- done and the first of them has put the descriptor block at the head of the log.
unfoldable pub Fetched : JournalLog → FetchCtx → CommitReq → Type 0
Fetched j f r =
    ((r.n_fetch_reqs ≡ 0)
      × (r.total_data_size ≡ 0)
      × (f.req_cnt ≡ 0)
      × (f.desc_blk_baddr ≡ 0)
      × (f.total_log_size ≡ 0))
    ⊎ ((0 < r.n_fetch_reqs)
        × (f.req_cnt ≡ r.n_fetch_reqs)
        × (r.total_data_size ≡ f.total_log_size)
        × (f.desc_blk_baddr ≡ j.head))

-- The blocks of a transaction: the descriptor block, the data, the rest of the metadata, the
-- superblock copy and the commit block.
abbrev pub tx_blks : CommitReq → ℕ
tx_blks r = r.total_data_size / 4096 + r.md_size / 4096 + 2

-- The request of a transaction that fits the free space of the log.
pub record IsRequest (j : JournalLog) (r : CommitReq) : Type 0 where
  pub has_buffer : 0 < r.rdma_buf
  pub has_metadata : 0 < r.md_size
  pub md_aligned : r.md_size % 4096 ≡ 0
  pub data_aligned : r.total_data_size % 4096 ≡ 0
  pub room : tx_blks r ≤ j.n_free_blks

module _ {j : JournalLog} {r : CommitReq} (f : FetchCtx) (v : IsValid j) (q : IsRequest j r) where
  pub reserve_lem :
      Fetched j f r
      → reserve_data j f r.total_data_size r.n_fetch_reqs
        ≡ done (taken j (r.total_data_size / 4096 + 1), record f { desc_blk_baddr = j.head })
  unfolding and_then Fetched reserve_data wait_for_all_persist_data_completion asserted
  reserve_lem (inl (e, t, c, d, l)) =
      let a = alloc-some j 4096 (omega arith) (omega (arith, q.room)) v.counted v.free_in in
      rw e (rw t (rw c (rw d (rw l (rw a refl)))))
  reserve_lem (inr (p, c, t, d)) =
      let n = r.total_data_size / 4096 + 1 in
      let some_requests : (r.n_fetch_reqs == 0) ≡ false = ground arith in
      let all_done : (f.req_cnt == r.n_fetch_reqs) ≡ true = ground arith in
      let all_written : (r.total_data_size == f.total_log_size) ≡ true = ground arith in
      rw some_requests (
        rw all_done (
          rw all_written (
            ap₂ (λ k d. done (k, record f { desc_blk_baddr = d }))
              (update_log_state-taken j _
                ∙ ap (taken j) {y = n} (omega (arith, q.room, v.counted, v.free_in)))
              d)))
