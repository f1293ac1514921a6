-- ===== src/Commit/Data.antt =====
-- The data of a transaction is written behind its descriptor block.
use oxbow.Prelude.{
  ℕ, ◌+◌, ◌-◌, ◌*◌, ◌%◌, ◌/◌, ◌≤◌, ◌<◌, ◌≡◌, refl, sym, ap, ◌∙◌, inl, inr, true, false, Option,
  List, [], ◌∷◌, ◌++◌, append-nil, arith, leb, ◌==◌, if◌then◌else◌, Bool-cases, u64, u32, add64,
}
use oxbow.Commit.{FetchCtx, done, Persisted, persist_data, dispatch_lists, asserted, and_then}
use oxbow.JournalLog.{JournalLog, bytes_to_nblks}
use oxbow.JournalLog.Alloc.{size_of, IsValid}
use oxbow.JournalLog.Bios.{Bio, is_empty, separate_bls, add_bios_considering_wrap_into_separate_bls}
use oxbow.JournalLog.Refine.{get_chunck_start-later, get_chunck_start-first}
use oxbow.JournalLog.Bios.Spans.{writes, writes-append}
use oxbow.JournalLog.Bios.Separate.{separate_lists_lem, separate_lists-first}
use oxbow.Commit.Layout.{valid-IsArea}
use oxbow.JournalLog.Bios.RingSpan.{ring_span}

nothing_more : (a b : List Bio) → is_empty b ≡ true → writes a ≡ writes a ++ writes b
unfolding is_empty writes
nothing_more a [] e = sym (append-nil _)
nothing_more a (x ∷ b) e = absurd (ground (arith, e))

module _ (dispatch : List Bio → ℕ) (j : JournalLog) (f : FetchCtx) (req_id rdma_buf size : ℕ)
    (v : IsValid j) (positive : 0 < j.first) (has_data : 0 < size) (has_buffer : 0 < rdma_buf)
    (reset : req_id ≡ 0 → f.desc_blk_baddr ≡ 0) (fits : size / 4096 ≤ size_of j)
    (whole : size % 4096 ≡ 0) (inside : j.head + req_id * 8192 < j.last)
    (sends : (b : Bio) (bl : List Bio)
      → (0 < dispatch (b ∷ bl)) × (dispatch (b ∷ bl) < 2147483648)) where
  abbrev start : ℕ
  start = j.head + req_id * 8192 + 1

  abbrev lists : List Bio × List Bio × Option ℕ
  lists = separate_bls j [] [] start rdma_buf size

  -- The fetch context afterwards: the first chunk also notes where the descriptor block goes.
  abbrev fetched : FetchCtx
  fetched = record {
    req_cnt = (f.req_cnt + 1) % u32;
    desc_blk_baddr = if req_id == 0 then j.head else f.desc_blk_baddr;
    total_log_size = add64 f.total_log_size size;
  }

  abbrev outcome : Persisted
  outcome =
      if is_empty lists.1
      then record { f_ctx = fetched; dispatched = lists.0; ret = 0 }
      else record { f_ctx = fetched; dispatched = lists.0 ++ lists.1; ret = dispatch lists.1 }

  sends_some :
      (bl : List Bio) → is_empty bl ≡ false → (0 < dispatch bl) × (dispatch bl < 2147483648)
  unfolding is_empty
  sends_some [] e = absurd (ground (arith, e))
  sends_some (b ∷ bl) e = sends b bl

  fitting : bytes_to_nblks size ≤ size_of j
  fitting = omega (arith, fits)

  first_sent : 0 < dispatch lists.0
  first_sent =
      (sends_some lists.0 (
        separate_lists-first j start rdma_buf size (valid-IsArea v positive)
          (omega (arith, v.head_in.0, inside)) fitting
          (omega (arith, has_data, whole, fits, v.counted)) (omega (arith, inside)))).0

  dispatch_lem :
      (f1 : FetchCtx)
      → record f1 {
        req_cnt = (f1.req_cnt + 1) % u32;
        total_log_size = add64 f1.total_log_size size;
      }
        ≡ fetched
      → dispatch_lists dispatch f1 size lists.0 lists.1 ≡ outcome
  unfolding dispatch_lists
  dispatch_lem f1 e =
      let sent : (dispatch lists.0 == 0) ≡ false = ground (arith, first_sent) in
      rw sent (elim (Bool-cases (is_empty lists.1)) [
        | inl once ↦ rw once (ap (λ g. record { f_ctx = g; dispatched = lists.0; ret = 0 }) e)
        | inr split ↦
            let not_negative : leb 2147483648 (dispatch lists.1) ≡ false =
              ground (arith, (sends_some lists.1 split).1) in
            rw split (
              rw not_negative (
                ap
                  (λ g. record {
                    f_ctx = g;
                    dispatched = lists.0 ++ lists.1;
                    ret = dispatch lists.1;
                  })
                  e))
      ])

  abbrev noted : FetchCtx
  noted = record f { desc_blk_baddr = if req_id == 0 then j.head else f.desc_blk_baddr }

  persist_lem :
      persist_data dispatch j f req_id rdma_buf size
      ≡ done (dispatch_lists dispatch noted size lists.0 lists.1)
  unfolding persist_data and_then asserted add_bios_considering_wrap_into_separate_bls
  persist_lem =
      let sized : (size == 0) ≡ false = ground (arith, has_data) in
      let buffered : (rdma_buf == 0) ≡ false = ground (arith, has_buffer) in
      let aligned : (size % 4096 == 0) ≡ true = ground (arith, whole) in
      let fits64 : start < u64 = omega (arith, inside, v.addressed) in
      elim (Bool-cases (req_id == 0)) [
        | inl first ↦
            let cleared : (f.desc_blk_baddr == 0) ≡ true = ground (arith, reset) in
            let at : add64 j.head 1 ≡ start = ground (arith, fits64) in
            rw first (
              rw (get_chunck_start-first j req_id first)
                (rw at (rw sized (rw buffered (rw cleared (rw aligned refl))))))
        | inr later ↦ rw later (
            rw (get_chunck_start-later j req_id later fits64)
              (rw sized (rw buffered (rw aligned refl))))
      ]

  outcome_writes : writes outcome.dispatched ≡ writes lists.0 ++ writes lists.1
  outcome_writes = elim (Bool-cases (is_empty lists.1)) [
    | inl whole ↦ rw whole (nothing_more lists.0 lists.1 whole)
    | inr split ↦ rw split (writes-append lists.0 lists.1)
  ]

  outcome_f_ctx : outcome.f_ctx ≡ fetched
  outcome_f_ctx = elim (Bool-cases (is_empty lists.1)) [
    | inl whole ↦ rw whole refl
    | inr split ↦ rw split refl
  ]

  -- On a valid log that leaves out block 0, when the storage engine accepts all requests of a list that
  -- is not empty, chunk `req_id` of a transaction, of at least one whole block and no partial one, from
  -- a buffer that is not null, no larger than the log and beginning on a block of it, goes to the blocks
  -- behind the descriptor block and the full chunks before it, in order and round the log. The fetch context,
  -- whose descriptor address is reset before the first chunk, counts the chunk and its bytes, and the first
  -- chunk notes the head of the log as the place of the descriptor block.
  pub persist_data-writes :
      (p : Persisted) × (persist_data dispatch j f req_id rdma_buf size ≡ done p)
      × (writes p.dispatched
          ≡ ring_span j.first
              (size_of j)
              (j.head - j.first + 1 + req_id * 8192)
              rdma_buf
              (bytes_to_nblks size))
      × (p.f_ctx ≡ fetched)
  persist_data-writes = (
    outcome,
    persist_lem ∙ ap done (dispatch_lem noted refl),
    outcome_writes
        ∙ separate_lists_lem j start rdma_buf size (valid-IsArea v positive)
            (omega (arith, v.head_in.0, inside)) fitting
        ∙ ap (λ o. ring_span j.first (size_of j) o rdma_buf (bytes_to_nblks size))
            (omega (arith, v.head_in.0)),
    outcome_f_ctx,
  )
