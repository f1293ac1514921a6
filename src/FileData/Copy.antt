-- ===== src/FileData/Copy.antt =====
-- The copy to the buffers keeps the pages in their order.
use oxbow.Prelude.{
  ℕ, zero, suc, ◌+◌, ◌-◌, ◌*◌, ◌%◌, ◌≤◌, ◌<◌, ◌≡◌, refl, sym, ap, ap₂, ◌∙◌, inl, inr, true, false,
  Option, some, List, [], ◌∷◌, ◌++◌, append_assoc, append-nil, map, length, length-append, ltb,
  ◌==◌, u32, u64, add64, sub64, add32, sub32, update, Bool-cases, arith,
}
use mathlib.Core.Option.{bind}
use mathlib.Core.Path.{subst}
use mathlib.Core.List.{map-append}
use oxbow.FileData.{
  FetchData, DataTx, Copying, with_buffer, tx_alloc_buffer, request_data_fetch, with_tx, copy_page,
  put_page, new_buffer, send_fetch, copy_data_blks, copy_rest, copy_split, copy_range,
}
use oxbow.FileData.Pages.{run, run-append, length-run, unlocked, unlocked-append}

-- The requests are numbered, and each is for a full buffer.
unfoldable pub AreReported : ℕ → List FetchData → Type 0
AreReported k [] = Unit
AreReported k (r ∷ rs) =
    (r.req_id ≡ k) × (r.size ≡ 33554432) × (length r.pages ≡ 8192) × AreReported (k + 1) rs

-- A transaction whose buffer is neither full nor reported.
pub record IsTx (tx : DataTx) : Type 0 where
  pub room : 0 < tx.nr_blocks
  pub whole : length tx.buf + tx.nr_blocks ≡ 8192
  pub used : tx.used_blk_cnt ≡ 8192 * length tx.requests + length tx.buf
  pub sent : tx.nr_sent_blks ≡ 8192 * length tx.requests
  pub bufs : tx.n_df_bufs ≡ length tx.requests + 1
  pub reported : AreReported 0 tx.requests

unfoldable pub sent_pages : List FetchData → List ℕ
sent_pages [] = []
sent_pages (r ∷ rs) = r.pages ++ sent_pages rs

-- The data blocks of the transaction so far: those of the buffers that the server fetches, and behind them
-- those in the buffer.
unfoldable pub data_of : DataTx → List ℕ
data_of tx = sent_pages tx.requests ++ tx.buf

sent_pages-append :
    (rs ss : List FetchData) → sent_pages (rs ++ ss) ≡ sent_pages rs ++ sent_pages ss
unfolding sent_pages
sent_pages-append [] ss = refl
sent_pages-append (r ∷ rs) ss =
    ap (λ l. r.pages ++ l) (sent_pages-append rs ss)
    ∙ sym (append_assoc r.pages (sent_pages rs) (sent_pages ss))

AreReported-append :
    (k : ℕ) (rs : List FetchData) (r : FetchData)
    → AreReported k rs
    → r.req_id ≡ k + length rs
    → r.size ≡ 33554432
    → length r.pages ≡ 8192
    → AreReported k (rs ++ (r ∷ []))
unfolding AreReported
AreReported-append k [] r h id size len = (omega (arith, id), size, len, tt)
AreReported-append k (q ∷ rs) r (i, s, l, h) id size len =
    (i, s, l, AreReported-append (k + 1) rs r h (omega (arith, id)) size len)

module _ (alloc : ℕ → Option ℕ) (data_at : ℕ → ℕ) where
  -- The pages are copied and unlocked.
  pub record IsCopy (c c' : Copying) (ps : List ℕ) : Type 0 where
    pub valid : IsTx c'.tx
    pub stream : data_of c'.tx ≡ data_of c.tx ++ map data_at ps
    pub used_more : c'.tx.used_blk_cnt ≡ c.tx.used_blk_cnt + length ps
    pub locks : c'.locked ≡ unlocked ps c.locked

  pub IsCopy-trans :
      (b c d : Copying) (ps qs : List ℕ) → IsCopy b c ps → IsCopy c d qs → IsCopy b d (ps ++ qs)
  IsCopy-trans b c d ps qs p q = record {
    valid = q.valid;
    stream =
        q.stream
        ∙ ap (λ l. l ++ map data_at qs) p.stream
        ∙ append_assoc (data_of b.tx) (map data_at ps) (map data_at qs)
        ∙ ap (λ l. data_of b.tx ++ l) (sym (map-append data_at ps qs));
    used_more = omega (arith, p.used_more, q.used_more, length-append ps qs);
    locks = q.locks ∙ ap (unlocked qs) p.locks ∙ sym (unlocked-append ps qs b.locked);
  }

  pub IsCopy-refl : (c : Copying) → IsTx c.tx → IsCopy c c []
  unfolding unlocked
  IsCopy-refl c v = record {
    valid = v;
    stream = sym (append-nil (data_of c.tx));
    used_more = omega arith;
    locks = refl;
  }

  module _ (gives : (n : ℕ) → (id : ℕ) × (alloc n ≡ some id)) where
    -- A page behind which there is room.
    copy_page_room :
        (c : Copying) (p : ℕ)
        → IsTx c.tx
        → c.tx.used_blk_cnt + 1 < u32
        → 1 < c.tx.nr_blocks
        → (c' : Copying) × (copy_page alloc data_at c p ≡ some c') × IsCopy c c' (p ∷ [])
    unfolding copy_page with_tx data_of unlocked put_page
    copy_page_room c p v small more =
        let rest : (sub32 c.tx.nr_blocks 1 == 0) ≡ false = ground (arith, more, v.whole) in
        (
          record { tx = put_page data_at c.tx p; locked = update c.locked p false },
          rw rest refl,
          record {
            valid = record {
              room = omega (arith, more, v.whole);
              whole = omega (arith, more, v.whole, length-append c.tx.buf (data_at p ∷ []));
              used = omega (arith, small, v.used, length-append c.tx.buf (data_at p ∷ []));
              sent = v.sent;
              bufs = v.bufs;
              reported = v.reported;
            };
            stream = sym (append_assoc (sent_pages c.tx.requests) c.tx.buf (data_at p ∷ []));
            used_more = omega (arith, small);
            locks = refl;
          },
        )

    -- The last page of a buffer.
    copy_page_full :
        (c : Copying) (p : ℕ)
        → IsTx c.tx
        → c.tx.used_blk_cnt + 1 < u32
        → c.tx.nr_blocks ≡ 1
        → (c' : Copying) × (copy_page alloc data_at c p ≡ some c') × IsCopy c c' (p ∷ [])
    unfolding copy_page with_tx request_data_fetch tx_alloc_buffer with_buffer bind data_of unlocked
        sent_pages put_page new_buffer send_fetch
    copy_page_full c p v small one =
        let rest : (sub32 c.tx.nr_blocks 1 == 0) ≡ true = ground (arith, one) in
        let used' : add32 c.tx.used_blk_cnt 1 ≡ c.tx.used_blk_cnt + 1 = omega (arith, small) in
        let n : sub64 (add32 c.tx.used_blk_cnt 1) c.tx.nr_sent_blks % u32 ≡ 8192 =
          omega (arith, one, v.whole, v.used, v.sent, small) in
        let (id, got) = gives c.tx.n_df_bufs in
        let last = length-append c.tx.buf (data_at p ∷ []) in
        let t = send_fetch (put_page data_at c.tx p) 8192 in
        let more : length t.requests ≡ length c.tx.requests + 1 = length-append c.tx.requests _ in
        (
          record { tx = new_buffer t id; locked = update c.locked p false },
          rw rest (rw n (rw got refl)),
          record {
            valid = record {
              room = omega arith;
              whole = omega arith;
              used = omega (arith, small, v.used, v.whole, one, more);
              sent = omega (arith, small, v.sent, v.used, more);
              bufs = omega (arith, small, v.bufs, v.used, more);
              reported =
                  AreReported-append 0 c.tx.requests _ v.reported
                    (omega (arith, v.bufs, v.used, small)) (omega arith)
                    (omega (arith, last, v.whole, one));
            };
            stream =
                append-nil (sent_pages t.requests)
                ∙ sent_pages-append c.tx.requests _
                ∙ ap (λ l. sent_pages c.tx.requests ++ l)
                    (append-nil (c.tx.buf ++ (data_at p ∷ [])))
                ∙ sym (append_assoc (sent_pages c.tx.requests) c.tx.buf (data_at p ∷ []));
            used_more = omega (arith, small);
            locks = refl;
          },
        )

    copy_page-IsCopy :
        (c : Copying) (p : ℕ)
        → IsTx c.tx
        → c.tx.used_blk_cnt + 1 < u32
        → (c' : Copying) × (copy_page alloc data_at c p ≡ some c') × IsCopy c c' (p ∷ [])
    copy_page-IsCopy c p v small = elim (Bool-cases (c.tx.nr_blocks == 1)) [
      | inl q ↦ copy_page_full c p v small (ground arith)
      | inr q ↦ copy_page_room c p v small (ground (arith, v.room))
    ]

    copy_data_blks-IsCopy :
        (n : ℕ) (c : Copying) (s : ℕ)
        → IsTx c.tx
        → c.tx.used_blk_cnt + n < u32
        → s + n < u64
        → (c' : Copying) × (copy_data_blks alloc data_at n c s ≡ some c') × IsCopy c c' (run s n)
    unfolding copy_data_blks bind run
    copy_data_blks-IsCopy zero c s v small fits = (c, refl, IsCopy-refl c v)
    copy_data_blks-IsCopy (suc n) c s v small fits =
        let next : add64 s 1 ≡ s + 1 = omega (arith, fits) in
        let (d, page, p) = copy_page-IsCopy c s v (omega (arith, small)) in
        let (e, rest, q) =
          copy_data_blks-IsCopy n d (s + 1) p.valid (omega (arith, small, p.used_more))
            (omega (arith, fits)) in
        (
          e,
          rw page (ap (copy_data_blks alloc data_at n d) next ∙ rest),
          IsCopy-trans c d e (s ∷ []) (run (s + 1) n) p q,
        )

    -- What is left of a range that the buffer has room for.
    copy_rest-IsCopy :
        (s n tmp : ℕ) (c : Copying)
        → IsTx c.tx
        → tmp ≤ n
        → n < u32
        → c.tx.used_blk_cnt + (n - tmp) < u32
        → s + n < u64
        → (c' : Copying) × (copy_rest alloc data_at s n tmp c ≡ some c')
          × IsCopy c c' (run (s + tmp) (n - tmp))
    unfolding copy_rest run
    copy_rest-IsCopy s n tmp c v le word small fits = elim (Bool-cases (ltb tmp n)) [
      | inl q ↦
          let m : sub64 n tmp % u32 ≡ n - tmp = ground (arith, le, word) in
          let at : add64 s tmp ≡ s + tmp = omega (arith, le, fits) in
          rw q (
            rw m (
              rw at
                (copy_data_blks-IsCopy (n - tmp) c (s + tmp) v small (omega (arith, le, fits)))))
      | inr q ↦
          let none_left : n - tmp ≡ 0 = ground arith in
          rw q (rw none_left (c, refl, IsCopy-refl c v))
    ]

    -- A part of a range, and the rest behind it.
    IsCopy_parts :
        (s n tmp b : ℕ) (c d e : Copying)
        → tmp + b ≤ n
        → IsCopy c d (run (s + tmp) b)
        → IsCopy d e (run (s + (tmp + b)) (n - (tmp + b)))
        → IsCopy c e (run (s + tmp) (n - tmp))
    IsCopy_parts s n tmp b c d e le p q =
        let at : s + (tmp + b) ≡ s + tmp + b = omega arith in
        let len : b + (n - (tmp + b)) ≡ n - tmp = omega (arith, le) in
        subst (IsCopy c e)
          (ap (λ a. run (s + tmp) b ++ run a (n - (tmp + b))) at
            ∙ sym (run-append (s + tmp) b (n - (tmp + b)))
            ∙ ap (run (s + tmp)) len)
          (IsCopy-trans c d e _ _ p q)

    copy_split-IsCopy :
        (fuel s n tmp : ℕ) (c : Copying)
        → IsTx c.tx
        → n < u32
        → tmp + c.tx.nr_blocks < n
        → n - tmp ≤ fuel
        → c.tx.used_blk_cnt + (n - tmp) < u32
        → s + n < u64
        → (c' : Copying) × (copy_split fuel alloc data_at s n tmp c ≡ some c')
          × IsCopy c c' (run (s + tmp) (n - tmp))
    unfolding copy_split bind
    copy_split-IsCopy zero s n tmp c v word more enough small fits =
        absurd (omega (arith, more, enough))
    copy_split-IsCopy (suc fuel) s n tmp c v word more enough small fits =
        let b = c.tx.nr_blocks in
        let at : add64 s tmp ≡ s + tmp = omega (arith, more, fits) in
        let next : add64 tmp b ≡ tmp + b = omega (arith, more, word) in
        let left : sub64 n (add64 tmp b) ≡ n - (tmp + b) = omega (arith, more, word) in
        let (d, part, p) =
          copy_data_blks-IsCopy b c (s + tmp) v (omega (arith, small, more))
            (omega (arith, fits, more)) in
        let part' = ap (copy_data_blks alloc data_at b c) at ∙ part in
        let used : d.tx.used_blk_cnt + (n - (tmp + b)) < u32 =
          omega (arith, p.used_more, length-run (s + tmp) b, small, more) in
        elim (Bool-cases (ltb d.tx.nr_blocks (sub64 n (add64 tmp b)))) [
          | inl q ↦
              let (e, rest, r) =
                copy_split-IsCopy fuel s n (tmp + b) d p.valid word (ground (arith, q, left))
                  (omega (arith, enough, v.room)) used fits in
              (
                e,
                rw part' (rw q (ap (λ t. copy_split fuel alloc data_at s n t d) next ∙ rest)),
                IsCopy_parts s n tmp b c d e (omega (arith, more)) p r,
              )
          | inr q ↦
              let (e, rest, r) =
                copy_rest-IsCopy s n (tmp + b) d p.valid (omega (arith, more)) word used fits in
              (
                e,
                rw part' (rw q (ap (λ t. copy_rest alloc data_at s n t d) next ∙ rest)),
                IsCopy_parts s n tmp b c d e (omega (arith, more)) p r,
              )
        ]

    pub copy_range-IsCopy :
        (s n : ℕ) (c : Copying)
        → IsTx c.tx
        → c.tx.used_blk_cnt + n < u32
        → s + n < u64
        → (c' : Copying) × (copy_range alloc data_at s n c ≡ some c') × IsCopy c c' (run s n)
    unfolding copy_range
    copy_range-IsCopy s n c v small fits =
        let at : s + 0 ≡ s = omega arith in
        let all : n - 0 ≡ n = omega arith in
        let whole : (d : Copying) → IsCopy c d (run (s + 0) (n - 0)) → IsCopy c d (run s n) =
          λ d. subst (IsCopy c d) (ap₂ run at all) in
        elim (Bool-cases (ltb c.tx.nr_blocks n)) [
          | inl q ↦
              let (d, run_all, p) =
                copy_split-IsCopy n s n 0 c v (omega (arith, small)) (ground arith) (omega arith)
                  (omega (arith, small)) fits in
              (d, rw q run_all, whole d p)
          | inr q ↦
              let (d, run_all, p) =
                copy_rest-IsCopy s n 0 c v (omega arith) (omega (arith, small))
                  (omega (arith, small)) fits in
              (d, rw q run_all, whole d p)
        ]
