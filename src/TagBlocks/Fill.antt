-- ===== src/TagBlocks/Fill.antt =====
-- What a transaction of `n` tags looks like while it is filled.
use oxbow.Prelude.{
  ℕ, zero, suc, ◌+◌, ◌-◌, ◌*◌, ◌≤◌, ◌<◌, ◌≡◌, refl, sym, ap, ap₂, ◌∙◌, inl, inr, false, Option,
  none, some, List, [], ◌∷◌, ◌++◌, append-nil, append_assoc, ◌==◌, update, update_self, update-ne,
  u32, add32, sub32, length, length-append, Bool-cases, lt→ltb, le→ltb, arith,
}
use mathlib.Core.Option.{bind}
use oxbow.TagBlocks.{
  Etag, MetaBlock, JournalTx, DescriptorBlock, etag_blk, journal_desc_tag_max, journal_etag_max,
  metadata_blocks, reserve_mdblk, open_etagblk, add_etagblk, put_tag, fill_tag_etagblk,
  put_desc_tag, fill_tag_descblk, behind_etagblk, behind_descblk, fill_at, fill_tagblk, entries,
}
use oxbow.TagBlocks.Entries.{entries-update}

-- The tags of the descriptor block, then those of the blocks from the first to block `n` of the buffer.
unfoldable pub joined : List Etag → (ℕ → MetaBlock) → ℕ → List Etag
joined ts buf zero = ts
joined ts buf (suc n) = joined ts buf n ++ entries ((buf (suc n)).nr) ((buf (suc n)).tags)

joined-cong :
    (ts : List Etag) (buf buf' : ℕ → MetaBlock) (n : ℕ)
    → ((k : ℕ) → k ≤ n → buf k ≡ buf' k)
    → joined ts buf n ≡ joined ts buf' n
unfolding joined
joined-cong ts buf buf' zero h = refl
joined-cong ts buf buf' (suc n) h =
    ap₂ (λ xs (b : MetaBlock). xs ++ entries b.nr b.tags)
      (joined-cong ts buf buf' n (λ k le. h k (omega arith))) (h (suc n) (omega arith))

unfoldable pub desc_tags : DescriptorBlock → List Etag
desc_tags d = entries d.nr_tags d.tags

unfoldable pub AtCursor : List Etag → JournalTx → Option ℕ → Type 0
AtCursor ts tx none =
    (tx.desc_blk.nr_etag_blks ≡ 0)
    × (tx.desc_blk.nr_tags < journal_desc_tag_max)
    × (length ts ≡ tx.desc_blk.nr_tags)
    × (desc_tags tx.desc_blk ≡ ts)
AtCursor ts tx (some i) =
    (i ≡ tx.desc_blk.nr_etag_blks)
    × (0 < i)
    × (tx.desc_blk.nr_tags ≡ journal_desc_tag_max)
    × ((tx.md_buf i).nr < journal_etag_max)
    × (journal_etag_max * i + (tx.md_buf i).nr ≡ length ts + 1)
    × ((k : ℕ) → 0 < k → k ≤ i → (tx.md_buf k).blocktype ≡ etag_blk)
    × (joined (desc_tags tx.desc_blk) tx.md_buf i ≡ ts)

pub record IsFilled (ts : List Etag) (tx : JournalTx) : Type 0 where
  pub traces : tx.desc_blk.nr_stage_trace_blks ≡ 0
  pub room : tx.md_cur + tx.md_nr_blocks ≡ metadata_blocks
  pub place : tx.md_cur ≡ tx.desc_blk.nr_etag_blks + 1
  pub cursor : AtCursor ts tx tx.ext_blk

opened : ℕ → JournalTx → JournalTx
opened n tx = record {
  tid = tx.tid;
  md_cur = tx.md_cur + 1;
  md_nr_blocks = sub32 tx.md_nr_blocks 1;
  desc_blk = record tx.desc_blk { nr_etag_blks = n };
  ext_blk = some tx.md_cur;
  md_buf =
      update tx.md_buf tx.md_cur (record (tx.md_buf tx.md_cur) { nr = 0; blocktype = etag_blk });
}

add_etagblk-opened :
    (n : ℕ) (tx : JournalTx)
    → 1 < tx.md_nr_blocks
    → tx.md_nr_blocks < u32
    → add_etagblk n tx ≡ some (opened n tx)
unfolding add_etagblk reserve_mdblk open_etagblk opened bind
add_etagblk-opened n tx lo hi =
    let t1 = le→ltb tx.md_nr_blocks 1 (omega arith) in
    let t2 : (sub32 tx.md_nr_blocks 1 == 0) ≡ false = ground arith in rw t1 (rw t2 refl)

no_entries : (xs : List Etag) (c : MetaBlock) → c.nr ≡ 0 → xs ++ entries c.nr c.tags ≡ xs
unfolding entries
no_entries xs c z = rw z (append-nil xs)

-- A block without tags behind the others.
joined-empty :
    (d ts : List Etag) (buf : ℕ → MetaBlock) (m : ℕ) (b : MetaBlock)
    → b.nr ≡ 0
    → joined d buf m ≡ ts
    → joined d (update buf (suc m) b) (suc m) ≡ ts
unfolding joined
joined-empty d ts buf m b z eq =
    ap₂ (λ xs (c : MetaBlock). xs ++ entries c.nr c.tags)
      (joined-cong d (update buf (suc m) b) buf m (λ k le. update-ne buf (suc m) k b (omega arith)))
      (update_self buf (suc m) b)
    ∙ no_entries (joined d buf m) b z
    ∙ eq

-- A new extent tag block keeps the tags.
add_etagblk-IsFilled :
    (m : ℕ) (tx : JournalTx) (ts : List Etag)
    → tx.desc_blk.nr_stage_trace_blks ≡ 0
    → tx.md_cur + tx.md_nr_blocks ≡ metadata_blocks
    → tx.md_cur ≡ suc m
    → 1 < tx.md_nr_blocks
    → tx.desc_blk.nr_tags ≡ journal_desc_tag_max
    → journal_etag_max * suc m ≡ length ts + 1
    → ((k : ℕ) → 0 < k → k ≤ m → (tx.md_buf k).blocktype ≡ etag_blk)
    → joined (desc_tags tx.desc_blk) tx.md_buf m ≡ ts
    → (tx' : JournalTx) × (add_etagblk (suc m) tx ≡ some tx') × IsFilled ts tx'
unfolding opened AtCursor joined desc_tags entries
add_etagblk-IsFilled m tx ts tr room cur lo full len typed eq =
    let b = record (tx.md_buf (suc m)) { nr = 0; blocktype = etag_blk } in
    (
      opened (suc m) tx,
      add_etagblk-opened (suc m) tx lo (omega arith),
      record {
        traces = tr;
        room = omega arith;
        place = omega arith;
        cursor = rw cur (
          refl,
          omega arith,
          full,
          (rw (update_self tx.md_buf (suc m) b) (omega arith)),
          (rw (update_self tx.md_buf (suc m) b) (omega arith)),
          (λ k pos le. elim (Bool-cases (suc m == k)) [
            | inl e ↦ rw e refl
            | inr e ↦ rw e (typed k pos (ground arith))
          ]),
          joined-empty (desc_tags tx.desc_blk) ts tx.md_buf m b refl eq,
        );
      },
    )

put_desc_tag-tags :
    (d : DescriptorBlock) (e : Etag)
    → d.nr_tags < journal_desc_tag_max
    → desc_tags (put_desc_tag e d) ≡ desc_tags d ++ (e ∷ [])
unfolding desc_tags put_desc_tag
put_desc_tag-tags d e lt =
    let next : add32 d.nr_tags 1 ≡ suc d.nr_tags = omega arith in
    rw next (entries-update d.nr_tags d.tags e)

put_tag-tags :
    (b : MetaBlock) (e : Etag)
    → b.nr < journal_etag_max
    → entries ((put_tag e b).nr) ((put_tag e b).tags) ≡ entries b.nr b.tags ++ (e ∷ [])
unfolding put_tag
put_tag-tags b e lt =
    let next : add32 b.nr 1 ≡ suc b.nr = omega arith in rw next (entries-update b.nr b.tags e)

joined-put :
    (d : List Etag) (buf : ℕ → MetaBlock) (m : ℕ) (e : Etag)
    → (buf (suc m)).nr < journal_etag_max
    → joined d (update buf (suc m) (put_tag e (buf (suc m)))) (suc m)
      ≡ joined d buf (suc m) ++ (e ∷ [])
unfolding joined
joined-put d buf m e lt =
    let b = put_tag e (buf (suc m)) in
    let old = entries ((buf (suc m)).nr) ((buf (suc m)).tags) in
    ap₂ (λ xs (c : MetaBlock). xs ++ entries c.nr c.tags)
      (joined-cong d (update buf (suc m) b) buf m (λ k le. update-ne buf (suc m) k b (omega arith)))
      (update_self buf (suc m) b)
    ∙ ap (λ ys. joined d buf m ++ ys) (put_tag-tags (buf (suc m)) e lt)
    ∙ sym (append_assoc (joined d buf m) old (e ∷ []))

-- The tags that a transaction can hold: those of the descriptor block, and of the extent tag blocks in the
-- buffer between the first block and the last one, which cannot be used.
abbrev pub tags_max : ℕ
tags_max = journal_etag_max * (metadata_blocks - 1) - 1

-- One more tag.
abbrev pub Filled : List Etag → JournalTx → Etag → Option ℕ → Type 0
Filled ts tx e o = (tx' : JournalTx) × (fill_at tx e o ≡ some tx') × IsFilled (ts ++ (e ∷ [])) tx'

fill_desc :
    (ts : List Etag) (tx : JournalTx) (e : Etag)
    → IsFilled ts tx
    → tx.ext_blk ≡ none
    → AtCursor ts tx none
    → Filled ts tx e none
unfolding fill_at fill_tag_descblk behind_descblk put_desc_tag AtCursor bind joined
fill_desc ts tx e w unset (z, lt, len, eq) =
    let d = put_desc_tag e tx.desc_blk in
    let tx1 = record tx { desc_blk = d } in
    let t = lt→ltb tx.desc_blk.nr_tags journal_desc_tag_max lt in
    let next : add32 tx.desc_blk.nr_tags 1 ≡ suc tx.desc_blk.nr_tags = omega arith in
    let put : desc_tags d ≡ ts ++ (e ∷ []) =
      put_desc_tag-tags tx.desc_blk e lt ∙ ap (λ xs. xs ++ (e ∷ [])) eq in
    let more = length-append ts (e ∷ []) in
    elim (Bool-cases (d.nr_tags == journal_desc_tag_max)) [
      | inl q ↦
          let full : add32 tx.desc_blk.nr_tags 1 ≡ journal_desc_tag_max = ground arith in
          let (tx', run, w') =
            add_etagblk-IsFilled 0 tx1 (ts ++ (e ∷ [])) w.traces w.room (omega (arith, w.place))
              (omega (arith, w.place, w.room)) full (omega (arith, more, len, full))
              (λ k pos le. omega arith) put in
          (tx', rw t (rw q run), w')
      | inr q ↦ (
        tx1,
        rw t (rw q refl),
        record {
          traces = w.traces;
          room = w.room;
          place = w.place;
          cursor = rw unset (z, ground arith, omega (arith, more, len, next), put);
        },
      )
    ]

fill_ext :
    (ts : List Etag) (tx : JournalTx) (e : Etag) (m : ℕ)
    → IsFilled ts tx
    → length ts + 1 < tags_max
    → tx.ext_blk ≡ some (suc m)
    → AtCursor ts tx (some (suc m))
    → Filled ts tx e (some (suc m))
unfolding fill_at fill_tag_etagblk behind_etagblk put_tag AtCursor
fill_ext ts tx e m w fits at (here, pos, full, lt, count, typed, eq) =
    let b = put_tag e (tx.md_buf (suc m)) in
    let buf = update tx.md_buf (suc m) b in
    let tx1 = record tx { md_buf = buf } in
    let next : add32 ((tx.md_buf (suc m)).nr) 1 ≡ suc ((tx.md_buf (suc m)).nr) = omega arith in
    let self : buf (suc m) ≡ b = update_self tx.md_buf (suc m) b in
    let put : joined (desc_tags tx.desc_blk) buf (suc m) ≡ ts ++ (e ∷ []) =
      joined-put (desc_tags tx.desc_blk) tx.md_buf m e lt ∙ ap (λ xs. xs ++ (e ∷ [])) eq in
    let kinds : (k : ℕ) → 0 < k → k ≤ suc m → (buf k).blocktype ≡ etag_blk = λ k pos le.
      elim (Bool-cases (suc m == k)) [
        | inl q ↦ rw q (typed (suc m) (omega arith) (omega arith))
        | inr q ↦ rw q (typed k pos le)
      ] in
    let more = length-append ts (e ∷ []) in
    elim (Bool-cases (b.nr == journal_etag_max)) [
      | inl q ↦
          let whole : add32 ((tx.md_buf (suc m)).nr) 1 ≡ journal_etag_max = ground arith in
          let cur : tx.md_cur ≡ suc (suc m) = omega (arith, w.place) in
          let up : add32 tx.desc_blk.nr_etag_blks 1 ≡ suc (suc m) = omega (arith, w.room, cur) in
          let (tx', run, w') =
            add_etagblk-IsFilled (suc m) tx1 (ts ++ (e ∷ [])) w.traces w.room cur
              (omega (arith, w.room, cur)) full (omega (arith, more)) kinds put in
          (tx', rw q (ap (λ n. add_etagblk n tx1) up ∙ run), w')
      | inr q ↦ (
        tx1,
        rw q refl,
        record {
          traces = w.traces;
          room = w.room;
          place = w.place;
          cursor = rw at (
            here,
            pos,
            full,
            rw self (ground arith),
            rw self (omega (arith, more, next)),
            kinds,
            put,
          );
        },
      )
    ]

fill_at-Filled :
    (ts : List Etag) (tx : JournalTx) (e : Etag) (o : Option ℕ)
    → IsFilled ts tx
    → length ts + 1 < tags_max
    → tx.ext_blk ≡ o
    → AtCursor ts tx o
    → Filled ts tx e o
unfolding AtCursor
fill_at-Filled ts tx e none w fits at c = fill_desc ts tx e w at c
fill_at-Filled ts tx e (some zero) w fits at (here, pos, full, lt, count, typed, eq) =
    let bad : ⊥ = omega (arith, pos) in elim bad [ ]
fill_at-Filled ts tx e (some (suc m)) w fits at c = fill_ext ts tx e m w fits at c

pub fill_tagblk-Filled :
    (ts : List Etag) (tx : JournalTx) (e : Etag)
    → IsFilled ts tx
    → length ts + 1 < tags_max
    → (tx' : JournalTx) × (fill_tagblk tx e ≡ some tx') × IsFilled (ts ++ (e ∷ [])) tx'
unfolding fill_tagblk
fill_tagblk-Filled ts tx e w fits = fill_at-Filled ts tx e tx.ext_blk w fits refl w.cursor
