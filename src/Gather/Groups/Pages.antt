-- ===== src/Gather/Groups/Pages.antt =====
-- What the gathered blocks add to the lists of the inode.
use oxbow.Prelude.{
  ℕ, zero, suc, ◌*◌, ◌<◌, ◌≡◌, sym, ap, ap₂, ◌∙◌, true, false, ◌||◌, Option, none, some, List, [],
  ◌∷◌, ◌++◌, append-nil, append_assoc, arith, update_self,
}
use oxbow.RangeDirty.{RangeDirty, InodeDirty, add_range_dirty, DirtyList}
use oxbow.Gather.Groups.{add_calls, FileBits, reset_tails, gather_block}
use oxbow.Gather.Progress.{run_of, pages_of, dirty_below, pages_of-append}
use oxbow.RangeDirty.Chain.{ranges}
use oxbow.RangeDirty.Add.{IsList}
use oxbow.Gather.{gather_dirty_bits}
use oxbow.Gather.Runs.{gather_dirty_bits-finds}
use oxbow.RangeDirty.Inode.{add_range_dirty_journal-appends, add_range_dirty-empty}
use oxbow.DirtyMgmt.Account.{total}

-- The lists of the journal that grow, and the stager's, are well formed.
abbrev pub AreLists : ℕ → InodeDirty → Type 0
AreLists df_id inode = IsList inode.i_journal_dirty × IsList (inode.i_journal_waiting_dirty df_id)

abbrev pub journal_pages : InodeDirty → List ℕ
journal_pages inode = pages_of (ranges inode.i_journal_dirty.nodes)

abbrev pub waiting_pages : ℕ → InodeDirty → List ℕ
waiting_pages df_id inode = pages_of (ranges (inode.i_journal_waiting_dirty df_id).nodes)

-- What adding `new` pages to the lists of an inode leaves.
abbrev Grown : ℕ → InodeDirty → List ℕ → InodeDirty → Type 0
Grown df_id inode new inode' =
    AreLists df_id inode'
    × (journal_pages inode' ≡ journal_pages inode ++ new)
    × (waiting_pages df_id inode' ≡ waiting_pages df_id inode ++ new)

module _ (df_id : ℕ) where
  pages_of-one :
      (k : List RangeDirty) (start nr : ℕ)
      → pages_of (k ++ (record { start = start; nr = nr } ∷ [])) ≡ pages_of k ++ run_of start nr
  unfolding pages_of
  pages_of-one k start nr =
      pages_of-append k (record { start = start; nr = nr } ∷ [])
      ∙ ap (λ x. pages_of k ++ x) (append-nil (run_of start nr))

  added :
      (inode : InodeDirty) (start nr : ℕ)
      → AreLists df_id inode
      → Grown df_id inode (run_of start nr) (add_range_dirty true true inode start nr true df_id).1
  unfolding run_of
  added inode start zero v =
      rw (add_range_dirty-empty inode start df_id true) (v, sym (append-nil _), sym (append-nil _))
  added inode start (suc nr) v =
      let (inode', e, r, x, s, y, total, rest) =
        add_range_dirty_journal-appends inode start (suc nr) df_id (omega arith) v.0 v.1 in
      rw e (
        (x, y),
        ap pages_of r ∙ pages_of-one (ranges inode.i_journal_dirty.nodes) start (suc nr),
        ap pages_of s
            ∙ pages_of-one (ranges (inode.i_journal_waiting_dirty df_id).nodes) start (suc nr),
      )

  add_calls-Grown :
      (inode : InodeDirty) (l : List RangeDirty)
      → AreLists df_id inode
      → Grown df_id inode (pages_of l) (add_calls true df_id inode l)
  unfolding add_calls pages_of
  add_calls-Grown inode [] v = (v, sym (append-nil _), sym (append-nil _))
  add_calls-Grown inode (rd ∷ l) v =
      let (one, p, q) = added inode rd.start rd.nr v in
      let (rest, r, s) =
        add_calls-Grown (add_range_dirty true true inode rd.start rd.nr true df_id).1 l one in
      (
        rest,
        r
            ∙ ap (λ x. x ++ pages_of l) p
            ∙ append_assoc (journal_pages inode) (run_of rd.start rd.nr) (pages_of l),
        s
            ∙ ap (λ x. x ++ pages_of l) q
            ∙ append_assoc (waiting_pages df_id inode) (run_of rd.start rd.nr) (pages_of l),
      )

  reset-AreLists :
      (inode : InodeDirty)
      → AreLists df_id inode
      → Grown df_id inode [] (reset_tails true df_id inode)
  unfolding reset_tails
  reset-AreLists inode v =
      let waiting = inode.i_journal_waiting_dirty in
      let cleared : DirtyList = record { nodes = (waiting df_id).nodes; tail = none } in
      let here = update_self waiting df_id cleared in
      (
        (
          record { chain = v.0.chain; cached = λ i e. absurd (no_some e) },
          rw here (record { chain = v.1.chain; cached = λ i e. absurd (no_some e) }),
        ),
        sym (append-nil _),
        rw here (sym (append-nil _)),
      )
    where
      no_some : {i : ℕ} → ◌≡◌ {A = Option ℕ} none (some i) → ⊥
      no_some e = cc

  -- When no dirty page of a block is locked and the inode's lists are well formed, gathering the
  -- block for the journal adds exactly its dirty pages, in ascending order, behind those of the
  -- journal and behind those waiting for the data fetcher, and the lists stay well formed. The
  -- block's pages are clean then, and those that were dirty are locked.
  pub gather_block-pages :
      (bmap_idx : ℕ) (f : FileBits)
      → ((p : ℕ) → f.dirty bmap_idx p ≡ true → f.lock bmap_idx p ≡ false)
      → AreLists df_id f.inode
      → let f' = gather_block true df_id bmap_idx f in
        let new = dirty_below (bmap_idx * 8192) (f.dirty bmap_idx) 8192 in
        AreLists df_id f'.inode
        × (journal_pages f'.inode ≡ journal_pages f.inode ++ new)
        × (waiting_pages df_id f'.inode ≡ waiting_pages df_id f.inode ++ new)
        × ((p : ℕ) → p < 8192 → f'.dirty bmap_idx p ≡ false)
        × ((p : ℕ) → p < 8192 → f'.lock bmap_idx p ≡ (f.dirty bmap_idx p || f.lock bmap_idx p))
  unfolding gather_block
  gather_block-pages bmap_idx f unlocked v =
      let s = (gather_dirty_bits bmap_idx (f.dirty bmap_idx) (f.lock bmap_idx)).1 in
      let (ok, pages, clean, locked, later) =
        gather_dirty_bits-finds bmap_idx (f.dirty bmap_idx) (f.lock bmap_idx) unlocked in
      let (v1, j1, w1) = reset-AreLists f.inode v in
      let (v2, j2, w2) = add_calls-Grown (reset_tails true df_id f.inode) s.calls v1 in
      (
        v2,
        j2 ∙ ap₂ ◌++◌ (j1 ∙ append-nil _) pages,
        w2 ∙ ap₂ ◌++◌ (w1 ∙ append-nil _) pages,
        λ p lt. rw (update_self f.dirty bmap_idx s.dirty) (clean p lt),
        λ p lt. rw (update_self f.lock bmap_idx s.lock) (locked p lt),
      )
