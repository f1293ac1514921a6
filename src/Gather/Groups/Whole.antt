-- ===== src/Gather/Groups/Whole.antt =====
-- The scan of all dirty groups of a file.
use oxbow.Prelude.{
  ℕ, zero, suc, ◌+◌, ◌-◌, ◌*◌, ◌≤◌, ◌<◌, ◌≡◌, refl, sym, ap, ap₂, ◌∙◌, ◌≢◌, inl, inr, true, false,
  ◌++◌, append-nil, append_assoc, arith, Bool-cases, update, update_self, update-ne,
}
use native.Mathlib.Decide.{dec_lt}
use mathlib.Core.Path.{subst}
use oxbow.Gather.Groups.{
  FileBits, gather_block, first_set, gather_first, gather_word, gather_words,
  inode_gather_dirty_pagebits,
}
use oxbow.Gather.Progress.{dirty_below, pages_of}
use oxbow.Gather.Groups.Pages.{AreLists, journal_pages, waiting_pages, gather_block-pages}
use oxbow.Gather.{none_set, gather_dirty_bits}
use oxbow.Gather.Groups.First.{first_set-IsFirst, none_set-unset, gather_first-first}
use oxbow.RangeDirty.{InodeDirty}
use oxbow.RangeDirty.Chain.{ranges}
use oxbow.Gather.Groups.Gathered.{group_pages, GatheredUpTo, group_pages-clean, group_pages-dirty}

module _ (df_id : ℕ) (f0 : FileBits)
    (unlocked : (r p : ℕ) → f0.dirty r p ≡ true → f0.lock r p ≡ false) where
  abbrev At : ℕ → FileBits → Type 0
  At q f = GatheredUpTo df_id f0 q f

  -- A group that is not dirty.
  pass : (q : ℕ) (f : FileBits) → At q f → f.dg_bmap q ≡ false → At (q + 1) f
  pass q f v clean =
      let was_clean : f0.dg_bmap q ≡ false = sym (v.groups_later q (omega arith)) ∙ clean in
      let same = sym (group_pages-clean f0.dg_bmap f0.dirty q was_clean) in
      record {
        lists = v.lists;
        journal = v.journal ∙ ap (λ l. journal_pages f0.inode ++ l) same;
        waiting = v.waiting ∙ ap (λ l. waiting_pages df_id f0.inode ++ l) same;
        done_before = λ r lt. elim (dec_lt r q) [
          | yes before ↦ v.done_before r before
          | no at ↦ ap f.dg_bmap {y = q} (omega arith) ∙ clean
        ];
        clean_before = λ r p lt dirty low. elim (dec_lt r q) [
          | yes before ↦ v.clean_before r p before dirty low
          | no at ↦
              absurd (true_false (sym dirty ∙ ap f0.dg_bmap {y = q} (omega arith) ∙ was_clean))
        ];
        groups_later = λ r le. v.groups_later r (omega arith);
        dirty_later = λ r le. v.dirty_later r (omega arith);
        lock_later = λ r le. v.lock_later r (omega arith);
      }
    where
      true_false : true ≡ false → ⊥
      true_false e = cc

  -- Several of them.
  pass_all :
      (n q : ℕ) (f : FileBits)
      → At q f
      → ((r : ℕ) → q ≤ r → r < q + n → f.dg_bmap r ≡ false)
      → At (q + n) f
  pass_all zero q f v clean = subst (λ k. At k f) (omega arith) v
  pass_all (suc n) q f v clean =
      subst (λ k. At k f) (omega arith)
        (pass_all n (q + 1) f (pass q f v (clean q (omega arith) (omega arith)))
          (λ r lo hi. clean r (omega arith) (omega arith)))

  abbrev cleared : ℕ → FileBits → FileBits
  cleared q f = record f { dg_bmap = update f.dg_bmap q false }

  -- Other blocks stay as they are.
  gather_block-others :
      (q r : ℕ) (f : FileBits)
      → q ≢ r
      → let f' = gather_block true df_id q f in (f'.dirty r ≡ f.dirty r) × (f'.lock r ≡ f.lock r)
  unfolding gather_block
  gather_block-others q r f other =
      let s = (gather_dirty_bits q (f.dirty q) (f.lock q)).1 in
      (update-ne f.dirty q r s.dirty other, update-ne f.lock q r s.lock other)

  gather_block-dg_bmap : (q : ℕ) (f : FileBits) → (gather_block true df_id q f).dg_bmap ≡ f.dg_bmap
  unfolding gather_block
  gather_block-dg_bmap q f = refl

  -- A dirty group.
  take_group :
      (q : ℕ) (f : FileBits)
      → At q f
      → f.dg_bmap q ≡ true
      → At (q + 1) (gather_block true df_id q (cleared q f))
  take_group q f v dirty =
      let was_dirty : f0.dg_bmap q ≡ true = sym (v.groups_later q (omega arith)) ∙ dirty in
      let d_same : f.dirty q ≡ f0.dirty q = v.dirty_later q (omega arith) in
      let l_same : f.lock q ≡ f0.lock q = v.lock_later q (omega arith) in
      let free : (p : ℕ) → f.dirty q p ≡ true → f.lock q p ≡ false =
        λ p h. ap (λ l. l p) l_same ∙ unlocked q p (sym (ap (λ d. d p) d_same) ∙ h) in
      let (lists, j, w, clean, locked) = gather_block-pages df_id q (cleared q f) free v.lists in
      let new : dirty_below (q * 8192) (f.dirty q) 8192 ≡ dirty_below (q * 8192) (f0.dirty q) 8192 =
        ap (λ d. dirty_below (q * 8192) d 8192) d_same in
      let pages = sym (group_pages-dirty f0.dg_bmap f0.dirty q was_dirty) in
      let groups = gather_block-dg_bmap q (cleared q f) in
      record {
        lists = lists;
        journal =
            j
            ∙ ap₂ ◌++◌ v.journal new
            ∙ append_assoc (journal_pages f0.inode) (group_pages f0.dg_bmap f0.dirty q) _
            ∙ ap (λ l. journal_pages f0.inode ++ l) pages;
        waiting =
            w
            ∙ ap₂ ◌++◌ v.waiting new
            ∙ append_assoc (waiting_pages df_id f0.inode) (group_pages f0.dg_bmap f0.dirty q) _
            ∙ ap (λ l. waiting_pages df_id f0.inode ++ l) pages;
        done_before = λ r lt. ap (λ g. g r) groups ∙ elim (dec_lt r q) [
          | yes before ↦ update-ne f.dg_bmap q r false (omega arith) ∙ v.done_before r before
          | no at ↦
              ap (update f.dg_bmap q false) {y = q} (omega arith) ∙ update_self f.dg_bmap q false
        ];
        clean_before = λ r p lt was low. elim (dec_lt r q) [
          | yes before ↦
              ap (λ d. d p) (gather_block-others q r (cleared q f) (omega arith)).0
              ∙ v.clean_before r p before was low
          | no at ↦
              ap (λ k. (gather_block true df_id q (cleared q f)).dirty k p) {y = q} (omega arith)
              ∙ clean p low
        ];
        groups_later = λ r le.
            ap (λ g. g r) groups
            ∙ update-ne f.dg_bmap q r false (omega arith)
            ∙ v.groups_later r (omega arith);
        dirty_later = λ r le.
            (gather_block-others q r (cleared q f) (omega arith)).0 ∙ v.dirty_later r (omega arith);
        lock_later = λ r le.
            (gather_block-others q r (cleared q f) (omega arith)).1 ∙ v.lock_later r (omega arith);
      }

  gather_word-At :
      (fuel i q : ℕ) (f : FileBits)
      → i * 64 ≤ q
      → q ≤ i * 64 + 64
      → i * 64 + 64 ≤ q + fuel
      → At q f
      → At (i * 64 + 64) (gather_word true df_id fuel i f)
  unfolding gather_word
  gather_word-At zero i q f lo hi enough v = subst (λ k. At k f) (omega arith) v
  gather_word-At (suc fuel) i q f lo hi enough v =
      elim (Bool-cases (none_set f.dg_bmap (i * 64) 64)) [
        | inl blank ↦ rw blank (
            subst (λ k. At k f) (omega arith)
              (pass_all (i * 64 + 64 - q) q f v (λ r from to.
                none_set-unset f.dg_bmap (i * 64) 64 r blank (omega arith) (omega arith))))
        | inr busy ↦
            let (first, in_word) = first_set-IsFirst f.dg_bmap (i * 64) 64 busy in
            let q' = first_set f.dg_bmap (i * 64) 64 in
            let ahead : q ≤ q' = not_behind q q' f v first.is_set in
            let moved =
              subst (λ k. At k f) {y = q'} (omega (arith, ahead))
                (pass_all (q' - q) q f v
                  (λ r from to. first.unset_before r (omega arith) (omega (arith, to)))) in
            let taken = take_group q' f moved first.is_set in
            let round = sym (gather_first-first true df_id i q' f first in_word) in
            let rest =
              gather_word-At fuel i (q' + 1) (gather_first true df_id i f)
                (omega (arith, first.from)) (omega (arith, in_word)) (omega (arith, ahead))
                (subst (λ g. At (q' + 1) g) round taken) in
            rw busy rest
      ]
    where
      true_false : true ≡ false → ⊥
      true_false e = cc

      not_behind : (q q' : ℕ) (f : FileBits) → At q f → f.dg_bmap q' ≡ true → q ≤ q'
      not_behind q q' f v h = elim (dec_lt q' q) [
        | yes behind ↦ absurd (true_false (sym h ∙ v.done_before q' behind))
        | no at ↦ omega (arith, at)
      ]

  gather_words-At :
      (i n : ℕ) (f : FileBits) → At (i * 64) f → At ((i + n) * 64) (gather_words true df_id i n f)
  unfolding gather_words
  gather_words-At i zero f v = subst (λ k. At k f) (omega arith) v
  gather_words-At i (suc n) f v =
      let one = gather_word-At 64 i (i * 64) f (omega arith) (omega arith) (omega arith) v in
      let next = gather_word true df_id 64 i f in
      subst (λ k. At k (gather_words true df_id (i + 1) n next)) (omega arith)
        (gather_words-At (i + 1) n next (subst (λ k. At k next) (omega arith) one))

  start-GatheredUpTo :
      (inode : InodeDirty)
      → AreLists df_id f0.inode
      → inode.i_journal_dirty ≡ f0.inode.i_journal_dirty
      → inode.i_journal_waiting_dirty ≡ f0.inode.i_journal_waiting_dirty
      → At 0 (record f0 { inode = inode })
  unfolding group_pages
  start-GatheredUpTo inode v j w = record {
    lists = rw j (rw w v);
    journal = ap (λ d. pages_of (ranges d.nodes)) j ∙ sym (append-nil _);
    waiting = ap (λ d. pages_of (ranges (d df_id).nodes)) w ∙ sym (append-nil _);
    done_before = λ r lt. absurd (omega (arith, lt));
    clean_before = λ r p lt h low. absurd (omega (arith, lt));
    groups_later = λ r le. refl;
    dirty_later = λ r le. refl;
    lock_later = λ r le. refl;
  }

  -- When no dirty page of the file is locked and the inode's lists are well formed, gathering the
  -- file for the journal adds exactly the dirty pages of its dirty groups, in ascending order,
  -- behind the pages of the journal and behind those that wait for the data fetcher; the lists
  -- stay well formed, no group is dirty any more, and the pages of the groups that were are clean.
  pub inode_gather_dirty_pagebits-pages :
      AreLists df_id f0.inode
      → let f' = inode_gather_dirty_pagebits true df_id f0 in
        let new = group_pages f0.dg_bmap f0.dirty 32768 in
        AreLists df_id f'.inode
        × (journal_pages f'.inode ≡ journal_pages f0.inode ++ new)
        × (waiting_pages df_id f'.inode ≡ waiting_pages df_id f0.inode ++ new)
        × ((r : ℕ) → r < 32768 → f'.dg_bmap r ≡ false)
        × ((r p : ℕ) → r < 32768 → f0.dg_bmap r ≡ true → p < 8192 → f'.dirty r p ≡ false)
  unfolding inode_gather_dirty_pagebits
  inode_gather_dirty_pagebits-pages v =
      let inode = record f0.inode {
        i_journal_waiting_nr_dirty_blks = update f0.inode.i_journal_waiting_nr_dirty_blks df_id 0;
      } in
      let g =
        gather_words-At 0 512 (record f0 { inode = inode })
          (start-GatheredUpTo inode v refl refl) in
      (g.lists, g.journal, g.waiting, g.done_before, g.clean_before)
