-- ===== src/RangeDirty/Inode.antt =====
-- The lists of an inode: those of the journal, of a data fetcher's transaction, and of the stager.
use oxbow.Prelude.{
  ℕ, ◌%◌, ◌<◌, ◌≡◌, refl, Bool, true, false, List, [], ◌∷◌, ◌++◌, arith, ◌==◌, update, update_self,
  u32, add32,
}
use oxbow.RangeDirty.{
  RangeDirty, InodeDirty, add_range_dirty_staging, add_range_dirty_journal, add_range_dirty, Ird,
  inode_get_stg_dirty_blocks_nr,
}
use oxbow.RangeDirty.Chain.{ranges, blocks, IsChain, blocks-append}
use oxbow.RangeDirty.Add.{IsList, add_range-appends, Added-some}

-- With nodes left in the slab and well-formed lists, a dirty range of the journal that is not
-- empty goes behind those of the journal and those waiting for data fetcher `df_id`, whose number
-- of blocks grows by the range's; both lists stay well formed, and the stager's list stays as it
-- is.
pub add_range_dirty_journal-appends :
    (inode : InodeDirty) (start nr df_id : ℕ)
    → 0 < nr
    → IsList inode.i_journal_dirty
    → IsList (inode.i_journal_waiting_dirty df_id)
    → (inode' : InodeDirty) × (add_range_dirty true true inode start nr true df_id ≡ (true, inode'))
      × (ranges inode'.i_journal_dirty.nodes
          ≡ ranges inode.i_journal_dirty.nodes ++ (record { start = start; nr = nr } ∷ []))
      × IsList inode'.i_journal_dirty
      × (ranges (inode'.i_journal_waiting_dirty df_id).nodes
          ≡ ranges (inode.i_journal_waiting_dirty df_id).nodes
            ++ (record { start = start; nr = nr } ∷ []))
      × IsList (inode'.i_journal_waiting_dirty df_id)
      × (inode'.i_journal_waiting_nr_dirty_blks df_id
          ≡ add32 (inode.i_journal_waiting_nr_dirty_blks df_id) nr)
      × (inode'.i_stg_dirty ≡ inode.i_stg_dirty)
unfolding add_range_dirty add_range_dirty_journal
add_range_dirty_journal-appends inode start nr df_id some_nr v w =
    let rd : RangeDirty = record { start = start; nr = nr } in
    let some_pages : (nr == 0) ≡ false = ground (arith, some_nr) in
    let waiting = inode.i_journal_waiting_dirty df_id in
    let (d, da) =
      Added-some inode.i_journal_dirty rd _ (add_range-appends inode.i_journal_dirty rd v) in
    let (e, ea) = Added-some waiting rd _ (add_range-appends waiting rd w) in
    let here = update_self inode.i_journal_waiting_dirty df_id e in
    let total = add32 (inode.i_journal_waiting_nr_dirty_blks df_id) nr in
    (
      record inode {
        i_journal_dirty = d;
        i_journal_waiting_dirty = update inode.i_journal_waiting_dirty df_id e;
        i_journal_waiting_nr_dirty_blks = update inode.i_journal_waiting_nr_dirty_blks df_id total;
      },
      rw some_pages (rw (da.0) (rw (ea.0) refl)),
      da.1,
      da.2,
      rw here ea.1,
      rw here ea.2,
      update_self inode.i_journal_waiting_nr_dirty_blks df_id total,
      refl,
    )

-- With a node left in the slab and a well-formed list, a dirty range of the stager that is not
-- empty goes behind those of its list, which stays well formed, and the journal's lists stay as
-- they are.
add_range_dirty_staging-appends :
    (inode : InodeDirty) (start nr df_id : ℕ)
    → 0 < nr
    → IsList inode.i_stg_dirty
    → (inode' : InodeDirty) × (add_range_dirty true true inode start nr false df_id
        ≡ (true, inode'))
      × (ranges inode'.i_stg_dirty.nodes
          ≡ ranges inode.i_stg_dirty.nodes ++ (record { start = start; nr = nr } ∷ []))
      × IsList inode'.i_stg_dirty
      × (inode'.i_journal_dirty ≡ inode.i_journal_dirty)
      × (inode'.i_journal_waiting_dirty ≡ inode.i_journal_waiting_dirty)
unfolding add_range_dirty add_range_dirty_staging
add_range_dirty_staging-appends inode start nr df_id some_nr v =
    let rd : RangeDirty = record { start = start; nr = nr } in
    let some_pages : (nr == 0) ≡ false = ground (arith, some_nr) in
    let (d, da) = Added-some inode.i_stg_dirty rd _ (add_range-appends inode.i_stg_dirty rd v) in
    (record inode { i_stg_dirty = d }, rw some_pages (rw (da.0) refl), da.1, da.2, refl, refl)

pub add_range_dirty-empty :
    (inode : InodeDirty) (start df_id : ℕ) (is_journal : Bool)
    → add_range_dirty true true inode start 0 is_journal df_id ≡ (true, inode)
unfolding add_range_dirty add_range_dirty_journal add_range_dirty_staging
add_range_dirty-empty inode start df_id true = refl
add_range_dirty-empty inode start df_id false = refl

-- The sum of the counters of a well-formed chain is the number of pages of its ranges, as a 32-bit word.
inode_get_stg_dirty_blocks_nr-blocks :
    (l : List Ird) → IsChain l → inode_get_stg_dirty_blocks_nr l ≡ blocks (ranges l) % u32
unfolding inode_get_stg_dirty_blocks_nr ranges blocks IsChain
inode_get_stg_dirty_blocks_nr-blocks [] h = refl
inode_get_stg_dirty_blocks_nr-blocks (ird ∷ []) h =
    omega (arith, h.1, blocks-append ird.dirty_pages [])
inode_get_stg_dirty_blocks_nr-blocks (ird ∷ next ∷ l) h = omega (
  arith,
  h.0.1,
  blocks-append ird.dirty_pages (ranges (next ∷ l)),
  inode_get_stg_dirty_blocks_nr-blocks (next ∷ l) h.2,
)
