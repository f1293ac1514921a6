-- ===== src/TagBlocks.antt =====
-- The tags of a journal transaction: which extents its data blocks belong to. The secure daemon writes them
-- behind each other to the descriptor block and to extent tag blocks of the metadata buffer
-- (oxbow/secure_daemon/src/fs/journal.c); the storage server copies these blocks and reads the tags for a
-- checkpoint (oxbow/devfs/src/journal.c). A failed assertion or a use of a null pointer has no result.
pub mod Entries
pub mod Fill
pub mod Scan
use oxbow.Prelude.{
  ℕ, zero, suc, ◌+◌, ◌*◌, ◌/◌, Bool, true, false, Option, none, some, List, [], ◌∷◌, ◌++◌, ltb,
  ◌==◌, if◌then◌else◌, update, add32, sub32,
}
use mathlib.Core.Option.{bind}

-- oxbow/devfs/include/common/sjd.h.
pub record Etag : Type 0 where
  pub start : ℕ
  pub cnt : ℕ

pub record DescriptorBlock : Type 0 where
  pub transaction_id : ℕ
  pub nr_etag_blks : ℕ
  pub nr_stage_trace_blks : ℕ
  pub nr_tags : ℕ
  pub tags : ℕ → Etag

-- An extent tag block, or a stage trace block, whose list of transactions is not used here.
pub record MetaBlock : Type 0 where
  pub blocktype : ℕ
  pub nr : ℕ
  pub tags : ℕ → Etag

abbrev pub etag_blk : ℕ
etag_blk = 4

abbrev pub stage_trace_blk : ℕ
stage_trace_blk = 5

-- What fits in a block of 4096 bytes, at 12 bytes for a tag.
abbrev pub journal_desc_tag_max : ℕ
journal_desc_tag_max = 339

abbrev pub journal_etag_max : ℕ
journal_etag_max = 340

-- The blocks of the metadata buffer, 32 MB.
abbrev pub metadata_blocks : ℕ
metadata_blocks = 8192

-- Pointers into the metadata buffer are indices of its blocks; the first one is the descriptor block.
pub record JournalTx : Type 0 where
  pub tid : ℕ
  pub md_cur : ℕ
  pub md_nr_blocks : ℕ
  pub desc_blk : DescriptorBlock
  pub ext_blk : Option ℕ
  pub md_buf : ℕ → MetaBlock

-- None is NULL, for the last block.
pub reserve_mdblk : JournalTx → ℕ → Option (Option ℕ × JournalTx)
reserve_mdblk tx n =
    if ltb tx.md_nr_blocks n
    then none
    else (let left = sub32 tx.md_nr_blocks 1 in
        some (
          if left == 0 then none else some tx.md_cur,
          record tx { md_cur = tx.md_cur + n; md_nr_blocks = left },
        ))

-- The new extent tag block, without tags.
pub open_etagblk : Option ℕ × JournalTx → Option JournalTx
open_etagblk (none, tx) = none
open_etagblk (some i, tx) = some (record tx {
  ext_blk = some i;
  md_buf = update tx.md_buf i (record (tx.md_buf i) { nr = 0; blocktype = etag_blk });
})

pub add_etagblk : ℕ → JournalTx → Option JournalTx
add_etagblk n tx =
    let tx1 = record tx { desc_blk = record tx.desc_blk { nr_etag_blks = n } } in
    bind (reserve_mdblk tx1 1) open_etagblk

pub put_tag : Etag → MetaBlock → MetaBlock
put_tag e b = record b { tags = update b.tags b.nr e; nr = add32 b.nr 1 }

-- Whether the block is full now, and the transaction.
pub fill_tag_etagblk : JournalTx → ℕ → Etag → Bool × JournalTx
fill_tag_etagblk tx i e =
    let b = put_tag e (tx.md_buf i) in
    (b.nr == journal_etag_max, record tx { md_buf = update tx.md_buf i b })

pub put_desc_tag : Etag → DescriptorBlock → DescriptorBlock
put_desc_tag e d = record d { tags = update d.tags d.nr_tags e; nr_tags = add32 d.nr_tags 1 }

pub fill_tag_descblk : JournalTx → Etag → Option (Bool × JournalTx)
fill_tag_descblk tx e =
    if ltb tx.desc_blk.nr_tags journal_desc_tag_max
    then (let d = put_desc_tag e tx.desc_blk in
        some (d.nr_tags == journal_desc_tag_max, record tx { desc_blk = d }))
    else none

pub behind_etagblk : Bool × JournalTx → Option JournalTx
behind_etagblk (true, tx) = add_etagblk (add32 tx.desc_blk.nr_etag_blks 1) tx
behind_etagblk (false, tx) = some tx

pub behind_descblk : Bool × JournalTx → Option JournalTx
behind_descblk (true, tx) = add_etagblk 1 tx
behind_descblk (false, tx) = some tx

pub fill_at : JournalTx → Etag → Option ℕ → Option JournalTx
fill_at tx e (some i) = behind_etagblk (fill_tag_etagblk tx i e)
fill_at tx e none = bind (fill_tag_descblk tx e) behind_descblk

pub fill_tagblk : JournalTx → Etag → Option JournalTx
fill_tagblk tx e = fill_at tx e tx.ext_blk

pub fill_all : List Etag → JournalTx → Option JournalTx
fill_all [] tx = some tx
fill_all (e ∷ es) tx = bind (fill_tagblk tx e) (fill_all es)

-- The transaction with its descriptor block, before the first tag.
pub start_desc : ℕ → (ℕ → Etag) → (ℕ → MetaBlock) → JournalTx
start_desc id old_tags buf = record {
  tid = id;
  md_cur = 1;
  md_nr_blocks = sub32 metadata_blocks 1;
  desc_blk = record {
    transaction_id = id;
    nr_etag_blks = 0;
    nr_stage_trace_blks = 0;
    nr_tags = 0;
    tags = old_tags;
  };
  ext_blk = none;
  md_buf = buf;
}

-- `tx_meta` of an entry of the checkpoint list.
pub record TxMeta : Type 0 where
  pub desc_blk : DescriptorBlock
  pub meta_start : ℕ → MetaBlock

pub copy_desc_and_meta_to_tx_meta : DescriptorBlock → (ℕ → MetaBlock) → TxMeta → TxMeta
copy_desc_and_meta_to_tx_meta d buf m =
    let n = add32 d.nr_etag_blks d.nr_stage_trace_blks in
    record { desc_blk = d; meta_start = λ k. if ltb k n then buf (k + 1) else m.meta_start k }

-- The tags of a block go to the end of the list.
unfoldable pub entries {ℓ} : {A : Type ℓ} → ℕ → (ℕ → A) → List A
entries zero f = []
entries (suc n) f = entries n f ++ (f n ∷ [])

pub scan_block : MetaBlock → List Etag → Option (List Etag)
scan_block b so_far =
    if b.blocktype == stage_trace_blk
    then some so_far
    else if b.blocktype == etag_blk
    then some (so_far ++ entries b.nr b.tags)
    else none

-- The tags of the descriptor block and of so many blocks behind it.
pub scan_blocks : TxMeta → ℕ → Option (List Etag)
scan_blocks m zero = some (entries m.desc_blk.nr_tags m.desc_blk.tags)
scan_blocks m (suc n) = bind (scan_blocks m n) (scan_block (m.meta_start n))

pub journal_scan : TxMeta → Option (List Etag)
journal_scan m =
    let scanned = scan_blocks m (add32 m.desc_blk.nr_etag_blks m.desc_blk.nr_stage_trace_blks) in
    if m.desc_blk.nr_tags == 0
    then (if m.desc_blk.nr_etag_blks == 0 then some [] else none)
    else scanned
