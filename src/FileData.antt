-- ===== src/FileData.antt =====
-- How the secure daemon puts the dirty pages of a file in a transaction: journal_file_data and the functions
-- that it calls in oxbow/secure_daemon/src/fs/journal.c. The pages go to buffers of 8192 blocks, and a full
-- one is reported to the storage server, which fetches it. Then the tags say which blocks of the file system
-- the pages belong to. A buffer is the list of the pages in it. The file system's get_blocks for the file is
-- an argument, and df_alloc_buffer, of which the argument says what the n-th call gives. An extent tag is
-- recorded here; filling it in the tag blocks is modelled apart.
pub mod Pages
pub mod Copy
pub mod Tag
pub mod Whole
use oxbow.Prelude.{
  ℕ, zero, suc, ◌*◌, ◌%◌, Bool, true, false, Option, none, some, List, [], ◌∷◌, ◌++◌, ltb, leb,
  ◌==◌, if◌then◌else◌, u32, add64, sub64, add32, sub32, update, not, ◌&&◌,
}
use mathlib.Core.Option.{bind}
use oxbow.TagBlocks.{Etag}
use oxbow.RangeDirty.{RangeDirty, Ird, ird_count}

-- BG_JOURNAL_COMMIT_SIZE / OXBOW_BLOCK_SIZE
abbrev pub commit_blocks : ℕ
commit_blocks = 8192

-- A message for the server, with the pages in the buffer when it is sent.
pub record FetchData : Type 0 where
  pub req_id : ℕ
  pub df_buf_id : ℕ
  pub size : ℕ
  pub pages : List ℕ

-- The fields of a transaction for its data. `tx->cur` stands behind the pages of the buffer.
pub record DataTx : Type 0 where
  pub buf : List ℕ
  pub df_buf_id : ℕ
  pub nr_blocks : ℕ
  pub used_blk_cnt : ℕ
  pub tot_nr_blocks : ℕ
  pub n_df_bufs : ℕ
  pub nr_sent_blks : ℕ
  pub requests : List FetchData

pub new_buffer : DataTx → ℕ → DataTx
new_buffer tx id = record tx {
  df_buf_id = id;
  buf = [];
  n_df_bufs = add32 tx.n_df_bufs 1;
  nr_blocks = commit_blocks;
  tot_nr_blocks = add32 tx.tot_nr_blocks commit_blocks;
}

-- None when there is no buffer: the source goes on and writes through a null pointer.
pub with_buffer : DataTx → Option ℕ → Option DataTx
with_buffer tx none = none
with_buffer tx (some id) = some (new_buffer tx id)

pub tx_alloc_buffer : (ℕ → Option ℕ) → DataTx → Option DataTx
tx_alloc_buffer alloc tx = with_buffer tx (alloc tx.n_df_bufs)

pub send_fetch : DataTx → ℕ → DataTx
send_fetch tx n = record tx {
  requests =
      tx.requests
      ++ (record {
        req_id = sub32 tx.n_df_bufs 1;
        df_buf_id = tx.df_buf_id;
        size = n * 4096;
        pages = tx.buf;
      }
          ∷ []);
  nr_sent_blks = add64 tx.nr_sent_blks n;
}

-- None is -1, for a buffer without pages.
pub request_data_fetch : DataTx → Option DataTx
request_data_fetch tx =
    let n = sub64 tx.used_blk_cnt tx.nr_sent_blks % u32 in
    if n == 0 then none else some (send_fetch tx n)

-- The pages of a file, and which of them are locked.
pub record Copying : Type 0 where
  pub tx : DataTx
  pub locked : ℕ → Bool

pub with_tx : (ℕ → Bool) → Option DataTx → Option Copying
with_tx locked none = none
with_tx locked (some tx) = some (record { tx = tx; locked = locked })

pub put_page : (ℕ → ℕ) → DataTx → ℕ → DataTx
put_page data_at tx p = record tx {
  buf = tx.buf ++ (data_at p ∷ []);
  used_blk_cnt = add32 tx.used_blk_cnt 1;
  nr_blocks = sub32 tx.nr_blocks 1;
}

pub copy_page : (ℕ → Option ℕ) → (ℕ → ℕ) → Copying → ℕ → Option Copying
copy_page alloc data_at c p =
    let tx = put_page data_at c.tx p in
    with_tx (update c.locked p false)
      (if tx.nr_blocks == 0 then bind (request_data_fetch tx) (tx_alloc_buffer alloc) else some tx)

pub copy_data_blks : (ℕ → Option ℕ) → (ℕ → ℕ) → ℕ → Copying → ℕ → Option Copying
copy_data_blks alloc data_at zero c start = some c
copy_data_blks alloc data_at (suc cnt) c start =
    bind (copy_page alloc data_at c start)
      (λ c'. copy_data_blks alloc data_at cnt c' (add64 start 1))

pub copy_rest : (ℕ → Option ℕ) → (ℕ → ℕ) → ℕ → ℕ → ℕ → Copying → Option Copying
copy_rest alloc data_at start cnt tmp c =
    if ltb tmp cnt
    then copy_data_blks alloc data_at (sub64 cnt tmp % u32) c (add64 start tmp)
    else some c

-- A range that is longer than the rest of the buffer, on fuel.
pub copy_split : ℕ → (ℕ → Option ℕ) → (ℕ → ℕ) → ℕ → ℕ → ℕ → Copying → Option Copying
copy_split zero alloc data_at start cnt tmp c = none
copy_split (suc fuel) alloc data_at start cnt tmp c =
    let tmp' = add64 tmp c.tx.nr_blocks in
    bind (copy_data_blks alloc data_at c.tx.nr_blocks c (add64 start tmp)) (λ c'.
      let again = copy_split fuel alloc data_at start cnt tmp' c' in
      if ltb c'.tx.nr_blocks (sub64 cnt tmp')
      then again
      else copy_rest alloc data_at start cnt tmp' c')

pub copy_range : (ℕ → Option ℕ) → (ℕ → ℕ) → ℕ → ℕ → Copying → Option Copying
copy_range alloc data_at start cnt c =
    let split = copy_split cnt alloc data_at start cnt 0 c in
    if ltb c.tx.nr_blocks cnt then split else copy_rest alloc data_at start cnt 0 c

-- oxbow/secure_daemon/include/fs/fs.h.
pub record BufferExtent : Type 0 where
  pub iblock : ℕ
  pub nr : ℕ
  pub lba : ℕ

-- The calls of fill_tagblk, and whether get_blocks has always answered.
pub record Tagged : Type 0 where
  pub tags : List Etag
  pub ok : Bool

pub tags_before : List Etag → Option Tagged → Option Tagged
tags_before es none = none
tags_before es (some t) = some (record { tags = es ++ t.tags; ok = t.ok })

-- What is tagged in an extent, and what is left of the range.
pub record Found : Type 0 where
  pub tags : List Etag
  pub start : ℕ
  pub cnt : ℕ

pub tag_of : BufferExtent → ℕ → ℕ → Etag
tag_of be start cnt = record { start = sub64 (add64 be.lba start) be.iblock; cnt = cnt % u32 }

pub find_tags : BufferExtent → ℕ → ℕ → Found
find_tags be start cnt =
    let end = add64 be.iblock be.nr in
    let left = sub64 end start in
    if leb (add64 start cnt) end
    then record { tags = tag_of be start cnt ∷ []; start = start; cnt = 0 }
    else if ltb start end
    then record { tags = tag_of be start left ∷ []; start = add64 start left; cnt = sub64 cnt left }
    else record { tags = []; start = start; cnt = cnt }

pub at_extent : Option BufferExtent → (BufferExtent → Option Tagged) → Option Tagged
at_extent none go_on = some (record { tags = []; ok = false })
at_extent (some be) go_on = go_on be

-- From a call of get_blocks on, with fuel.
pub tag_blocks : ℕ → (ℕ → Option BufferExtent) → ℕ → ℕ → Option Tagged
tag_blocks zero get_blocks start cnt = none
tag_blocks (suc fuel) get_blocks start cnt = at_extent (get_blocks start) (λ be.
    let f = find_tags be start cnt in
    let rest = tag_blocks fuel get_blocks f.start f.cnt in
    if f.cnt == 0
    then some (record { tags = f.tags; ok = true })
    else if leb 9223372036854775808 f.cnt
    then none
    else tags_before f.tags rest)

-- The loop over the ranges: the pages and the tags so far.
pub record FileTx : Type 0 where
  pub copying : Copying
  pub tags : List Etag
  pub ok : Bool

pub add_tags : List Etag → Copying → Option Tagged → Option FileTx
add_tags es c none = none
add_tags es c (some t) = some (record { copying = c; tags = es ++ t.tags; ok = t.ok })

-- Whether there is a next node, with ranges.
pub has_ranges : List Ird → Bool
has_ranges [] = false
has_ranges (ird ∷ l) = not (ird_count ird == 0)

module _ (alloc : ℕ → Option ℕ) (data_at : ℕ → ℕ) (get_blocks : ℕ → Option BufferExtent) where
  pub journal_range : FileTx → RangeDirty → Option FileTx
  journal_range s rd =
      let go_on =
        bind (copy_range alloc data_at rd.start rd.nr s.copying)
          (λ c. add_tags s.tags c (tag_blocks rd.nr get_blocks rd.start rd.nr)) in
      if rd.nr == 0 then some s else go_on

  abbrev pub cleared : RangeDirty → RangeDirty
  cleared rd = if rd.nr == 0 then rd else record { start = 0; nr = 0 }

  -- The ranges of a node behind the loop: none when all are done, or with those that are done cleared.
  pub journal_ranges : FileTx → List RangeDirty → Option (FileTx × List RangeDirty)
  journal_ranges s [] = some (s, [])
  journal_ranges s (rd ∷ rds) = bind (journal_range s rd) (λ s'.
      if s'.ok
      then bind (journal_ranges s' rds) (λ r. some (r.0, if r.0.ok then [] else cleared rd ∷ r.1))
      else some (s', rd ∷ rds))

  pub journal_nodes : FileTx → List Ird → Option (FileTx × List Ird)
  journal_nodes s [] = some (s, [])
  journal_nodes s (ird ∷ l) = bind (journal_ranges s ird.dirty_pages) (λ r.
      let node = record ird { dirty_pages = r.1 } in
      if r.0.ok && has_ranges l
      then bind (journal_nodes r.0 l) (λ q. some (q.0, node ∷ q.1))
      else some (r.0, node ∷ l))

  -- With the list of the file's dirty ranges.
  pub journal_file_data : DataTx → (ℕ → Bool) → List Ird → Option (FileTx × List Ird)
  journal_file_data tx locked irds =
      journal_nodes (record { copying = record { tx = tx; locked = locked }; tags = []; ok = true })
        irds
