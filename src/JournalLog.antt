-- ===== src/JournalLog.antt =====
-- The circular journal log of oxbow/devfs/src/journal.c: `struct journal_log`, the functions that
-- move its pointers, and the split of the log area between the two data fetchers.
-- Spin locks are not modelled: each function runs under `j_log->lock`, so one call is one step.
-- A failed `oxbow_assert` aborts the server; it is `none` here.
pub mod Window
pub mod Advance
pub mod Alloc
pub mod Refine
pub mod Bios
use oxbow.Prelude.{
  ℕ, ◌/◌, ◌%◌, Bool, ◌&&◌, Option, none, some, ltb, leb, ◌==◌, if◌then◌else◌, u32, add64, sub64,
  mul64,
}

pub record JournalLog : Type 0 where
  pub df_id : ℕ
  pub first : ℕ
  pub last : ℕ
  pub head : ℕ
  pub tail : ℕ
  pub n_free_blks : ℕ

abbrev pub block_size : ℕ
block_size = 4096

-- `DATA_FETCHER_BUF_SIZE >> OXBOW_BLOCK_SIZE_SHIFT`
abbrev pub blks_per_chunk : ℕ
blks_per_chunk = 8192

abbrev pub nblks_to_bytes : ℕ → ℕ
nblks_to_bytes n_blks = mul64 n_blks block_size

-- The assertion on the remainder is the caller's `none`.
abbrev pub bytes_to_nblks : ℕ → ℕ
bytes_to_nblks size = size / block_size % u32

abbrev pub is_block_aligned : ℕ → Bool
is_block_aligned size = size % block_size == 0

unfoldable pub check_wrap_around : ℕ → ℕ → ℕ → Bool
check_wrap_around start n_blks last = ltb last (sub64 (add64 start n_blks) 1)

pub check_wrap_around_journal_tx : ℕ → ℕ → JournalLog → Bool
unfolding check_wrap_around
check_wrap_around_journal_tx start n_blks j = check_wrap_around start n_blks j.last

pub journal_free_percent : JournalLog → ℕ
journal_free_percent j = mul64 j.n_free_blks 100 / add64 (sub64 j.last j.first) 1

-- The update of `head`, and of `tail`, by `n` blocks.
pub advance : ℕ → ℕ → ℕ → ℕ → ℕ
advance first last p n =
    if ltb last (add64 p n) then add64 first (sub64 n (add64 (sub64 last p) 1)) else add64 p n

-- The counter of free blocks is read into a `uint32_t`. Without space the server asserts.
pub alloc_journal_space : JournalLog → ℕ → Option (ℕ × JournalLog)
unfolding advance
alloc_journal_space j size =
    let n_blk_req = bytes_to_nblks size in
    if is_block_aligned size && leb n_blk_req (j.n_free_blks % u32)
    then some (
      j.head,
      record j {
        head = advance j.first j.last j.head n_blk_req;
        n_free_blks = sub64 j.n_free_blks n_blk_req;
      },
    )
    else none

pub update_log_state : JournalLog → ℕ → JournalLog
unfolding advance
update_log_state j n_blk_added = record j {
  head = advance j.first j.last j.head n_blk_added;
  n_free_blks = sub64 j.n_free_blks n_blk_added;
}

-- `req_id * n_blks_per_chunk` is a 64-bit product.
pub get_chunck_start : JournalLog → ℕ → ℕ
get_chunck_start j req_id =
    if req_id == 0 then j.head else add64 (add64 j.head (mul64 req_id blks_per_chunk)) 1

-- What `sync_journal_sb` would write to disk is the new tail, returned beside the log.
pub free_journal_space : JournalLog → ℕ → ℕ → Bool → Option (Option ℕ × JournalLog)
unfolding advance
free_journal_space j start_baddr size sync =
    let n_blk_req = bytes_to_nblks size in
    let tail' = advance j.first j.last j.tail n_blk_req in
    if is_block_aligned size && start_baddr == j.tail
    then some (
      if sync then some tail' else none,
      record j { tail = tail'; n_free_blks = add64 j.n_free_blks n_blk_req },
    )
    else none

abbrev pub empty_log : ℕ → ℕ → ℕ → JournalLog
empty_log df_id first last = record {
  df_id = df_id;
  first = first;
  last = last;
  head = first;
  tail = first;
  n_free_blks = add64 (sub64 last first) 1;
}

-- The log area of `maxlen` blocks from `first` on, halved.
pub split_log : ℕ → ℕ → JournalLog × JournalLog
split_log first maxlen =
    let half = maxlen / 2 in
    let last1 = sub64 (add64 first half) 1 in
    let first2 = add64 last1 1 in
    (empty_log 0 first last1, empty_log 1 first2 (sub64 (add64 first2 half) 1))
