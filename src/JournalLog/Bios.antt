-- ===== src/JournalLog/Bios.antt =====
-- Block requests for a range of the log: `add_bio_to_bl` and its callers in
-- oxbow/devfs/src/journal.c, and the parts of oxbow/devfs/include/common/bio.h that they use.
-- A buffer pointer is its byte offset. A bio list is a list, oldest first.
pub mod Spans
pub mod RingSpan
pub mod Wrap
pub mod Separate
use oxbow.Prelude.{
  Bool, true, false, ℕ, zero, suc, ◌+◌, ◌-◌, ◌%◌, min, Option, none, some, List, [], ◌∷◌, ◌++◌, ltb,
  if◌then◌else◌, u32, add64, sub64, sub32,
}
use oxbow.JournalLog.{
  JournalLog, is_block_aligned, nblks_to_bytes, bytes_to_nblks, check_wrap_around_journal_tx,
}

-- `struct bio` with the one `bio_vec` that every caller here asks for.
pub record Bio : Type 0 where
  pub bi_blk_no : ℕ
  pub bv_buf : ℕ
  pub bv_len : ℕ

unfoldable pub is_empty : List Bio → Bool
is_empty [] = true
is_empty (b ∷ bl) = false

-- `BIO_MAX_BIO_SIZE`, 32 MB
abbrev pub bio_max_bio_size : ℕ
bio_max_bio_size = 33554432

-- `alloc_bio_n_bvecs(blk_no, 1)`, then `set_bvec(bio, 0, buf, n_blks)`
pub bio_of : ℕ → ℕ → ℕ → Bio
bio_of blk_no buf n_blks = record {
  bi_blk_no = blk_no;
  bv_buf = buf;
  bv_len = nblks_to_bytes n_blks;
}

-- The loop of `add_bio_to_bl`; `Spans` shows that the fuel is enough.
pub add_bio_loop : ℕ → List Bio → ℕ → ℕ → ℕ → ℕ → List Bio
unfolding bio_of
add_bio_loop zero bl buf_p cur_start size_copied size_total = bl
add_bio_loop (suc fuel) bl buf_p cur_start size_copied size_total =
    let size_to_copy = min (size_total - size_copied) bio_max_bio_size in
    let n_blks_to_copy = bytes_to_nblks size_to_copy in
    let rest =
      add_bio_loop fuel (bl ++ (bio_of cur_start buf_p n_blks_to_copy ∷ [])) (buf_p + size_to_copy)
        (add64 cur_start n_blks_to_copy) (size_copied + bio_max_bio_size) size_total in
    if ltb size_copied size_total then rest else bl

pub add_bio_to_bl : List Bio → ℕ → ℕ → ℕ → List Bio
unfolding add_bio_loop
add_bio_to_bl bl buf start n_blks = add_bio_loop (n_blks + 1) bl buf start 0 (nblks_to_bytes n_blks)

-- The list and the address behind the last block, for whole blocks. `n_blks1` and `n_blks2` are 32-bit.
pub bios_considering_wrap : JournalLog → List Bio → ℕ → ℕ → ℕ → List Bio × ℕ
unfolding check_wrap_around_journal_tx
bios_considering_wrap j bl start_baddr buf size =
    let n_blks_total = bytes_to_nblks size in
    let n_blks1 = add64 (sub64 j.last start_baddr) 1 % u32 in
    let n_blks2 = sub32 n_blks_total n_blks1 in
    let buf2 = buf + nblks_to_bytes n_blks1 in
    if check_wrap_around_journal_tx start_baddr n_blks_total j
    then (
      add_bio_to_bl (add_bio_to_bl bl buf start_baddr n_blks1) buf2 j.first n_blks2,
      add64 j.first n_blks2,
    )
    else (add_bio_to_bl bl buf start_baddr n_blks_total, add64 start_baddr n_blks_total)

-- For a size that is no multiple of the block size, the assertion of `bytes_to_nblks` fails.
unfoldable pub add_bios_considering_wrap : JournalLog → List Bio → ℕ → ℕ → ℕ → Option (List Bio × ℕ)
add_bios_considering_wrap j bl start_baddr buf size =
    if is_block_aligned size then some (bios_considering_wrap j bl start_baddr buf size) else none

-- The two lists, for whole blocks, and the second buffer, which is null where nothing wraps.
pub separate_bls : JournalLog → List Bio → List Bio → ℕ → ℕ → ℕ → List Bio × List Bio × Option ℕ
unfolding check_wrap_around_journal_tx
separate_bls j bl_first bl_second start_baddr buf size =
    let n_blks_total = bytes_to_nblks size in
    let n_blks1 = add64 (sub64 j.last start_baddr) 1 % u32 in
    let n_blks2 = sub32 n_blks_total n_blks1 in
    let buf2 = buf + nblks_to_bytes n_blks1 in
    if check_wrap_around_journal_tx start_baddr n_blks_total j
    then (
      add_bio_to_bl bl_first buf start_baddr n_blks1,
      add_bio_to_bl bl_second buf2 j.first n_blks2,
      some buf2,
    )
    else (add_bio_to_bl bl_first buf start_baddr n_blks_total, bl_second, none)

-- The assertion of `bytes_to_nblks` again.
unfoldable pub add_bios_considering_wrap_into_separate_bls :
    JournalLog → List Bio → List Bio → ℕ → ℕ → ℕ → Option (List Bio × List Bio × Option ℕ)
add_bios_considering_wrap_into_separate_bls j bl_first bl_second start_baddr buf size =
    if is_block_aligned size
    then some (separate_bls j bl_first bl_second start_baddr buf size)
    else none

pub wrapped_baddr : ℕ → ℕ → ℕ → ℕ
wrapped_baddr first last target = add64 first (sub64 (sub64 target last) 1)

pub add_bio_considering_wrap : JournalLog → List Bio → ℕ → ℕ → List Bio × ℕ
unfolding check_wrap_around_journal_tx wrapped_baddr bio_of
add_bio_considering_wrap j bl dst_baddr buf =
    let dst =
      if check_wrap_around_journal_tx dst_baddr 1 j
      then wrapped_baddr j.first j.last dst_baddr
      else dst_baddr in
    (bl ++ (bio_of dst buf 1 ∷ []), add64 dst 1)
