-- ===== src/Libfs/ReadWrite.antt =====
-- Reads and writes of an open file: oxbow/libfs/src/filesystem/read_write.c. A position is a `loff_t` that
-- is not negative. `garbage` is what `journalled` holds before it is set.
pub mod Memory
pub mod Read
pub mod Page
pub mod Loop
pub mod Pages
pub mod Groups
pub mod Writes
pub mod Locked
pub mod Call
pub mod RoundTrip
use oxbow.Prelude.{
  ℕ, zero, suc, ◌+◌, ◌-◌, ◌/◌, ◌%◌, Bool, true, false, ◌&&◌, ◌||◌, not, Option, none, some, List,
  ltb, leb, ◌==◌, if◌then◌else◌, u32, u64, add64, sub64, mul64, sub32,
}
use mathlib.Core.Option.{bind}
use oxbow.ShmLayout.{
  page_size, pages_in_peb, peb_coverage, shm_page_set_bit, bmap_idx_of, ShmFile, to_int,
  shm_alloc_check, ℤ, pos, negsuc,
}
use oxbow.Libfs.{
  Process, file_do_mmap, with_header, get_oxbow_isize, put_header, libfs_journal_start,
  libfs_journal_end, Answers, Request,
}
use oxbow.DirtyMgmt.{Counters}
use oxbow.Libfs.PageBits.{
  lock_page_bit, unlock_page, dirty_page_bit, uptodate_page_bit, set_skipread_bit,
  clear_skipread_bit,
}

pub memcpy : (ℕ → ℕ) → ℕ → ℕ → ℕ → ℕ → ℕ
memcpy mem dst src n i = if leb dst i && ltb i (dst + n) then mem (src + (i - dst)) else mem i

-- The number of bytes of a page to copy, as a `size_t`.
pub bytes_to_copy : ℕ → ℕ → ℕ → ℕ
bytes_to_copy pg_idx cur_ofs bytes_remain =
    let ofs_in_page = sub64 cur_ofs (mul64 pg_idx page_size) in
    let left = sub64 page_size ofs_in_page in if ltb bytes_remain left then bytes_remain else left

-- From page `pg_idx` on, for so many pages: the memory, the offset in the file and in the buffer, and the
-- bytes that remain.
pub read_loop : ℕ → ℕ → ℕ → ℕ → (ℕ → ℕ) → ℕ → ℕ → ℕ → ℕ → ℕ
read_loop map_at buf pg_idx zero mem cur_ofs buf_ofs bytes_remain = mem
read_loop map_at buf pg_idx (suc n) mem cur_ofs buf_ofs bytes_remain =
    let len = bytes_to_copy pg_idx cur_ofs bytes_remain in
    read_loop map_at buf (pg_idx + 1) n (memcpy mem (buf + buf_ofs) (map_at + cur_ofs) len)
      (add64 cur_ofs len) (add64 buf_ofs len) (sub64 bytes_remain len)

-- The pages from the first to the last of the range.
unfoldable pub page_count : ℕ → ℕ → ℕ
page_count start count = (sub64 (add64 start count) 1) / page_size + 1 - start / page_size

abbrev pub minus_one : ℤ
minus_one = negsuc 0

-- The mapping of the file, made when it is not there yet.
pub with_data : Answers → Process → Bool × Process
with_data os w = if w.file.f_data == 0 then file_do_mmap os w else (true, w)

-- The conversion of a `size_t` to `ssize_t`.
pub to_ssize : ℕ → ℤ
to_ssize n = if ltb n 9223372036854775808 then pos n else negsuc (u64 - 1 - n)

-- Whether the loop over so many pages copies any of so many bytes.
pub copies_some : ℕ → ℕ → Bool
copies_some pages bytes_remain = not (pages == 0) && not (bytes_remain == 0)

-- Without a mapping, as for a directory, the copy dereferences a null pointer.
pub read_mapped : Process → ℕ → ℕ → ℕ → ℕ → Option (ℤ × ℕ × Process)
read_mapped w buf count start read_bytes =
    if w.file.f_data == 0 && copies_some (page_count start count) read_bytes
    then none
    else some (
      to_ssize read_bytes,
      add64 start read_bytes,
      record w {
        mem =
            read_loop w.file.f_data buf (start / page_size) (page_count start count) w.mem start 0
              read_bytes;
      },
    )

pub read_with : Process → ℕ → ℕ → ℕ → ℕ → Bool → Option (ℤ × ℕ × Process)
read_with w buf count start read_bytes true = read_mapped w buf count start read_bytes
read_with w buf count start read_bytes false = some (minus_one, start, w)

pub read_sized : Answers → ℕ → ℕ → ℕ → ℕ × Process → Option (ℤ × ℕ × Process)
read_sized os buf count start (size, w) =
    if ltb size start
    then some (minus_one, start, w)
    else (let read_bytes = if ltb size (add64 start count) then sub64 size start else count in
        let (ok, w') = with_data os w in read_with w' buf count start read_bytes ok)

-- The result, the position behind it and the process.
pub libfs_read : Answers → Process → ℕ → ℕ → ℕ → Option (ℤ × ℕ × Process)
libfs_read os w buf count start = bind (get_oxbow_isize os w) (read_sized os buf count start)

-- What the loop over the pages changes, and its variables.
pub record Copying : Type 0 where
  pub mem : ℕ → ℕ
  pub header : ShmFile
  pub counters : Counters
  pub cur_ofs : ℕ
  pub buf_ofs : ℕ
  pub bytes_remain : ℕ

unfoldable pub alloc_pages : Bool → ℕ → ℕ → ShmFile → ShmFile
alloc_pages locks pi zero h = h
alloc_pages locks pi (suc n) h = alloc_pages locks (pi + 1) n ((shm_alloc_check locks h pi).1)

pub dirty_page_group : ℕ → ShmFile → ShmFile
dirty_page_group pg_idx h = record h {
  dirty_group = shm_page_set_bit h.dirty_group (to_int (bmap_idx_of pg_idx));
}

-- The loop for more than 32 MB, on fuel: the next page group starts at `pi`.
pub dirty_groups_from : ℕ → ℕ → ℕ → ShmFile → ShmFile
dirty_groups_from zero pi last h = h
dirty_groups_from (suc fuel) pi last h =
    let rest =
      dirty_groups_from fuel (pi + peb_coverage / page_size) last (dirty_page_group pi h) in
    if ltb pi last then rest else h

pub dirty_groups : ℕ → ℕ → ℕ → ShmFile → ShmFile
dirty_groups count first last h =
    if ltb peb_coverage count
    then dirty_groups_from (last / pages_in_peb + 1) first last h
    else (let h' = dirty_page_group first h in
        if last == first then h' else dirty_page_group last h')

-- `bytes_to_copy` and `bytes_remain` are 32-bit numbers here.
pub bytes_to_copy32 : ℕ → ℕ → ℕ → ℕ
bytes_to_copy32 pi cur_ofs bytes_remain =
    let ofs_in_page = sub64 cur_ofs (mul64 pi page_size) in
    let left = sub64 page_size ofs_in_page % u32 in
    if ltb bytes_remain left then bytes_remain else left

-- The part of `libfs_write` under the lock of the inode, behind the loop over the pages.
pub sized : ℕ → ℕ → ShmFile → ShmFile
sized f_size end h = if ltb f_size end then record h { i_size = end } else h

pub finish_write : Answers → Process → Bool → ℕ → ℕ → ℕ → Copying → Option (ℤ × ℕ × Process)
finish_write os w journalled f_size count start c =
    let h4 = sized f_size (add64 start count) c.header in
    bind (if journalled then libfs_journal_end os.tx_states h4 else some h4) (λ h5. some (
      to_ssize count,
      add64 start count,
      record (put_header w (record h5 { i_rwlock = false })) { mem = c.mem; counters = c.counters },
    ))

-- A copy to a mapping that can only be read, or to none, faults.
pub cannot_write : Process → Bool
cannot_write w = not w.inode.writable || w.file.f_data == 0

module _ (max_file_size : ℕ) where
  -- Behind the end of the file, or for a full page, the daemon need not read the page.
  pub mark_skipread : ℕ → ℕ → ℕ → ShmFile → ShmFile
  mark_skipread f_size pi len h =
      let f_last_page = if f_size == 0 then 0 else (f_size - 1) / page_size in
      if ltb f_last_page pi || ((f_last_page == 0) && (f_size == 0))
      then set_skipread_bit max_file_size pi h
      else if len == page_size
      then set_skipread_bit max_file_size pi h
      else clear_skipread_bit max_file_size pi h

  pub write_locked_page : ℕ → ℕ → ℕ → ℕ → Copying → ShmFile → Copying
  write_locked_page map_at buf f_size pi c h =
      let len = bytes_to_copy32 pi c.cur_ofs c.bytes_remain in
      let (h', counters') =
        dirty_page_bit max_file_size pi
          (uptodate_page_bit max_file_size pi (mark_skipread f_size pi len h)) c.counters in
      record {
        mem = memcpy c.mem (map_at + c.cur_ofs) (buf + c.buf_ofs) len;
        header = unlock_page max_file_size pi h';
        counters = counters';
        cur_ofs = add64 c.cur_ofs len;
        buf_ofs = add64 c.buf_ofs len;
        bytes_remain = sub32 c.bytes_remain len;
      }

  pub write_page : ℕ → ℕ → ℕ → ℕ → Copying → Option Copying
  write_page map_at buf f_size pi c =
      bind (lock_page_bit max_file_size pi c.header)
        (λ h. some (write_locked_page map_at buf f_size pi c h))

  pub write_loop : ℕ → ℕ → ℕ → ℕ → ℕ → Copying → Option Copying
  write_loop map_at buf f_size pi zero c = some c
  write_loop map_at buf f_size pi (suc n) c =
      bind (write_page map_at buf f_size pi c) (write_loop map_at buf f_size (pi + 1) n)

  -- Behind the start of the journal handle, whose outcome is the triple.
  pub write_pages :
      Answers → Process → ℕ → ℕ → ℕ → Bool × ShmFile × List Request → Option (ℤ × ℕ × Process)
  write_pages os w buf count start (journalled, h2, requests) =
      let last = (sub64 (add64 start count) 1) / page_size in
      let c : Copying = record {
        mem = w.mem;
        header = dirty_groups count (start / page_size) last h2;
        counters = w.counters;
        cur_ofs = start;
        buf_ofs = 0;
        bytes_remain = count % u32;
      } in
      if cannot_write w && copies_some (page_count start count) (count % u32)
      then none
      else bind
          (write_loop w.file.f_data buf h2.i_size (start / page_size) (page_count start count) c)
          (finish_write os (record w { requests = requests }) journalled h2.i_size count start)

  pub write_locked :
      Answers → Bool → ShmFile → ℕ → ℕ → ℕ → Bool × Process → Option (ℤ × ℕ × Process)
  write_locked os garbage h buf count start (false, w) = some (minus_one, start, w)
  write_locked os garbage h buf count start (true, w) =
      if h.i_rwlock
      then none
      else (let h1 = record h { i_rwlock = true; data_dirty = true } in
          write_pages os w buf count start (
            if h1.use_journal
            then libfs_journal_start h1 w.requests
            else (garbage, h1, w.requests)))

  pub libfs_write : Answers → Bool → Process → ℕ → ℕ → ℕ → Option (ℤ × ℕ × Process)
  libfs_write os garbage w buf count start = bind (with_header os w) (λ w1.
      bind w1.inode.shm_header (λ h.
        let h' = alloc_pages os.locks (start / page_size) (page_count start count) h in
        write_locked os garbage h' buf count start (with_data os (put_header w1 h'))))
