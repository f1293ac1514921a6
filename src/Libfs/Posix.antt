-- ===== src/Libfs/Posix.antt =====
-- The calls of the application: oxbow/libfs/src/posix/posix_interface.c, and the table of open files of
-- oxbow/libfs/src/filesystem/file.c. Several descriptors may share an inode. `errno` is not modelled.
pub mod Equivalence
pub mod Shared
use oxbow.Prelude.{
  ℕ, Bool, false, Option, none, some, List, ltb, ◌==◌, if◌then◌else◌, update, add64, sub32,
}
use mathlib.Core.Option.{bind}
use oxbow.ShmLayout.{pos, negsuc, ℤ}
use oxbow.Libfs.{Answers, Request, LfsInode, LfsFile, Process}
use oxbow.DirtyMgmt.{Counters}
use oxbow.Libfs.ReadWrite.{minus_one, libfs_read, libfs_write}

-- An entry of the table: the descriptor, 0 when it is not in use, the number of its inode, the reference
-- counter and the rest of the structure.
pub record OpenFile : Type 0 where
  pub fd : ℕ
  pub f_inode : ℕ
  pub ref_cnt : ℕ
  pub structure : LfsFile

-- `g_fd_table`, the inodes by number, and what else a call of the library works on.
pub record FdTable : Type 0 where
  pub open_files : ℕ → OpenFile
  pub inodes : ℕ → LfsInode
  pub memory : ℕ → ℕ
  pub dirty_counters : Counters
  pub sent : List Request

abbrev pub oxbow_max_open_file : ℕ
oxbow_max_open_file = 16384

-- None is NULL.
unfoldable pub get_lfs_file : ℤ → FdTable → Option ℕ
get_lfs_file (negsuc k) tab = none
get_lfs_file (pos i) tab =
    if ltb oxbow_max_open_file i then none else if (tab.open_files i).fd == 0 then none else some i

pub on_file : ℕ → (OpenFile → OpenFile) → FdTable → FdTable
on_file i f tab = record tab { open_files = update tab.open_files i (f (tab.open_files i)) }

abbrev pub put_lfs_file : OpenFile → OpenFile
put_lfs_file f = record f { ref_cnt = sub32 f.ref_cnt 1 }

abbrev pub set_pos : ℕ → OpenFile → OpenFile
set_pos p f = record f { structure = record f.structure { f_pos = p } }

-- What a call on a file works on, and its return to the table.
unfoldable pub process_of : FdTable → ℕ → Process
process_of tab i = record {
  file = (tab.open_files i).structure;
  inode = tab.inodes ((tab.open_files i).f_inode);
  mem = tab.memory;
  counters = tab.dirty_counters;
  requests = tab.sent;
}

pub put_back : ℕ → Process → FdTable → FdTable
put_back i w tab = record {
  open_files = update tab.open_files i (record (tab.open_files i) { structure = w.file });
  inodes = update tab.inodes ((tab.open_files i).f_inode) w.inode;
  memory = w.mem;
  dirty_counters = w.counters;
  sent = w.requests;
}

pub is_above_zero : ℤ → Bool
is_above_zero (pos n) = ltb 0 n
is_above_zero (negsuc n) = false

-- A negative result is returned as -1.
pub returned : ℤ → ℤ
returned (pos n) = pos n
returned (negsuc n) = minus_one

-- Behind `libfs_read` in `libfs_posix_read`, and in `libfs_posix_pread64`.
pub end_read : ℕ → FdTable → ℤ × ℕ × Process → ℤ × FdTable
end_read i tab (ret, p, w) = (
  returned ret,
  on_file i put_lfs_file
      (if is_above_zero ret then on_file i (set_pos p) (put_back i w tab) else put_back i w tab),
)

pub end_pread : ℕ → FdTable → ℤ × ℕ × Process → ℤ × FdTable
end_pread i tab (ret, p, w) = (returned ret, on_file i put_lfs_file (put_back i w tab))

pub read_file : Answers → ℕ → ℕ → FdTable → Option ℕ → Option (ℤ × FdTable)
read_file os buf count tab none = some (minus_one, tab)
read_file os buf count tab (some i) =
    bind (libfs_read os (process_of tab i) buf count (tab.open_files i).structure.f_pos)
      (λ r. some (end_read i tab r))

pub libfs_posix_read : Answers → FdTable → ℤ → ℕ → ℕ → Option (ℤ × FdTable)
libfs_posix_read os tab d buf count = read_file os buf count tab (get_lfs_file d tab)

pub pread_file : Answers → ℕ → ℕ → ℕ → FdTable → Option ℕ → Option (ℤ × FdTable)
pread_file os buf count start tab none = some (minus_one, tab)
pread_file os buf count start tab (some i) =
    bind (libfs_read os (process_of tab i) buf count start) (λ r. some (end_pread i tab r))

pub libfs_posix_pread64 : Answers → FdTable → ℤ → ℕ → ℕ → ℕ → Option (ℤ × FdTable)
libfs_posix_pread64 os tab d buf count start =
    pread_file os buf count start tab (get_lfs_file d tab)

module _ (max_file_size : ℕ) where
  abbrev pub minus_enoent : ℤ
  minus_enoent = negsuc 1

  -- The reference counter stays here.
  pub end_write : ℕ → FdTable → ℤ × ℕ × Process → ℤ × FdTable
  end_write i tab (ret, p, w) = (
    returned ret,
    if is_above_zero ret then on_file i (set_pos p) (put_back i w tab) else put_back i w tab,
  )

  pub write_file : Answers → Bool → ℕ → ℕ → FdTable → Option ℕ → Option (ℤ × FdTable)
  write_file os garbage buf count tab none = some (minus_enoent, tab)
  write_file os garbage buf count tab (some i) =
      let start = (tab.open_files i).structure.f_pos in
      if ltb max_file_size (add64 start count)
      then some (minus_one, tab)
      else bind (libfs_write max_file_size os garbage (process_of tab i) buf count start)
          (λ r. some (end_write i tab r))

  pub libfs_posix_write : Answers → Bool → FdTable → ℤ → ℕ → ℕ → Option (ℤ × FdTable)
  libfs_posix_write os garbage tab d buf count =
      write_file os garbage buf count tab (get_lfs_file d tab)

  pub pwrite_file : Answers → Bool → ℕ → ℕ → ℕ → FdTable → Option ℕ → Option (ℤ × FdTable)
  pwrite_file os garbage buf count start tab none = some (minus_enoent, tab)
  pwrite_file os garbage buf count start tab (some i) =
      if ltb max_file_size (add64 start count)
      then some (minus_one, tab)
      else bind (libfs_write max_file_size os garbage (process_of tab i) buf count start)
          (λ r. some (end_pread i tab r))

  pub libfs_posix_pwrite64 : Answers → Bool → FdTable → ℤ → ℕ → ℕ → ℕ → Option (ℤ × FdTable)
  libfs_posix_pwrite64 os garbage tab d buf count start =
      pwrite_file os garbage buf count start tab (get_lfs_file d tab)
