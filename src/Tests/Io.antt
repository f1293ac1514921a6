-- ===== src/Tests/Io.antt =====
-- A file of 100 bytes whose shared memory and mapping are there.
use oxbow.Prelude.{
  ℕ, ◌+◌, ◌-◌, ◌/◌, ◌%◌, ◌≤◌, ◌<◌, min, ◌≡◌, refl, ◌⊎◌, inl, true, false, none, some, [], ◌∷◌,
  arith, ◌==◌, if◌then◌else◌,
}
use mathlib.Core.Option.{bind}
use oxbow.ShmLayout.{pos, shm_page_check_bit, ShmFile, to_int, shm_alloc_check}
use oxbow.Libfs.{refused_map, Answers, Process}
use oxbow.Libfs.PageBits.{bit_of}
use oxbow.Libfs.ReadWrite.{
  page_count, minus_one, libfs_read, alloc_pages, libfs_write, dirty_groups,
}
use oxbow.Libfs.ReadWrite.Writes.{IsWriteOf}
use oxbow.Libfs.ReadWrite.Read.{libfs_read-reads}
use oxbow.Libfs.ReadWrite.Call.{libfs_write-IsWriteOf}
use oxbow.Libfs.ReadWrite.Groups.{dirty_groups-marks}
use oxbow.Libfs.Posix.{
  FdTable, get_lfs_file, process_of, libfs_posix_read, libfs_posix_pread64, libfs_posix_pwrite64,
}
use oxbow.Libfs.Posix.Shared.{libfs_posix_pread64-libfs_posix_pwrite64}
use oxbow.Libfs.Posix.Equivalence.{moved, libfs_posix_read-libfs_posix_pread64}

abbrev small_file : ShmFile
small_file = record {
  i_size = 100;
  use_journal = true;
  running_tx = false;
  running_tx_requested = false;
  i_deleted = false;
  data_dirty = false;
  i_rwlock = false;
  daemon_inode_va = 77;
  alloc_check = λ i. true;
  dirty_group = λ i. false;
  bytes = λ i b. false;
}

abbrev answers : Answers
answers = record {
  file_map = refused_map;
  keys = [];
  shm_opens = false;
  shm_map = none;
  locks = true;
  tx_states = (true, false) ∷ [];
}

abbrev opened : Process
opened = record {
  file = record { o_rdonly = false; o_directory = false; f_pos = 0; f_data = 1000000 };
  inode = record {
    data_at = 1000000;
    writable = true;
    is_dir = false;
    li_free = false;
    li_init = false;
    li_open = true;
    shm_header = some small_file;
  };
  mem = λ a. a % 251;
  counters = record {
    proc = record { count = 3; prev_count = 0 };
    global = record { count = 0; prev_count = 0 };
  };
  requests = [];
}

libfs_read-reads_example :
    (100 < 90 → libfs_read answers opened 500 20 90 ≡ some (minus_one, 90, opened))
    × (90 ≤ 100
        → let n = min 20 (100 - 90) in
          (mem' : ℕ → ℕ) × (libfs_read answers opened 500 20 90
            ≡ some (pos n, 90 + n, record opened { mem = mem' }))
          × ((i : ℕ) → i < n → mem' (500 + i) ≡ opened.mem (1000000 + 90 + i))
          × ((i : ℕ) → (i < 500) ⊎ (500 + n ≤ i) → mem' i ≡ opened.mem i))
libfs_read-reads_example =
    libfs_read-reads answers opened small_file 500 20 90 refl (omega arith) (omega arith)
      (omega arith) (omega arith) (omega arith)

libfs_write-IsWriteOf_example :
    (w' : Process) × (h' : ShmFile) × (libfs_write 1073741824 answers false opened 20000 5000 10
      ≡ some (pos 5000, 5010, w'))
    × IsWriteOf 1073741824 opened small_file 20000 5000 10 w' h'
unfolding alloc_pages page_count bit_of shm_alloc_check shm_page_check_bit to_int
libfs_write-IsWriteOf_example =
    libfs_write-IsWriteOf 1073741824 answers false opened small_file 20000 5000 10 false [] refl
      (omega arith) refl (omega arith) (omega arith) (omega arith) refl (λ q lo hi. refl) (inl refl)
      (λ e. refl) (omega arith) (omega arith)

-- Descriptors 3 and 4 are open on the same file.
abbrev two_fds : FdTable
two_fds = record {
  open_files = λ i. record {
    fd = if i == 3 then 3 else if i == 4 then 4 else 0;
    f_inode = 7;
    ref_cnt = 1;
    structure = record { o_rdonly = false; o_directory = false; f_pos = 90; f_data = 1000000 };
  };
  inodes = λ n. opened.inode;
  memory = opened.mem;
  dirty_counters = opened.counters;
  sent = [];
}

libfs_posix_pread64-libfs_posix_pwrite64_example :
    (tab' : FdTable) × (tab'' : FdTable) × (libfs_posix_pwrite64 1073741824 answers false two_fds
        (pos 3)
        20000
        5000
        10
      ≡ some (pos 5000, tab'))
    × (libfs_posix_pread64 answers tab' (pos 4) 90000 5000 10 ≡ some (pos 5000, tab''))
    × ((k : ℕ) → k < 5000 → tab''.memory (90000 + k) ≡ (20000 + k) % 251)
unfolding alloc_pages page_count bit_of shm_alloc_check shm_page_check_bit to_int get_lfs_file
    process_of
libfs_posix_pread64-libfs_posix_pwrite64_example =
    libfs_posix_pread64-libfs_posix_pwrite64 1073741824 answers false two_fds (pos 3) (pos 4) 3 4
      small_file 20000 90000 5000 10 false [] refl refl refl refl refl (omega arith) refl
      (omega arith) (omega arith) (omega arith) (omega arith) refl (λ q lo hi. refl) (inl refl)
      (λ e. refl) (omega arith) (omega arith) (omega arith) (omega arith)

libfs_posix_read-libfs_posix_pread64_example :
    ((i : ℕ)
      → get_lfs_file (pos 3) two_fds ≡ some i
      → libfs_posix_read answers two_fds (pos 3) 500 20
        ≡ bind
            (libfs_posix_pread64 answers two_fds (pos 3) 500 20 90)
            (λ r. some (r.0, moved i 90 r.0 r.1)))
    × (get_lfs_file (pos 3) two_fds ≡ none
        → (libfs_posix_read answers two_fds (pos 3) 500 20 ≡ some (minus_one, two_fds))
          × ((start : ℕ)
              → libfs_posix_pread64 answers two_fds (pos 3) 500 20 start
                ≡ some (minus_one, two_fds)))
libfs_posix_read-libfs_posix_pread64_example =
    libfs_posix_read-libfs_posix_pread64 answers two_fds (pos 3) 500 20

dirty_groups-marks_example :
    let h' = dirty_groups 33562624 8191 16384 small_file in
    (33562624 ≤ 33554432
      → 16384 ≤ 8191 + 8192
      → ((q : ℕ) → 8191 ≤ q → q ≤ 16384 → h'.dirty_group (q / 8192) ≡ true)
        × ((g : ℕ) → (g < 0) ⊎ (2 < g) → h'.dirty_group g ≡ false))
    × (33554432 < 33562624
        → ((q : ℕ) → 8191 ≤ q → q / 8192 < 2 → h'.dirty_group (q / 8192) ≡ true)
          × (0 ≤ 8191 → h'.dirty_group 2 ≡ false))
dirty_groups-marks_example =
    dirty_groups-marks 33562624 8191 16384 small_file (omega arith) (omega arith)
