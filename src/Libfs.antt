-- ===== src/Libfs.antt =====
-- An open file in the library that runs in the application's process: oxbow/libfs/src/filesystem/file.c,
-- inode.c and journal.c, and the structures of oxbow/libfs/include/fs.h. One call runs at a time in the
-- process; what the kernel and the daemon answer is a record of the caller. A call that waits for ever or
-- dereferences a null pointer has no result. `max_file_size` is OXBOW_MAX_FILE_SIZE.
pub mod PageBits
pub mod ReadWrite
pub mod Posix
use oxbow.Prelude.{
  ℕ, ◌≡◌, ap, ◌∙◌, Bool, true, false, ◌&&◌, ◌||◌, not, Option, none, some, List, [], ◌∷◌, ◌++◌,
  ◌==◌, if◌then◌else◌,
}
use mathlib.Core.Option.{bind}
use oxbow.ShmLayout.{ShmFile, ℤ, negsuc}
use oxbow.DirtyMgmt.{Counters, clear_process_dirty_counter}

-- What `SYS_mmap` returns: an address, ENODEV or another error.
pub data Mapping : Type 0 where
  mapped_at : ℕ → Mapping
  enodev : Mapping
  refused_map : Mapping

-- The answers from outside: of the map of daemon keys at each look, whether it has a key of the file;
-- whether `shm_open` succeeds and what the shared memory is that `mmap` maps; whether `mlock` succeeds;
-- and the running and deleted flags of the file at each look while a journal handle ends.
pub record Answers : Type 0 where
  pub file_map : Mapping
  pub keys : List Bool
  pub shm_opens : Bool
  pub shm_map : Option ShmFile
  pub locks : Bool
  pub tx_states : List (Bool × Bool)

-- A request to the daemon about the inode at an address of the daemon.
pub data Request : Type 0 where
  add_journal : ℕ → Request
  fsync : ℕ → Request
  fallocate : ℕ → Request
  ftruncate : ℕ → Request

-- `struct lfs_inode`. An address of 0 is NULL. The mapping at `data_at` can be read, and also written when it
-- is `writable`.
pub record LfsInode : Type 0 where
  pub data_at : ℕ
  pub writable : Bool
  pub is_dir : Bool
  pub li_free : Bool
  pub li_init : Bool
  pub li_open : Bool
  pub shm_header : Option ShmFile

-- `struct lfs_file`; `o_rdonly` says whether the access mode is O_RDONLY. `f_data` is 0 or the address of
-- the inode's mapping.
pub record LfsFile : Type 0 where
  pub o_rdonly : Bool
  pub o_directory : Bool
  pub f_pos : ℕ
  pub f_data : ℕ

-- A file, its inode, and of the process the memory, the dirty page counters and the requests it has sent.
pub record Process : Type 0 where
  pub file : LfsFile
  pub inode : LfsInode
  pub mem : ℕ → ℕ
  pub counters : Counters
  pub requests : List Request

-- The result is 0 or -1. A file that is open for reading only gets a mapping that can only be read, which
-- later calls on the inode use too.
pub file_do_mmap : Answers → Process → Bool × Process
file_do_mmap os w =
    if not (w.inode.data_at == 0)
    then (true, record w { file = record w.file { f_data = w.inode.data_at } })
    else if w.inode.is_dir
    then (true, w)
    else elim os.file_map [
      | mapped_at a ↦ (
        true,
        record w {
          file = record w.file { f_data = a };
          inode = record w.inode { data_at = a; writable = not w.file.o_rdonly };
        },
      )
      | enodev ↦ (
        false,
        record w {
          file = record w.file { o_directory = true };
          inode = record w.inode { is_dir = true };
        },
      )
      | refused_map ↦ (false, w)
    ]

-- The wait for the daemon's key.
pub wait_for_key : Answers → List Bool → Process → Option Process
wait_for_key os [] w = none
wait_for_key os (true ∷ keys) w = some w
wait_for_key os (false ∷ keys) w =
    wait_for_key os keys
      (if (w.file.f_data == 0) && not w.file.o_directory then (file_do_mmap os w).1 else w)

pub attach_shm : Answers → Process → Bool × Process
attach_shm os w = if not os.shm_opens then (false, w) else elim os.shm_map [
  | none ↦ (false, w)
  | some h ↦ if w.inode.li_open then (true, w) else (
    true,
    record w { inode = record w.inode { li_open = true; li_free = false; shm_header = some h } },
  )
]

pub init_shared_file_metadata : Answers → Process → Option (Bool × Process)
init_shared_file_metadata os w = bind (wait_for_key os os.keys w) (λ w'. some (attach_shm os w'))

-- The calls that first see to it that the shared memory is there.
pub header_or_init : Answers → Process → Option ShmFile → Option (Bool × Process)
header_or_init os w (some h) = some (true, w)
header_or_init os w none = init_shared_file_metadata os w

pub with_header : Answers → Process → Option Process
with_header os w = bind (header_or_init os w w.inode.shm_header) (λ r. some (r.1))

pub with_header-some :
    (os : Answers) (w : Process) (h : ShmFile)
    → w.inode.shm_header ≡ some h
    → with_header os w ≡ some w
unfolding with_header header_or_init bind
with_header-some os w h e = ap (λ o. bind (header_or_init os w o) (λ r. some (r.1))) e

pub get_oxbow_isize : Answers → Process → Option (ℕ × Process)
get_oxbow_isize os w =
    bind (with_header os w) (λ w'. bind w'.inode.shm_header (λ h. some (h.i_size, w')))

pub get_oxbow_isize-some :
    (os : Answers) (w : Process) (h : ShmFile)
    → w.inode.shm_header ≡ some h
    → get_oxbow_isize os w ≡ some (h.i_size, w)
unfolding get_oxbow_isize bind
get_oxbow_isize-some os w h e =
    ap (λ o. bind o (λ w'. bind w'.inode.shm_header (λ h. some (h.i_size, w'))))
      (with_header-some os w h e)
    ∙ ap (λ o. bind o (λ h. some (h.i_size, w))) e

pub put_header : Process → ShmFile → Process
put_header w h = record w { inode = record w.inode { shm_header = some h } }

pub set_oxbow_isize : Answers → Process → ℕ → Option Process
set_oxbow_isize os w size =
    bind (with_header os w)
      (λ w'. bind w'.inode.shm_header (λ h. some (put_header w' (record h { i_size = size }))))

-- Whether a handle is to be waited for, the shared state and the requests.
pub libfs_journal_start : ShmFile → List Request → Bool × ShmFile × List Request
libfs_journal_start h requests =
    if h.running_tx || h.running_tx_requested then (false, h, requests) else (
      true,
      record h { running_tx_requested = true },
      requests ++ add_journal h.daemon_inode_va ∷ [],
    )

pub libfs_journal_end : List (Bool × Bool) → ShmFile → Option ShmFile
libfs_journal_end [] h = none
libfs_journal_end ((running, deleted) ∷ states) h =
    let rest = libfs_journal_end states h in
    if running || deleted
    then some (record h { running_tx = running; i_deleted = deleted; running_tx_requested = false })
    else rest

-- EINVAL, and what the daemon answers to a request, is the result.
abbrev pub einval_code : ℤ
einval_code = negsuc 21

pub libfs_file_fsync : Answers → ℤ → Process → Option (ℤ × Process)
libfs_file_fsync os answer w = bind (header_or_init os w w.inode.shm_header) (λ r.
    if not (r.0)
    then some (einval_code, r.1)
    else bind (r.1).inode.shm_header (λ h. some (
      answer,
      record (r.1) {
        counters = clear_process_dirty_counter (r.1).counters;
        requests = (r.1).requests ++ fsync h.daemon_inode_va ∷ [];
      },
    )))

pub libfs_file_fallocate : ℤ → Process → Option (ℤ × Process)
libfs_file_fallocate answer w =
    if w.file.o_directory
    then some (einval_code, w)
    else bind w.inode.shm_header
        (λ h. some (answer, record w { requests = w.requests ++ fallocate h.daemon_inode_va ∷ [] }))

pub libfs_file_ftruncate : ℤ → Process → Option (ℤ × Process)
libfs_file_ftruncate answer w =
    if w.file.o_directory
    then some (einval_code, w)
    else bind w.inode.shm_header
        (λ h. some (answer, record w { requests = w.requests ++ ftruncate h.daemon_inode_va ∷ [] }))
