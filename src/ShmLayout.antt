-- ===== src/ShmLayout.antt =====
-- The shared memory of a file: oxbow/devfs/src/common/shm.c and the constants of
-- oxbow/devfs/include/common/shm.h. Behind the header page come the pages that say which page entry
-- blocks exist, the dirty group pages and the page entry blocks, each with four bits for 8192 pages.
-- `max_file_size` is OXBOW_MAX_FILE_SIZE, a constant of the build. A bitmap page is a function from bit
-- numbers. `locks` is whether `mlock` succeeds.
pub mod Bits
pub mod AllocCheck
use oxbow.Prelude.{
  ℕ, ◌+◌, ◌-◌, ◌*◌, ◌/◌, ◌%◌, Bool, true, false, ◌&&◌, ltb, leb, if◌then◌else◌, update, u32, mul64,
}

-- The values of an `int` or `loff_t`.
pub data ℤ : Type 0 where
  pos negsuc : ℕ → ℤ

-- `DIRTYBIT`, `LOCKBIT`, `UPTODATEBIT` and `SKIPREAD_BIT`
pub data BitType : Type 0 where
  dirtybit lockbit uptodatebit skipread_bit : BitType

abbrev pub page_size : ℕ
page_size = 4096

abbrev pub bits_in_page : ℕ
bits_in_page = 32768

abbrev pub pages_in_peb : ℕ
pages_in_peb = 8192

abbrev pub bytes_per_state : ℕ
bytes_per_state = 1024

-- `PEB_COVERAGE`, 32 MB
abbrev pub peb_coverage : ℕ
peb_coverage = 33554432

-- `PDB_ALLOC_CHECK_COVERAGE` and `PDB_DIRTY_GROUP_COVERAGE`, 1 TB
abbrev pub pdb_coverage : ℕ
pdb_coverage = 1099511627776

abbrev pub pdb_alloc_check_nr : ℕ → ℕ
pdb_alloc_check_nr max_file_size = (max_file_size - 1) / pdb_coverage + 1

abbrev pub pdb_dirty_group_nr : ℕ → ℕ
pdb_dirty_group_nr max_file_size = (max_file_size - 1) / pdb_coverage + 1

abbrev pub peb_nr : ℕ → ℕ
peb_nr max_file_size = (max_file_size - 1) / peb_coverage + 1

abbrev pub shm_size : ℕ → ℕ
shm_size max_file_size =
    (1 + pdb_alloc_check_nr max_file_size + pdb_dirty_group_nr max_file_size + peb_nr max_file_size)
    * page_size

abbrev pub in_page : ℤ → Bool
in_page (pos p) = ltb p bits_in_page
in_page (negsuc p) = false

-- The number of the bit at `page[p / 8]`, bit `p % 8`, is `p`.
pub shm_page_set_bit : (ℕ → Bool) → ℤ → ℕ → Bool
shm_page_set_bit page (pos p) = if in_page (pos p) then update page p true else page
shm_page_set_bit page (negsuc p) = page

pub shm_page_unset_bit : (ℕ → Bool) → ℤ → ℕ → Bool
shm_page_unset_bit page (pos p) = if in_page (pos p) then update page p false else page
shm_page_unset_bit page (negsuc p) = page

unfoldable pub shm_page_check_bit : (ℕ → Bool) → ℤ → Bool
shm_page_check_bit page (pos p) = if in_page (pos p) then page p else false
shm_page_check_bit page (negsuc p) = false

abbrev pub start_index : BitType → ℕ
start_index dirtybit = 0
start_index lockbit = bytes_per_state * 1
start_index uptodatebit = bytes_per_state * 2
start_index skipread_bit = bytes_per_state * 3

-- The page entry block of a page.
abbrev pub bmap_idx_of : ℕ → ℕ
bmap_idx_of pg_idx = mul64 pg_idx page_size / peb_coverage

-- The byte's offset from the start of the shared memory.
pub get_page_bits : ℕ → ℕ → BitType → ℕ
get_page_bits max_file_size pg_idx bit_type =
    (pdb_dirty_group_nr max_file_size + pdb_alloc_check_nr max_file_size + 1 + bmap_idx_of pg_idx)
      * page_size
    + (pg_idx % pages_in_peb / 8 + start_index bit_type)

-- A byte of the bitmap with the bit of the page cleared; its other bits stay.
unfoldable pub unlock_page_bit : (ℕ → Bool) → ℕ → ℕ → Bool
unlock_page_bit byte pg_idx = update byte (pg_idx % 8) false

-- The shared state of a file: the header, whose state flags and lock are Booleans, the page behind it and
-- the dirty group page, by bits, and the bytes of the shared memory, each by bits.
pub record ShmFile : Type 0 where
  pub i_size : ℕ
  pub use_journal : Bool
  pub running_tx : Bool
  pub running_tx_requested : Bool
  pub i_deleted : Bool
  pub data_dirty : Bool
  pub i_rwlock : Bool
  pub daemon_inode_va : ℕ
  pub alloc_check : ℕ → Bool
  pub dirty_group : ℕ → Bool
  pub bytes : ℕ → ℕ → Bool

pub memset_page : (ℕ → ℕ → Bool) → ℕ → ℕ → ℕ → Bool
memset_page bytes at i bit = if leb at i && ltb i (at + page_size) then false else bytes i bit

-- The result is 0 or -1. The argument of the bit functions is an `int`: bit 31 of the position would be
-- its sign, and the bits above are cut off.
unfoldable pub to_int : ℕ → ℤ
to_int n = let m = n % u32 in if ltb m 2147483648 then pos m else negsuc (4294967295 - m)

unfoldable pub shm_alloc_check : Bool → ShmFile → ℕ → Bool × ShmFile
unfolding to_int shm_page_set_bit shm_page_check_bit memset_page
shm_alloc_check locks header pg_idx =
    let alc_bmap_pos = bmap_idx_of pg_idx in
    let at = page_size + (alc_bmap_pos + 2) * page_size in
    if shm_page_check_bit header.alloc_check (to_int alc_bmap_pos) then (true, header) else (
      locks,
      record header {
        alloc_check = shm_page_set_bit header.alloc_check (to_int alc_bmap_pos);
        bytes = memset_page header.bytes at;
      },
    )
