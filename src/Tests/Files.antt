-- ===== src/Tests/Files.antt =====
-- The shared memory of a file of 1 GB, ranges read from a block, and a gathered block.
use oxbow.Prelude.{
  ℕ, ◌/◌, ◌%◌, ◌<◌, ◌≡◌, refl, ◌≢◌, true, false, some, List, [], ◌∷◌, ◌++◌, arith, ◌==◌, u32,
}
use oxbow.ShmLayout.{BitType, lockbit, get_page_bits, ShmFile, shm_alloc_check}
use oxbow.RangeDirty.{Ird, DirtyList}
use oxbow.Gather.Groups.{FileBits, inode_gather_dirty_pagebits}
use oxbow.Gather.Groups.Pages.{AreLists, journal_pages, waiting_pages}
use oxbow.RangeDirty.Chain.{blocks, IsChain}
use oxbow.RangeDirty.Add.{IsList}
use oxbow.RangeDirty.Frames.{Frame, total_entries}
use oxbow.ShmLayout.Bits.{get_page_bits-injective}
use oxbow.ShmLayout.AllocCheck.{shm_alloc_check-clears}
use oxbow.Gather.Groups.Whole.{inode_gather_dirty_pagebits-pages}
use oxbow.Gather.Groups.Gathered.{group_pages}

get_page_bits-injective_example : (◌≡◌ {A = ℕ} 9000 9000) × (lockbit ≡ lockbit)
get_page_bits-injective_example =
    get_page_bits-injective 1073741824 9000 9000 lockbit lockbit (omega arith) (omega arith) refl
      refl

abbrev fresh_file : ShmFile
fresh_file = record {
  i_size = 0;
  use_journal = false;
  running_tx = false;
  running_tx_requested = false;
  i_deleted = false;
  data_dirty = false;
  i_rwlock = false;
  daemon_inode_va = 77;
  alloc_check = λ i. false;
  dirty_group = λ i. false;
  bytes = λ i b. true;
}

shm_alloc_check-clears_example :
    let (ok, header') = shm_alloc_check true fresh_file 9000 in
    (false ≡ true → (ok ≡ true) × (header' ≡ fresh_file))
    × (false ≡ false
        → (ok ≡ true)
          × (header'.alloc_check 1 ≡ true)
          × ((q : ℕ) (t : BitType) (b : ℕ)
              → q / 8192 ≡ 1
              → header'.bytes (get_page_bits 1073741824 q t) b ≡ false)
          × ((q : ℕ) (t : BitType) (b : ℕ)
              → q < 268435456
              → q / 8192 ≢ 1
              → header'.bytes (get_page_bits 1073741824 q t) b ≡ true))
shm_alloc_check-clears_example =
    shm_alloc_check-clears fresh_file 9000 (omega arith) true 1073741824 (omega arith) (omega arith)

abbrev one_frame : List Frame
one_frame =
    record {
      base_pg = 7;
      ents = record { delta = 0; len = 2 } ∷ record { delta = 3; len = 1 } ∷ [];
    }
    ∷ []

abbrev one_node : List Ird
one_node = record { dirty_pages = record { start = 7; nr = 2 } ∷ []; dirty_blk_nr = 2 } ∷ []

one_node-IsChain : IsChain one_node
unfolding IsChain blocks
one_node-IsChain = (omega arith, refl)

one_entry : total_entries one_node < u32
unfolding total_entries
one_entry = omega arith

abbrev some_list : DirtyList
some_list = record { nodes = one_node; tail = some 0 }

some_list-IsList : IsList some_list
some_list-IsList = record { chain = one_node-IsChain; cached = λ i e. omega (arith, some_inj e) }
  where
    some_inj : {a b : ℕ} → some a ≡ some b → a ≡ b
    some_inj e = cc

abbrev even_pages : FileBits
even_pages = record {
  dg_bmap = λ i. true;
  dirty = λ i p. p % 2 == 0;
  lock = λ i p. false;
  inode = record {
    i_journal_dirty = some_list;
    i_journal_waiting_dirty = λ i. some_list;
    i_journal_waiting_nr_dirty_blks = λ i. 2;
    i_stg_dirty = some_list;
  };
}

inode_gather_dirty_pagebits-pages_example :
    let f' = inode_gather_dirty_pagebits true 0 even_pages in
    let new = group_pages (λ i. true) (λ i p. p % 2 == 0) 32768 in
    AreLists 0 f'.inode
    × (journal_pages f'.inode ≡ journal_pages even_pages.inode ++ new)
    × (waiting_pages 0 f'.inode ≡ waiting_pages 0 even_pages.inode ++ new)
    × ((r : ℕ) → r < 32768 → f'.dg_bmap r ≡ false)
    × ((r p : ℕ) → r < 32768 → even_pages.dg_bmap r ≡ true → p < 8192 → f'.dirty r p ≡ false)
inode_gather_dirty_pagebits-pages_example =
    inode_gather_dirty_pagebits-pages 0 even_pages (λ r p e. refl)
      (some_list-IsList, some_list-IsList)
