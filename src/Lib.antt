-- ===== src/Lib.antt =====
-- Models and proofs for Oxbow, a file system in user space with a journal on a storage server.
--
-- The parts and how they meet. Applications use the file system through a library (oxbow/libfs). The
-- secure daemon (oxbow/secure_daemon) collects the dirty pages of files and builds journal transactions.
-- The storage server (oxbow/devfs) fetches the data of a transaction, writes the transaction to one of two
-- circular logs, commits in the order of the transaction ids, and later checkpoints the transactions and
-- releases their log space.
--
-- Which file models what:
--   JournalLog         struct journal_log and the functions that move its pointers
--                      (oxbow/devfs/src/journal.c): alloc_journal_space, update_log_state,
--                      free_journal_space, get_chunck_start, the split in init_journal. Window, Advance,
--                      Alloc and Refine relate it to the queue of blocks in use.
--   JournalLog/Bios    add_bio_to_bl and the functions that go round the log; Spans, Wrap and Separate say
--                      which blocks are written from where.
--   Commit             persist_data, persist_meta_and_commit, the checkpoint list, prepare_ckpt, and the
--                      end of do_checkpoint (oxbow/devfs/src/journal.c). Data and Prepare say
--                      where a transaction lies, Tiles which blocks an entry of the checkpoint list owns,
--                      Order how the threads' steps keep the order of the transactions, Release
--                      what the end of a checkpoint does among them.
--   DirtyMgmt          the dirty page counters (oxbow/devfs/src/common/dirty_mgmt.c).
--   RangeDirty         the chains of dirty ranges (oxbow/secure_daemon/src/libfs/shm.c).
--                      Frames: reading them from dumped blocks.
--   Gather             gather_dirty_bits, the scan of a block of dirty and lock bits (same file), and in
--                      Groups inode_gather_dirty_pagebits, which scans the dirty blocks of a file.
--   ShmLayout          where the bits of a page lie in the shared memory of its file
--                      (oxbow/devfs/src/common/shm.c, oxbow/devfs/include/common/shm.h).
--   MpmcRing           the bounded queue (oxbow/devfs/src/common/ring_buffer_mpmc.c). Mask says which
--                      capacities it accepts, Fifo when a ring holds a queue, Calls what each call does.
--   OxbSlab            the slab allocator (oxbow/devfs/src/common/oxb_slab.c): the steps of the threads on
--                      the free list. Invariant, Steps, Exchange and Runs carry the order of the list
--                      through an interleaving; Sizes has the sizes and the array of slabs.
--   Libfs              an open file in the application's process (oxbow/libfs/src/filesystem/file.c,
--                      inode.c, journal.c); PageBits the bits of a page in the shared memory.
--   Libfs/ReadWrite    libfs_read and libfs_write (oxbow/libfs/src/filesystem/read_write.c). Memory and Read
--                      are about the copy, Page, Loop and Pages about the loop of a write, Groups about the
--                      dirty groups, Writes, Locked and Call about the whole write, RoundTrip about both.
--   Libfs/Posix        read, pread, write and pwrite on descriptors
--                      (oxbow/libfs/src/posix/posix_interface.c).
--   TagBlocks          the tags of a transaction: how the daemon fills the descriptor block and the extent
--                      tag blocks (oxbow/secure_daemon/src/fs/journal.c), and how the server reads them
--                      (do_checkpoint_coalesce in oxbow/devfs/src/journal.c). Entries and Fill are about
--                      the filling, Scan about the reading.
--   FileData           journal_file_data (oxbow/secure_daemon/src/fs/journal.c): the dirty pages of a file go
--                      to the buffers that the server fetches, and their blocks to the tags. Copy is about
--                      the buffers, Tag about the tags of one range, Whole about the file.
--   Checkpoint         the passes of a checkpoint on the list of tags (do_checkpoint_coalesce in
--                      oxbow/devfs/src/journal.c): optimize, coalesce, and in Transfer the loop that makes
--                      the requests. View says what a list of tags stands for, Cut and Groups what happens
--                      to one tag and to the groups; Passes runs all passes, Disk the requests, and Journal
--                      begins with the tag blocks that the daemon has filled.
--   Durable            FileData, TagBlocks and Checkpoint together. Blocks relates the blocks of the tags to
--                      their sources, Content says what the disk holds in the end.
--   Prelude            tests, lists, maps and machine words that all parts share.
--   Tests              the theorems applied to concrete inputs.
--
-- State and operations. Structures are records with the source's fields, a function that changes state
-- takes and returns it. Machine words are natural numbers with the wrap-around written out. A failed
-- assertion is `none` or `aborted`, a wait on a condition `blocked`. Functions that hold a lock throughout
-- are one step; persist_meta_and_commit is two, since other threads run while it waits for its turn, and so
-- is do_checkpoint, which takes an entry off the checkpoint list and, behind the I/O, releases its space. In the
-- slab allocator every atomic operation is a step. A call of the ring or of the library runs alone; what the
-- kernel and the daemon answer, and which weak exchanges fail, are arguments.
--
-- Fuel: `add_bio_loop` has one more than the number of blocks, of which every round but the last takes
-- 8192; `gather_word` has 64, the bits of a word, of which every round clears one; `dirty_groups_from` has
-- one more than the number of the last group, and every round goes on by one group; `transfer_tags` has
-- the number of blocks and twice that of the nodes, where a round takes a node off, or takes the blocks
-- before the end of the log and leaves the rest of the node for the next one; `copy_split` and `tag_blocks`
-- have the number of pages of the range, of which every round takes one or more off.
--
-- Not modelled: device I/O and RPC, thread creation, recovery (a stub in the source), the first pass of a
-- checkpoint, which collects the tags of stage transactions, the file systems behind the daemon, opening and
-- closing of files, stage trace blocks, the registration of inodes and directories in a
-- transaction, and time stamps. `run_events` takes it that a dispatch succeeds in
-- the end, since the source repeats it, and that memory for the buffers is there.

pub mod Checkpoint
pub mod Commit
pub mod DirtyMgmt
pub mod Durable
pub mod FileData
pub mod Gather
pub mod JournalLog
pub mod Libfs
pub mod MpmcRing
pub mod OxbSlab
pub mod Prelude
pub mod RangeDirty
pub mod ShmLayout
pub mod TagBlocks
pub mod Tests
