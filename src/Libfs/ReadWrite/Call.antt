-- ===== src/Libfs/ReadWrite/Call.antt =====
-- A call of `libfs_write` from its beginning to its end.
use oxbow.Prelude.{
  ℕ, ◌+◌, ◌-◌, ◌/◌, ◌≤◌, ◌<◌, ◌≡◌, refl, sym, ◌⊎◌, ap, ◌∙◌, ◌≢◌, inl, inr, Bool, true, false, ◌||◌,
  some, List, [], ◌∷◌, ◌++◌, arith, ◌==◌, if◌then◌else◌, Bool-cases, u64,
}
use mathlib.Core.Option.{bind}
use mathlib.Core.Path.{subst}
use oxbow.ShmLayout.{pos, lockbit, ShmFile}
use oxbow.Libfs.{
  Answers, Request, add_journal, Process, put_header, libfs_journal_start, with_header-some,
}
use oxbow.Libfs.PageBits.{bit_of}
use oxbow.Libfs.ReadWrite.{page_count, with_data, alloc_pages, write_locked, libfs_write}
use oxbow.Libfs.ReadWrite.Locked.{write_pages-IsWriteOf}
use oxbow.Libfs.ReadWrite.Writes.{IsWriteOf, alloc_pages-kept}
use oxbow.Libfs.ReadWrite.Memory.{IsApart}

-- The file uses the journal and has no transaction that runs or is asked for.
abbrev pub StartsHandle : ShmFile → Type 0
StartsHandle h = (h.use_journal ≡ true) × ((h.running_tx || h.running_tx_requested) ≡ false)

handle_started :
    (garbage : Bool) (h1 : ShmFile) (requests : List Request)
    → (h1.use_journal ≡ true) ⊎ (garbage ≡ false)
    → (journalled : Bool) × (h2 : ShmFile) × (requests' : List Request) × ((if h1.use_journal
          then libfs_journal_start h1 requests
          else (garbage, h1, requests))
        ≡ (journalled, h2, requests'))
      × (h2.bytes ≡ h1.bytes)
      × (h2.i_size ≡ h1.i_size)
      × (h2.data_dirty ≡ h1.data_dirty)
      × (journalled ≡ true → StartsHandle h1)
unfolding libfs_journal_start
handle_started garbage h1 requests set = elim (Bool-cases h1.use_journal) [
  | inr plain ↦ (
    garbage,
    h1,
    requests,
    rw plain refl,
    refl,
    refl,
    refl,
    λ e. absurd (ground (arith, set, plain, e)),
  )
  | inl journal ↦ elim (Bool-cases (h1.running_tx || h1.running_tx_requested)) [
    | inl running ↦ (
      false,
      h1,
      requests,
      rw (journal, running) refl,
      refl,
      refl,
      refl,
      λ e. absurd (ground (arith, e)),
    )
    | inr idle ↦ (
      true,
      record h1 { running_tx_requested = true },
      requests ++ add_journal h1.daemon_inode_va ∷ [],
      rw (journal, idle) refl,
      refl,
      refl,
      refl,
      λ e. (journal, idle),
    )
  ]
]

-- A write of 1 byte to 32 MB, inside the first 1 TB, from a buffer that lies apart from the mapping of the
-- range, to a file whose shared memory and mapping are there and whose mapping can be written, whose lock is
-- free and whose pages in the range are not locked. The file uses the journal, or `journalled` happens to hold
-- 0 before it is set; if a journal handle is started, the first look finds the transaction running. Then the
-- write returns the number of bytes and moves the position behind them; the file has the bytes and no other
-- byte of the memory changes; the file structure stays; the size grows to the end of the write where it was
-- less; the pages of the range, and no others, are dirty, up to date and unlocked behind it, marked as not to
-- be read exactly when they lie behind the end of the file or are written as a whole, and their groups are
-- dirty; the process counts the pages that were not dirty; and the inode is unlocked and marked as dirty.
pub libfs_write-IsWriteOf :
    (m : ℕ) (os : Answers) (garbage : Bool) (w : Process) (h : ShmFile) (buf count start : ℕ)
    (deleted : Bool) (more : List (Bool × Bool))
    → let h0 = alloc_pages os.locks (start / 4096) (page_count start count) h in
      w.inode.shm_header ≡ some h
      → w.file.f_data ≢ 0
      → w.inode.writable ≡ true
      → 0 < count
      → count ≤ 33554432
      → start + count ≤ 1099511627776
      → h.i_rwlock ≡ false
      → ((q : ℕ)
          → start / 4096 ≤ q
          → q ≤ (start + count - 1) / 4096
          → bit_of m lockbit q h0 ≡ false)
      → (h.use_journal ≡ true) ⊎ (garbage ≡ false)
      → (StartsHandle h → os.tx_states ≡ (true, deleted) ∷ more)
      → IsApart (w.file.f_data + start) buf count
      → w.counters.proc.count < u64
      → (w' : Process) × (h' : ShmFile) × (libfs_write m os garbage w buf count start
          ≡ some (pos count, start + count, w'))
        × IsWriteOf m w h0 buf count start w' h'
unfolding libfs_write write_locked put_header with_data bind alloc_pages
libfs_write-IsWriteOf m os garbage w h buf count start deleted more there mapping writable some_
      fits end free_lock free set answered apart counter =
    let h0 = alloc_pages os.locks (start / 4096) (page_count start count) h in
    let h1 : ShmFile = record h0 { i_rwlock = true; data_dirty = true } in
    let kept = alloc_pages-kept os.locks (page_count start count) (start / 4096) h in
    let set1 : (h1.use_journal ≡ true) ⊎ (garbage ≡ false) =
      subst (λ b. (b ≡ true) ⊎ (garbage ≡ false)) (sym (ap (λ h. h.use_journal) kept)) set in
    let (journalled, h2, requests, started, same, size, dirty, why) =
      handle_started garbage h1 w.requests set1 in
    let answered1 : journalled ≡ true → os.tx_states ≡ (true, deleted) ∷ more = λ e. answered (
      sym (ap (λ h. h.use_journal) kept) ∙ (why e).0,
      sym (ap (λ h. h.running_tx || h.running_tx_requested) kept) ∙ (why e).1,
    ) in
    let (w', h', e, d) =
      write_pages-IsWriteOf m os (put_header w h0) h0 h2 buf count start journalled deleted requests
        more same size dirty some_ fits end free answered1 apart counter writable mapping in
    let open_ : (alloc_pages os.locks (start / 4096) (page_count start count) h).i_rwlock ≡ false =
      ap (λ h. h.i_rwlock) kept ∙ free_lock in
    let mapped : (w.file.f_data == 0) ≡ false = ground (arith, mapping) in
    (
      w',
      h',
      ap
            (λ o. bind o (λ w1. bind w1.inode.shm_header (λ h.
              let h' = alloc_pages os.locks (start / 4096) (page_count start count) h in
              write_locked m os garbage h' buf count start (with_data os (put_header w1 h')))))
            (with_header-some os w h there)
          ∙ ap
              (λ o. bind o (λ h.
                let h' = alloc_pages os.locks (start / 4096) (page_count start count) h in
                write_locked m os garbage h' buf count start (with_data os (put_header w h'))))
              there
          ∙ rw mapped (rw open_ (rw started e)),
      record {
        header = d.header;
        same_file = d.same_file;
        content = d.content;
        elsewhere = d.elsewhere;
        size = d.size;
        state = d.state;
        pages = d.pages;
        others = d.others;
        counted = d.counted;
      },
    )
