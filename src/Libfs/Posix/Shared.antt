-- ===== src/Libfs/Posix/Shared.antt =====
-- Two descriptors of one file.
use oxbow.Prelude.{
  ℕ, ◌+◌, ◌-◌, ◌/◌, ◌%◌, ◌≤◌, ◌<◌, ◌≡◌, refl, sym, ap, ◌∙◌, ◌≢◌, ◌⊎◌, Bool, true, false, none, some,
  List, ◌∷◌, arith, ltb, ◌==◌, if◌then◌else◌, le→ltb, update, update_self, update-ne, u64,
}
use native.Mathlib.Decide.{ℕ_discrete}
use mathlib.Core.Option.{bind}
use mathlib.Core.Path.{subst}
use oxbow.ShmLayout.{pos, negsuc, ℤ, lockbit, ShmFile}
use oxbow.Libfs.{Process, Answers}
use oxbow.Libfs.Posix.{
  FdTable, get_lfs_file, on_file, put_lfs_file, put_back, OpenFile, process_of, returned, end_pread,
  pread_file, libfs_posix_pread64, pwrite_file, libfs_posix_pwrite64,
}
use oxbow.Libfs.PageBits.{bit_of}
use oxbow.Libfs.ReadWrite.{page_count, alloc_pages}
use oxbow.Libfs.ReadWrite.RoundTrip.{libfs_read-IsWriteOf}
use oxbow.Libfs.ReadWrite.Writes.{alloc_pages-kept}
use oxbow.Libfs.ReadWrite.Call.{StartsHandle, libfs_write-IsWriteOf}
use oxbow.Libfs.ReadWrite.Memory.{IsApart}

get_lfs_file-same :
    (d : ℤ) (tab tab' : FdTable)
    → ((k : ℕ) → (tab'.open_files k).fd ≡ (tab.open_files k).fd)
    → get_lfs_file d tab' ≡ get_lfs_file d tab
unfolding get_lfs_file
get_lfs_file-same (negsuc k) tab tab' e = refl
get_lfs_file-same (pos i) tab tab' e =
    ap (λ f. if ltb 16384 i then none else if f == 0 then none else some i) (e i)

-- The table behind a positioned call: only the file's structure and reference counter change.
abbrev IsKept : OpenFile → OpenFile → Process → ℕ → FdTable → Type 0
IsKept o o' w i tab =
    (o'.fd ≡ o.fd)
    × (o'.f_inode ≡ o.f_inode)
    × (w.file ≡ (tab.open_files i).structure → o'.structure ≡ o.structure)

entry-IsKept :
    (i k : ℕ) (w : Process) (tab : FdTable)
    → IsKept (tab.open_files k) ((on_file i put_lfs_file (put_back i w tab)).open_files k) w i tab
unfolding on_file put_back
entry-IsKept i k w tab =
    let files = tab.open_files in
    let a : OpenFile = record (files i) { structure = w.file } in
    let once = update files i a in
    elim (ℕ_discrete i k) [
      | yes here ↦
          let at_i : update once i (put_lfs_file (once i)) i ≡ put_lfs_file a =
            update_self once i (put_lfs_file (once i)) ∙ ap put_lfs_file (update_self files i a) in
          subst (λ k. IsKept (files k) (update once i (put_lfs_file (once i)) k) w i tab) here
            (ap (λ o. o.fd) at_i, ap (λ o. o.f_inode) at_i, λ e. ap (λ o. o.structure) at_i ∙ e)
      | no other ↦
          let same : update once i (put_lfs_file (once i)) k ≡ files k =
            update-ne once i k (put_lfs_file (once i)) other ∙ update-ne files i k a other in
          (ap (λ o. o.fd) same, ap (λ o. o.f_inode) same, λ e. ap (λ o. o.structure) same)
    ]

inode_kept :
    (i : ℕ) (w : Process) (tab : FdTable)
    → (on_file i put_lfs_file (put_back i w tab)).inodes ((tab.open_files i).f_inode) ≡ w.inode
unfolding on_file put_back
inode_kept i w tab = update_self tab.inodes ((tab.open_files i).f_inode) w.inode

memory_kept :
    (i : ℕ) (w : Process) (tab : FdTable)
    → (on_file i put_lfs_file (put_back i w tab)).memory ≡ w.mem
unfolding on_file put_back
memory_kept i w tab = refl

module _ (m : ℕ) (os : Answers) (garbage : Bool) (tab : FdTable) (d e : ℤ) (i j : ℕ) (h : ShmFile)
    (buf buf' count start : ℕ) (deleted : Bool) (more : List (Bool × Bool)) where
  -- A write of `libfs_posix_pwrite64` through a descriptor, under the conditions of
  -- `libfs_write-IsWriteOf`, to a file of less than 2^63 bytes and inside the largest file size, and then a
  -- `libfs_posix_pread64` of the same range through a descriptor of the same file, perhaps another one,
  -- that has the same mapping, into a buffer that lies apart from the mapping: both return the number of
  -- bytes, and the bytes read are those of the buffer that was written.
  pub libfs_posix_pread64-libfs_posix_pwrite64 :
      let w = process_of tab i in
      let h0 = alloc_pages os.locks (start / 4096) (page_count start count) h in
      get_lfs_file d tab ≡ some i
      → get_lfs_file e tab ≡ some j
      → (tab.open_files i).f_inode ≡ (tab.open_files j).f_inode
      → (tab.open_files j).structure.f_data ≡ w.file.f_data
      → w.inode.shm_header ≡ some h
      → w.file.f_data ≢ 0
      → w.inode.writable ≡ true
      → 0 < count
      → count ≤ 33554432
      → start + count ≤ m
      → m ≤ 1099511627776
      → h.i_rwlock ≡ false
      → ((q : ℕ)
          → start / 4096 ≤ q
          → q ≤ (start + count - 1) / 4096
          → bit_of m lockbit q h0 ≡ false)
      → (h.use_journal ≡ true) ⊎ (garbage ≡ false)
      → (StartsHandle h → os.tx_states ≡ (true, deleted) ∷ more)
      → IsApart (w.file.f_data + start) buf count
      → w.counters.proc.count < u64
      → h.i_size < 9223372036854775808
      → IsApart buf' (w.file.f_data + start) count
      → (tab' : FdTable) × (tab'' : FdTable) × (libfs_posix_pwrite64 m os garbage tab d buf count
            start
          ≡ some (pos count, tab'))
        × (libfs_posix_pread64 os tab' e buf' count start ≡ some (pos count, tab''))
        × ((k : ℕ) → k < count → tab''.memory (buf' + k) ≡ tab.memory (buf + k))
  unfolding libfs_posix_pwrite64 libfs_posix_pread64 pwrite_file pread_file end_pread process_of
      returned bind
  libfs_posix_pread64-libfs_posix_pwrite64 fd_d fd_e same_inode same_map there mapping writable
        some_ fits end large free_lock free set answered apart counter small apart' =
      let w = process_of tab i in
      let h0 = alloc_pages os.locks (start / 4096) (page_count start count) h in
      let (w', h', wrote, p) =
        libfs_write-IsWriteOf m os garbage w h buf count start deleted more there mapping writable
          some_ fits (omega (arith, end, large)) free_lock free set answered apart counter in
      let size : h0.i_size ≡ h.i_size =
        ap (λ h. h.i_size) (alloc_pages-kept os.locks (page_count start count) (start / 4096) h) in
      let tab' = on_file i put_lfs_file (put_back i w' tab) in
      let fits_file : ltb m ((start + count) % u64) ≡ false =
        le→ltb _ _ (omega (arith, end, large)) in
      let kept = entry-IsKept i j w' tab in
      let v = process_of tab' j in
      let inode : v.inode ≡ w'.inode =
        ap tab'.inodes (kept.1 ∙ sym same_inode) ∙ inode_kept i w' tab in
      let (mem', r, bytes) =
        libfs_read-IsWriteOf m os w w' v h0 h' buf buf' count start p
          (ap (λ n. n.shm_header) inode ∙ p.header)
          (ap (λ f. f.f_data) (kept.2 p.same_file) ∙ same_map) (memory_kept i w' tab) mapping some_
          (omega (arith, end, large)) (omega (arith, size, small)) apart' in
      (
        tab',
        on_file j put_lfs_file (put_back j (record v { mem = mem' }) tab'),
        ap (pwrite_file m os garbage buf count start tab) fd_d
            ∙ rw fits_file (ap (λ o. bind o (λ r. some (end_pread i tab r))) wrote),
        ap (pread_file os buf' count start tab')
              (get_lfs_file-same e tab tab' (λ k. (entry-IsKept i k w' tab).0) ∙ fd_e)
            ∙ ap (λ o. bind o (λ r. some (end_pread j tab' r))) r,
        λ k lt. ap (λ f. f (buf' + k)) (memory_kept j (record v { mem = mem' }) tab') ∙ bytes k lt,
      )
