-- ===== src/Libfs/ReadWrite/Writes.antt =====
-- What a write returns, and what it leaves in the file, its shared state and the counters.
use oxbow.Prelude.{
  ℕ, zero, suc, ◌+◌, ◌-◌, ◌*◌, ◌/◌, ◌%◌, ◌≤◌, ◌<◌, max, ◌≡◌, refl, ap, ◌∙◌, ◌⊎◌, inl, inr, Bool,
  true, false, some, List, ◌∷◌, arith, ltb, if◌then◌else◌, ltb→lt, Bool-cases, u64,
}
use oxbow.ShmLayout.{
  BitType, dirtybit, lockbit, uptodatebit, skipread_bit, ShmFile, shm_alloc_check,
}
use oxbow.Libfs.{Process, libfs_journal_end}
use oxbow.Libfs.PageBits.{bit_of}
use oxbow.Libfs.ReadWrite.{alloc_pages, sized}
use oxbow.Libfs.ReadWrite.Loop.{newly_dirty, whole_page}
use oxbow.Libfs.ReadWrite.Page.{needs_no_read}
use oxbow.ShmLayout.AllocCheck.{shm_alloc_check-kept}

module _ (m : ℕ) where
  -- `h0` is the shared state behind the allocation, `w'` the process and `h'` the shared state at the end.
  pub record IsWriteOf (w : Process) (h0 : ShmFile) (buf count start : ℕ) (w' : Process)
      (h' : ShmFile) : Type 0 where
    pub header : w'.inode.shm_header ≡ some h'
    pub same_file : w'.file ≡ w.file
    pub content : (i : ℕ) → i < count → w'.mem (w.file.f_data + start + i) ≡ w.mem (buf + i)
    pub elsewhere :
        (a : ℕ)
        → (a < w.file.f_data + start) ⊎ (w.file.f_data + start + count ≤ a)
        → w'.mem a ≡ w.mem a
    pub size : h'.i_size ≡ max h0.i_size (start + count)
    pub state : (h'.data_dirty ≡ true) × (h'.i_rwlock ≡ false)
    pub pages :
        (q : ℕ)
        → start / 4096 ≤ q
        → q ≤ (start + count - 1) / 4096
        → (bit_of m dirtybit q h' ≡ true)
          × (bit_of m uptodatebit q h' ≡ true)
          × (bit_of m lockbit q h' ≡ false)
          × (bit_of m skipread_bit q h' ≡ needs_no_read h0.i_size q (whole_page start count q))
          × (h'.dirty_group (q / 8192) ≡ true)
    pub others :
        (t : BitType) (q : ℕ)
        → q * 4096 < u64
        → (q < start / 4096) ⊎ ((start + count - 1) / 4096 < q)
        → bit_of m t q h' ≡ bit_of m t q h0
    pub counted :
        w'.counters.proc.count
        ≡ (w.counters.proc.count
            + newly_dirty m (start / 4096) ((start + count - 1) / 4096 + 1 - start / 4096) h0)
          % u64

-- A handle that the daemon has answered is over at the first look.
pub journal_ends :
    (states : List (Bool × Bool)) (deleted journalled : Bool) (h : ShmFile)
    → (more : List (Bool × Bool)) → (journalled ≡ true → states ≡ (true, deleted) ∷ more)
    → (h5 : ShmFile) × ((if journalled then libfs_journal_end states h else some h) ≡ some h5)
      × (h5.i_size ≡ h.i_size)
      × (h5.data_dirty ≡ h.data_dirty)
      × (h5.dirty_group ≡ h.dirty_group)
      × (h5.bytes ≡ h.bytes)
unfolding libfs_journal_end
journal_ends states deleted false h more e = (h, refl, refl, refl, refl, refl)
journal_ends states deleted true h more e = (
  record h { running_tx = true; i_deleted = deleted; running_tx_requested = false },
  ap (λ l. libfs_journal_end l h) (e refl),
  refl,
  refl,
  refl,
  refl,
)

pub sized_lem :
    (f_size end : ℕ) (h : ShmFile)
    → h.i_size ≡ f_size
    → let h4 = sized f_size end h in
      (h4.i_size ≡ max f_size end)
      × (h4.data_dirty ≡ h.data_dirty)
      × (h4.dirty_group ≡ h.dirty_group)
      × (h4.bytes ≡ h.bytes)
unfolding sized
sized_lem f_size end h e = elim (Bool-cases (ltb f_size end)) [
  | inl longer ↦ rw longer (omega (arith, ltb→lt _ _ longer), refl, refl, refl)
  | inr within ↦
      let le : end ≤ f_size = ground (arith, within) in
      rw within (omega (arith, e, le), refl, refl, refl)
]

pub alloc_pages-kept :
    (locks : Bool) (n pi : ℕ) (h : ShmFile)
    → alloc_pages locks pi n h ≡ record h {
      alloc_check = (alloc_pages locks pi n h).alloc_check;
      bytes = (alloc_pages locks pi n h).bytes;
    }
unfolding alloc_pages
alloc_pages-kept locks zero pi h = refl
alloc_pages-kept locks (suc n) pi h =
    let with_pages : ShmFile → ShmFile = λ h'. record h' {
      alloc_check = (alloc_pages locks pi (suc n) h).alloc_check;
      bytes = (alloc_pages locks pi (suc n) h).bytes;
    } in
    alloc_pages-kept locks n (pi + 1) (shm_alloc_check locks h pi).1
    ∙ ap with_pages (shm_alloc_check-kept locks h pi)
