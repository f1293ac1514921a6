-- ===== src/Libfs/Posix/Equivalence.antt =====
-- A read at the position of the file is a positioned read that moves the position.
use oxbow.Prelude.{
  update-update, ℕ, ◌≡◌, refl, sym, ap, ◌∙◌, inl, inr, none, some, ltb, if◌then◌else◌, Bool-cases,
  Option-cases, update, update_self, add64,
}
use mathlib.Core.Option.{bind}
use oxbow.ShmLayout.{pos, negsuc, ℤ}
use oxbow.Libfs.{Answers, Process}
use oxbow.Libfs.Posix.{
  OpenFile, FdTable, on_file, get_lfs_file, put_lfs_file, set_pos, process_of, put_back,
  is_above_zero, returned, end_read, end_pread, read_file, libfs_posix_read, pread_file,
  libfs_posix_pread64,
}
use oxbow.Libfs.ReadWrite.{minus_one, libfs_read}
use oxbow.Libfs.ReadWrite.Read.{HasMoved, libfs_read-HasMoved}

on_file-on_file :
    (i : ℕ) (f g : OpenFile → OpenFile) (tab : FdTable)
    → on_file i f (on_file i g tab) ≡ on_file i (λ o. f (g o)) tab
unfolding on_file
on_file-on_file i f g tab =
    let files : (ℕ → OpenFile) → FdTable = λ k. record tab { open_files = k } in
    let a = g (tab.open_files i) in
    ap (λ b. files (update (update tab.open_files i a) i (f b))) (update_self tab.open_files i a)
    ∙ ap files (update-update tab.open_files i a (f a))

-- The move of the position behind a result that is above zero.
pub moved : ℕ → ℕ → ℤ → FdTable → FdTable
moved i start (pos n) tab = if ltb 0 n then on_file i (set_pos (add64 start n)) tab else tab
moved i start (negsuc n) tab = tab

end_read-moved :
    (i start : ℕ) (tab : FdTable) (ret : ℤ) (p : ℕ) (w : Process)
    → HasMoved start (ret, p, w)
    → end_read i tab (ret, p, w) ≡ (
      (end_pread i tab (ret, p, w)).0,
      moved i start (end_pread i tab (ret, p, w)).0 (end_pread i tab (ret, p, w)).1,
    )
unfolding end_read end_pread moved returned is_above_zero
end_read-moved i start tab (negsuc n) p w e = refl
end_read-moved i start tab (pos n) p w e = elim (Bool-cases (ltb 0 n)) [
  | inr zero_ ↦ rw zero_ refl
  | inl some_ ↦ rw some_ (
      ap (λ t. (pos n, t))
        (ap (λ q. on_file i put_lfs_file (on_file i (set_pos q) (put_back i w tab))) (e n refl)
          ∙ on_file-on_file i put_lfs_file (set_pos (add64 start n)) (put_back i w tab)
          ∙ sym (on_file-on_file i (set_pos (add64 start n)) put_lfs_file (put_back i w tab))))
]

-- For a descriptor of an open file, `libfs_posix_read` is `libfs_posix_pread64` at the position of the
-- file, with the position moved by the number of bytes read when the result is above zero; for another descriptor
-- both return -1 and change nothing.
pub libfs_posix_read-libfs_posix_pread64 :
    (os : Answers) (tab : FdTable) (d : ℤ) (buf count : ℕ)
    → ((i : ℕ)
        → get_lfs_file d tab ≡ some i
        → let start = (tab.open_files i).structure.f_pos in
          libfs_posix_read os tab d buf count
          ≡ bind
              (libfs_posix_pread64 os tab d buf count start)
              (λ r. some (r.0, moved i start r.0 r.1)))
      × (get_lfs_file d tab ≡ none
          → (libfs_posix_read os tab d buf count ≡ some (minus_one, tab))
            × ((start : ℕ) → libfs_posix_pread64 os tab d buf count start ≡ some (minus_one, tab)))
unfolding libfs_posix_read libfs_posix_pread64 read_file pread_file bind
libfs_posix_read-libfs_posix_pread64 os tab d buf count = (
  λ i e.
      let start = (tab.open_files i).structure.f_pos in
      ap (read_file os buf count tab) e
      ∙ elim (Option-cases (libfs_read os (process_of tab i) buf count start)) [
        | inl waits ↦
            ap (λ o. bind o (λ r. some (end_read i tab r))) waits
            ∙ sym (
                ap
                  (λ o.
                    bind (pread_file os buf count start tab o)
                      (λ r. some (r.0, moved i start r.0 r.1)))
                  e
                ∙ ap
                    (λ o.
                      bind (bind o (λ r. some (end_pread i tab r)))
                        (λ r. some (r.0, moved i start r.0 r.1)))
                    waits)
        | inr (r, result) ↦
            ap (λ o. bind o (λ r. some (end_read i tab r))) result
            ∙ ap some (
                end_read-moved i start tab r.0 r.1 r.2
                  (libfs_read-HasMoved os (process_of tab i) buf count start r result))
            ∙ sym (
                ap
                  (λ o.
                    bind (pread_file os buf count start tab o)
                      (λ r. some (r.0, moved i start r.0 r.1)))
                  e
                ∙ ap
                    (λ o.
                      bind (bind o (λ r. some (end_pread i tab r)))
                        (λ r. some (r.0, moved i start r.0 r.1)))
                    result)
      ],
  λ e. (ap (read_file os buf count tab) e, λ start. ap (pread_file os buf count start tab) e),
)
