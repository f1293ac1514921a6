-- ===== src/Libfs/ReadWrite/RoundTrip.antt =====
-- A read behind a write of the same range.
use oxbow.Prelude.{ℕ, ◌+◌, ◌-◌, ◌≤◌, ◌<◌, min, ◌≡◌, sym, ap, ap₂, ◌∙◌, ◌≢◌, some, arith}
use oxbow.ShmLayout.{pos, ShmFile}
use oxbow.Libfs.{Answers, Process}
use oxbow.Libfs.ReadWrite.{libfs_read}
use oxbow.Libfs.ReadWrite.Writes.{IsWriteOf}
use oxbow.Libfs.ReadWrite.Read.{libfs_read-reads}
use oxbow.Libfs.ReadWrite.Memory.{IsApart}

-- A process with the memory, the mapping and the shared state of the write reads what it wrote.
pub libfs_read-IsWriteOf :
    (m : ℕ) (os : Answers) (w w' v : Process) (h0 h' : ShmFile) (buf buf' count start : ℕ)
    → IsWriteOf m w h0 buf count start w' h'
    → v.inode.shm_header ≡ some h'
    → v.file.f_data ≡ w.file.f_data
    → v.mem ≡ w'.mem
    → w.file.f_data ≢ 0
    → 0 < count
    → start + count < 9223372036854775808
    → h0.i_size < 9223372036854775808
    → IsApart buf' (w.file.f_data + start) count
    → (mem' : ℕ → ℕ) × (libfs_read os v buf' count start
        ≡ some (pos count, start + count, record v { mem = mem' }))
      × ((i : ℕ) → i < count → mem' (buf' + i) ≡ w.mem (buf + i))
libfs_read-IsWriteOf m os w w' v h0 h' buf buf' count start d header same mem_same mapping some_
      small small_size apart =
    let longer : start + count ≤ h'.i_size = omega (arith, d.size) in
    let n : min count (h'.i_size - start) ≡ count = omega (arith, longer) in
    let r =
      libfs_read-reads os v h' buf' count start header (λ e. mapping (sym same ∙ e)) some_ small
        (omega (arith, d.size, small, small_size)) (omega (arith, same, n, apart)) in
    let (mem', e, bytes, rest) = r.1 (omega (arith, longer)) in
    (
      mem',
      e ∙ ap (λ k. some (pos k, start + k, record v { mem = mem' })) n,
      λ i lt.
          bytes i (omega (arith, lt, n))
          ∙ ap₂ (λ g f. g (f + start + i)) mem_same same
          ∙ d.content i lt,
    )
