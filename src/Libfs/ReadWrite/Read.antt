-- ===== src/Libfs/ReadWrite/Read.antt =====
-- What a read returns and what it leaves in the buffer.
use oxbow.Prelude.{
  ℕ, ◌+◌, ◌-◌, ◌*◌, ◌/◌, ◌%◌, ◌≤◌, ◌<◌, min, ◌≡◌, refl, sym, ap, ap₂, ◌∙◌, ◌≢◌, ◌⊎◌, inl, inr, true,
  Bool, none, false, some, arith, ltb, ◌==◌, if◌then◌else◌, lt→ltb, le→ltb, Bool-cases,
  Option-cases, u64, add64, sub64,
}
use mathlib.Core.Option.{bind, some-injective}
use mathlib.Core.Path.{subst}
use oxbow.ShmLayout.{pos, negsuc, ShmFile, ℤ}
use oxbow.Libfs.{Process, Answers, get_oxbow_isize-some, get_oxbow_isize}
use oxbow.Libfs.ReadWrite.{
  memcpy, page_count, with_data, read_mapped, read_with, read_sized, minus_one, libfs_read,
  to_ssize,
}
use oxbow.Libfs.ReadWrite.Memory.{IsApart, read_loop-memcpy, memcpy_inside, memcpy_outside}

-- The pages from the one of the first byte to the one of the last cover the range.
pub page_count_lem :
    (start count : ℕ)
    → 0 < count
    → start + count < 9223372036854775808
    → (page_count start count ≡ (start + count - 1) / 4096 + 1 - start / 4096)
      × (start + count ≤ (start / 4096 + page_count start count) * 4096)
      × ((start / 4096 + page_count start count) * 4096 < start + count + 4096)
unfolding page_count
page_count_lem start count some_ small =
    let word : (start + count) % u64 ≡ start + count = omega (arith, small) in
    rw word (omega (arith, some_, small), omega (arith, some_, small), omega (arith, some_, small))

module _ (os : Answers) (w : Process) (h : ShmFile) (buf count start : ℕ)
    (mapping : w.file.f_data ≢ 0) (some_ : 0 < count) (small : start + count < 9223372036854775808)
    (small_size : h.i_size < 9223372036854775808) where
  data_there : with_data os w ≡ (true, w)
  unfolding with_data
  data_there = let t : (w.file.f_data == 0) ≡ false = ground (arith, mapping) in rw t refl

  past : h.i_size < start → read_sized os buf count start (h.i_size, w) ≡ some (minus_one, start, w)
  unfolding read_sized
  past behind = let t : ltb h.i_size start ≡ true = lt→ltb _ _ behind in rw t refl

  reads :
      start ≤ h.i_size
      → IsApart buf (w.file.f_data + start) (min count (h.i_size - start))
      → read_sized os buf count start (h.i_size, w)
        ≡ some (
          pos (min count (h.i_size - start)),
          start + min count (h.i_size - start),
          record w {
            mem = memcpy w.mem buf (w.file.f_data + start) (min count (h.i_size - start));
          },
        )
  unfolding read_sized read_with read_mapped to_ssize
  reads le apart =
      let n = min count (h.i_size - start) in
      let t : ltb h.i_size start ≡ false = le→ltb _ _ le in
      let u : (if ltb h.i_size (add64 start count) then sub64 h.i_size start else count) ≡ n =
        ground arith in
      let cover = page_count_lem start count some_ small in
      let loop =
        read_loop-memcpy w.file.f_data buf (page_count start count) (start / 4096) w.mem start 0 n
          (omega arith) (omega arith) (omega (arith, cover.2, small)) (omega (arith, small))
          (omega (arith, small)) (omega (arith, apart)) in
      let all : memcpy w.mem (buf + 0) (w.file.f_data + start)
            (min n ((start / 4096 + page_count start count) * 4096 - start))
          ≡ memcpy w.mem buf (w.file.f_data + start) n =
        ap₂ (λ d k. memcpy w.mem d (w.file.f_data + start) k) (omega arith)
          (omega (arith, cover.1)) in
      let word : (start + n) % u64 ≡ start + n = omega (arith, small) in
      let m : (w.file.f_data == 0) ≡ false = ground (arith, mapping) in
      let short : ltb n 9223372036854775808 ≡ true = lt→ltb _ _ (omega (arith, small)) in
      rw (t, u, data_there) (rw (m, short, loop, all, word) refl)

-- For a file of less than 2^63 bytes whose shared memory and mapping are there, and a read of at least one
-- byte whose range ends before 2^63, into a buffer that lies apart from the mapping of the bytes read: when it
-- does not start behind the end of the file, it returns the number of bytes asked for, or fewer when the file
-- ends before; those bytes are in the buffer, the rest of the memory and the process do not change, and the
-- position moves behind the bytes read. When it starts behind the end, it fails and changes nothing.
pub libfs_read-reads :
    (os : Answers) (w : Process) (h : ShmFile) (buf count start : ℕ)
    → w.inode.shm_header ≡ some h
    → w.file.f_data ≢ 0
    → 0 < count
    → start + count < 9223372036854775808
    → h.i_size < 9223372036854775808
    → IsApart buf (w.file.f_data + start) (min count (h.i_size - start))
    → (h.i_size < start → libfs_read os w buf count start ≡ some (minus_one, start, w))
      × (start ≤ h.i_size
          → let n = min count (h.i_size - start) in
            (mem' : ℕ → ℕ) × (libfs_read os w buf count start
              ≡ some (pos n, start + n, record w { mem = mem' }))
            × ((i : ℕ) → i < n → mem' (buf + i) ≡ w.mem (w.file.f_data + start + i))
            × ((i : ℕ) → (i < buf) ⊎ (buf + n ≤ i) → mem' i ≡ w.mem i))
unfolding libfs_read bind
libfs_read-reads os w h buf count start there mapping some_ small small_size apart = (
  λ behind.
      ap (λ o. bind o (read_sized os buf count start)) (get_oxbow_isize-some os w h there)
      ∙ past os w h buf count start mapping some_ small small_size behind,
  λ le.
      let n = min count (h.i_size - start) in
      (
        memcpy w.mem buf (w.file.f_data + start) n,
        ap (λ o. bind o (read_sized os buf count start)) (get_oxbow_isize-some os w h there)
            ∙ reads os w h buf count start mapping some_ small small_size le apart,
        λ i lt.
            memcpy_inside w.mem buf (w.file.f_data + start) n (buf + i) (omega arith)
              (omega (arith, lt))
            ∙ ap w.mem (omega arith),
        λ i out. memcpy_outside w.mem buf (w.file.f_data + start) n i out,
      ),
)

-- Behind a result that is not negative, the position has moved by it.
abbrev pub HasMoved : ℕ → ℤ × ℕ × Process → Type 0
HasMoved start r = (n : ℕ) → r.0 ≡ pos n → r.1 ≡ add64 start n

negative : {k n : ℕ} → negsuc k ≡ pos n → ⊥
negative e = cc

pos-injective : {k n : ℕ} → pos k ≡ pos n → k ≡ n
pos-injective e = cc

failed-HasMoved : (start : ℕ) (w : Process) → HasMoved start (minus_one, start, w)
failed-HasMoved start w n e = absurd (negative e)

read_bytes-HasMoved : (start k : ℕ) (w : Process) → HasMoved start (to_ssize k, add64 start k, w)
unfolding to_ssize
read_bytes-HasMoved start k w n e = elim (Bool-cases (ltb k 9223372036854775808)) [
  | inl short ↦
      ap (add64 start)
        (pos-injective (sym (ap (λ b. if b then pos k else negsuc (u64 - 1 - k)) short) ∙ e))
  | inr long ↦
      absurd (negative (sym (ap (λ b. if b then pos k else negsuc (u64 - 1 - k)) long) ∙ e))
]

some-HasMoved :
    (start : ℕ) (b : Bool) (x r : ℤ × ℕ × Process)
    → HasMoved start x
    → (if b then none else some x) ≡ some r
    → HasMoved start r
some-HasMoved start true x r h e = absurd (ground (arith, e))
some-HasMoved start false x r h e = subst (HasMoved start) (some-injective _ _ e) h

read_with-HasMoved :
    (start buf count k : ℕ) (w : Process) (b : Bool) (r : ℤ × ℕ × Process)
    → read_with w buf count start k b ≡ some r
    → HasMoved start r
unfolding read_with read_mapped
read_with-HasMoved start buf count k w true r e =
    some-HasMoved start _ _ r (read_bytes-HasMoved start k w) e
read_with-HasMoved start buf count k w false r e =
    subst (HasMoved start) (some-injective _ _ e) (failed-HasMoved start w)

read_sized-HasMoved :
    (os : Answers) (buf count start size : ℕ) (w : Process) (r : ℤ × ℕ × Process)
    → read_sized os buf count start (size, w) ≡ some r
    → HasMoved start r
unfolding read_sized
read_sized-HasMoved os buf count start size w r = elim (Bool-cases (ltb size start)) [
  | inl behind ↦
      rw behind (λ e. subst (HasMoved start) (some-injective _ _ e) (failed-HasMoved start w))
  | inr inside ↦
      rw inside
        (λ e. read_with-HasMoved start buf count _ (with_data os w).1 (with_data os w).0 r e)
]

pub libfs_read-HasMoved :
    (os : Answers) (w : Process) (buf count start : ℕ) (r : ℤ × ℕ × Process)
    → libfs_read os w buf count start ≡ some r
    → HasMoved start r
unfolding libfs_read bind
libfs_read-HasMoved os w buf count start r e = elim (Option-cases (get_oxbow_isize os w)) [
  | inl waits ↦
      absurd (ground (arith, sym (ap (λ o. bind o (read_sized os buf count start)) waits) ∙ e))
  | inr (k, result) ↦
      read_sized-HasMoved os buf count start k.0 k.1 r
        (sym (ap (λ o. bind o (read_sized os buf count start)) result) ∙ e)
]
