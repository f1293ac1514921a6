-- ===== src/Libfs/ReadWrite/Loop.antt =====
-- The loop of a write over its pages: every page is locked, marked, copied and unlocked.
use oxbow.Prelude.{
  ℕ, zero, suc, ◌+◌, ◌-◌, ◌*◌, ◌%◌, ◌≤◌, ◌<◌, min, ◌≡◌, refl, ap₂, ◌⊎◌, inl, inr, Bool, true, false,
  ◌&&◌, some, arith, leb, ◌==◌, if◌then◌else◌, Bool-cases, u64, u32,
}
use mathlib.Core.Option.{bind}
use oxbow.ShmLayout.{BitType, dirtybit, lockbit, uptodatebit, skipread_bit, ShmFile}
use oxbow.DirtyMgmt.{increment_dirty_page_count}
use oxbow.Libfs.PageBits.{
  bit_of, lock_page_bit, dirty_page_bit, uptodate_page_bit, put_bit, unlock_page-put_bit,
  bit_of-put_other,
}
use oxbow.Libfs.ReadWrite.{memcpy, Copying, write_locked_page, write_page}
use oxbow.Libfs.ReadWrite.Page.{needs_no_read, marked, mark_skipread-put_bit}
use oxbow.Libfs.ReadWrite.Memory.{bytes_to_copy32-min}
use oxbow.DirtyMgmt.Account.{increment-count}

module _ (m : ℕ) where
  -- The pages from `pi` on that are not dirty yet.
  unfoldable pub newly_dirty : ℕ → ℕ → ShmFile → ℕ
  newly_dirty pi zero h = 0
  newly_dirty pi (suc n) h = (if bit_of m dirtybit pi h then 0 else 1) + newly_dirty (pi + 1) n h

  pub newly_dirty-same :
      (pi n : ℕ) (h h' : ShmFile)
      → ((q : ℕ) → pi ≤ q → q < pi + n → bit_of m dirtybit q h' ≡ bit_of m dirtybit q h)
      → newly_dirty pi n h' ≡ newly_dirty pi n h
  unfolding newly_dirty
  newly_dirty-same pi zero h h' same = refl
  newly_dirty-same pi (suc n) h h' same =
      ap₂ (λ b k. (if b then 0 else 1) + k) (same pi (omega arith) (omega arith))
        (newly_dirty-same (pi + 1) n h h' (λ q lo hi. same q (omega arith) (omega arith)))

-- The whole page is in the range.
pub whole_page : ℕ → ℕ → ℕ → Bool
whole_page start count q = leb start (q * 4096) && leb ((q + 1) * 4096) (start + count)

pub last_page :
    (pi c r : ℕ)
    → pi * 4096 ≤ c
    → c ≤ (pi + 1) * 4096
    → (min r ((pi + 1) * 4096 - c) == 4096) ≡ whole_page c r pi
unfolding whole_page
last_page pi c r from below = ground (arith, from, below)

pub later_page :
    (pi q c r k : ℕ)
    → k ≤ r
    → c + k ≤ (pi + 1) * 4096
    → pi < q
    → whole_page (c + k) (r - k) q ≡ whole_page c r q
unfolding whole_page
later_page pi q c r k le below lt = ground arith

module _ (m map_at buf f_size : ℕ) where
  pub record IsWritten (pi n : ℕ) (c c' : Copying) : Type 0 where
    pub copied :
        c'.mem
        ≡ memcpy c.mem
            (map_at + c.cur_ofs)
            (buf + c.buf_ofs)
            (min c.bytes_remain ((pi + n) * 4096 - c.cur_ofs))
    pub inside :
        (q : ℕ)
        → pi ≤ q
        → q < pi + n
        → (bit_of m dirtybit q c'.header ≡ true)
          × (bit_of m uptodatebit q c'.header ≡ true)
          × (bit_of m lockbit q c'.header ≡ false)
          × (bit_of m skipread_bit q c'.header
              ≡ needs_no_read f_size q (whole_page c.cur_ofs c.bytes_remain q))
    pub outside :
        (t : BitType) (q : ℕ)
        → q * 4096 < u64
        → (q < pi) ⊎ (pi + n ≤ q)
        → bit_of m t q c'.header ≡ bit_of m t q c.header
    pub kept : c'.header ≡ record c.header { bytes = c'.header.bytes }
    pub counted :
        c'.counters.proc.count ≡ (c.counters.proc.count + newly_dirty m pi n c.header) % u64

  unfoldable pub stepped : ℕ → Copying → Copying
  stepped pi c =
      let k = min c.bytes_remain ((pi + 1) * 4096 - c.cur_ofs) in
      record {
        mem = memcpy c.mem (map_at + c.cur_ofs) (buf + c.buf_ofs) k;
        header = marked m (needs_no_read f_size pi (k == 4096)) pi c.header;
        counters =
            if bit_of m dirtybit pi c.header
            then c.counters
            else increment_dirty_page_count c.counters 1;
        cur_ofs = c.cur_ofs + k;
        buf_ofs = c.buf_ofs + k;
        bytes_remain = c.bytes_remain - k;
      }

  module _ (pi : ℕ) (c : Copying) (free : bit_of m lockbit pi c.header ≡ false)
      (from : pi * 4096 ≤ c.cur_ofs) (below : c.cur_ofs ≤ (pi + 1) * 4096)
      (small : (pi + 1) * 4096 < u64) (end : c.cur_ofs + c.bytes_remain < u64)
      (end' : c.buf_ofs + c.bytes_remain < u64) (word : c.bytes_remain < u32) where
    pub write_page-stepped : write_page m map_at buf f_size pi c ≡ some (stepped pi c)
    unfolding write_page lock_page_bit bind stepped write_locked_page dirty_page_bit
        uptodate_page_bit marked
    write_page-stepped =
        let k = min c.bytes_remain ((pi + 1) * 4096 - c.cur_ofs) in
        let w1 : (c.cur_ofs + k) % u64 ≡ c.cur_ofs + k = omega (arith, end) in
        let w2 : (c.buf_ofs + k) % u64 ≡ c.buf_ofs + k = omega (arith, end') in
        let w3 : (c.bytes_remain + u32 - k) % u32 ≡ c.bytes_remain - k = omega (arith, word) in
        let page : pi * 4096 < u64 = omega (arith, small) in
        rw
          (
            free,
            bytes_to_copy32-min pi c.cur_ofs c.bytes_remain below small (omega (arith, from)),
            w1,
            w2,
            w3,
          )
          (rw (unlock_page-put_bit m pi _) (
            rw (mark_skipread-put_bit m f_size pi k _) (
              rw
                (
                  bit_of-put_other m uptodatebit dirtybit pi pi true
                      (put_bit m skipread_bit pi (needs_no_read f_size pi (k == 4096))
                        (put_bit m lockbit pi true c.header))
                      page page (inr (omega arith)),
                  bit_of-put_other m skipread_bit dirtybit pi pi
                      (needs_no_read f_size pi (k == 4096)) (put_bit m lockbit pi true c.header)
                      page page (inr (omega arith)),
                  bit_of-put_other m lockbit dirtybit pi pi true c.header page page
                      (inr (omega arith)),
                )
                refl)))

  pub stepped_count :
      (pi : ℕ) (c : Copying)
      → c.counters.proc.count < u64
      → ((stepped pi c).counters.proc.count
          ≡ (c.counters.proc.count + (if bit_of m dirtybit pi c.header then 0 else 1)) % u64)
        × ((stepped pi c).counters.proc.count < u64)
  unfolding stepped
  stepped_count pi c small = elim (Bool-cases (bit_of m dirtybit pi c.header)) [
    | inl there ↦ rw there (omega (arith, small), small)
    | inr fresh ↦
        rw fresh (increment-count c.counters 1, omega (arith, increment-count c.counters 1))
  ]
