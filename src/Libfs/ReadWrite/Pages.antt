-- ===== src/Libfs/ReadWrite/Pages.antt =====
-- The whole loop of a write: it ends, and every page of the range is marked and copied.
use oxbow.Prelude.{
  ℕ, zero, suc, ◌+◌, ◌-◌, ◌*◌, ◌%◌, ◌≤◌, ◌<◌, min, ◌≡◌, refl, sym, ap, ap₂, ◌∙◌, ◌⊎◌, inl, true,
  false, some, arith, ◌==◌, u64, u32,
}
use native.Mathlib.Decide.{dec_lt}
use mathlib.Core.Option.{bind}
use oxbow.ShmLayout.{BitType, dirtybit, lockbit, uptodatebit, skipread_bit, ShmFile}
use oxbow.Libfs.PageBits.{bit_of}
use oxbow.Libfs.ReadWrite.{memcpy, Copying, write_loop}
use oxbow.Libfs.ReadWrite.Loop.{
  newly_dirty, whole_page, IsWritten, stepped, later_page, stepped_count, newly_dirty-same,
  last_page, write_page-stepped,
}
use oxbow.Libfs.ReadWrite.Page.{needs_no_read, marked-other, marked-kept, marked, marked-bits}
use oxbow.Libfs.ReadWrite.Memory.{IsApart, memcpy-memcpy, memcpy-zero}

module _ (m map_at buf f_size : ℕ) where
  -- One page in front of the pages that are written already.
  module _ (pi n : ℕ) (c c' : Copying) (from : pi * 4096 ≤ c.cur_ofs)
      (below : c.cur_ofs ≤ (pi + 1) * 4096)
      (last : (pi + suc n) * 4096 < c.cur_ofs + c.bytes_remain + 4096)
      (small : (pi + suc n) * 4096 < u64)
      (apart : IsApart (map_at + c.cur_ofs) (buf + c.buf_ofs) c.bytes_remain)
      (counter : c.counters.proc.count < u64)
      (w : IsWritten m map_at buf f_size (pi + 1) n (stepped m map_at buf f_size pi c) c') where
    page_small : pi * 4096 < u64
    page_small = omega (arith, small)

    joined :
        c'.mem
        ≡ memcpy c.mem
            (map_at + c.cur_ofs)
            (buf + c.buf_ofs)
            (min c.bytes_remain ((pi + suc n) * 4096 - c.cur_ofs))
    unfolding stepped
    joined =
        let r = c.bytes_remain in
        let k = min r ((pi + 1) * 4096 - c.cur_ofs) in
        let rest = min (r - k) ((pi + 1 + n) * 4096 - (c.cur_ofs + k)) in
        let total : k + rest ≡ min r ((pi + suc n) * 4096 - c.cur_ofs) =
          omega (arith, from, below) in
        let short : k + rest ≤ r = omega arith in
        w.copied
        ∙ ap₂ (λ d e. memcpy (memcpy c.mem (map_at + c.cur_ofs) (buf + c.buf_ofs) k) d e rest)
            (omega arith) (omega arith)
        ∙ memcpy-memcpy c.mem (map_at + c.cur_ofs) (buf + c.buf_ofs) k rest
            (omega (arith, short, apart))
        ∙ ap (memcpy c.mem (map_at + c.cur_ofs) (buf + c.buf_ofs)) total

    kept_all : c'.header ≡ record c.header { bytes = c'.header.bytes }
    unfolding stepped
    kept_all =
        let with_bytes : ShmFile → ShmFile = λ h. record h { bytes = c'.header.bytes } in
        w.kept
        ∙ ap with_bytes (
            marked-kept m
              (needs_no_read f_size pi (min c.bytes_remain ((pi + 1) * 4096 - c.cur_ofs) == 4096))
              pi c.header)

    outside_all :
        (t : BitType) (q : ℕ)
        → q * 4096 < u64
        → (q < pi) ⊎ (pi + suc n ≤ q)
        → bit_of m t q c'.header ≡ bit_of m t q c.header
    unfolding stepped
    outside_all t q q_small out =
        w.outside t q q_small (omega (arith, out))
        ∙ marked-other m _ pi c.header page_small t q q_small (λ e. omega (arith, e, out))

    here_bits :
        (bit_of m dirtybit pi c'.header ≡ true)
        × (bit_of m uptodatebit pi c'.header ≡ true)
        × (bit_of m lockbit pi c'.header ≡ false)
        × (bit_of m skipread_bit pi c'.header
            ≡ needs_no_read f_size pi (whole_page c.cur_ofs c.bytes_remain pi))
    unfolding stepped
    here_bits =
        let whole = min c.bytes_remain ((pi + 1) * 4096 - c.cur_ofs) == 4096 in
        let b = marked-bits m (needs_no_read f_size pi whole) pi c.header page_small in
        let before : (t : BitType)
            → bit_of m t pi c'.header
              ≡ bit_of m t pi (marked m (needs_no_read f_size pi whole) pi c.header) =
          λ t. w.outside t pi page_small (inl (omega arith)) in
        (
          before dirtybit ∙ b.0,
          before uptodatebit ∙ b.1,
          before lockbit ∙ b.2,
          before skipread_bit
              ∙ b.3
              ∙ ap (needs_no_read f_size pi) (last_page pi c.cur_ofs c.bytes_remain from below),
        )

    inside_all :
        (q : ℕ)
        → pi ≤ q
        → q < pi + suc n
        → (bit_of m dirtybit q c'.header ≡ true)
          × (bit_of m uptodatebit q c'.header ≡ true)
          × (bit_of m lockbit q c'.header ≡ false)
          × (bit_of m skipread_bit q c'.header
              ≡ needs_no_read f_size q (whole_page c.cur_ofs c.bytes_remain q))
    unfolding stepped
    inside_all q lo hi = elim (dec_lt pi q) [
      | yes later ↦
          let k = min c.bytes_remain ((pi + 1) * 4096 - c.cur_ofs) in
          let i = w.inside q (omega (arith, later)) (omega (arith, hi)) in
          (
            i.0,
            i.1,
            i.2,
            i.3
                ∙ ap (needs_no_read f_size q) (
                    later_page pi q c.cur_ofs c.bytes_remain k (omega arith) (omega (arith, below))
                      later),
          )
      | no here ↦ let e : pi ≡ q = omega (arith, here, lo) in rw (sym e) here_bits
    ]

    counted_all :
        c'.counters.proc.count ≡ (c.counters.proc.count + newly_dirty m pi (suc n) c.header) % u64
    unfolding newly_dirty stepped
    counted_all =
        let s = stepped_count m map_at buf f_size pi c counter in
        let same : newly_dirty m (pi + 1) n (stepped m map_at buf f_size pi c).header
            ≡ newly_dirty m (pi + 1) n c.header =
          newly_dirty-same m (pi + 1) n c.header (stepped m map_at buf f_size pi c).header
            (λ q lo hi.
              marked-other m _ pi c.header page_small dirtybit q (omega (arith, hi, small))
                (λ e. omega (arith, e, lo))) in
        omega (arith, w.counted, s.0, same)

    pub first_page : IsWritten m map_at buf f_size pi (suc n) c c'
    first_page = record {
      copied = joined;
      inside = inside_all;
      outside = outside_all;
      kept = kept_all;
      counted = counted_all;
    }

  pub write_loop-IsWritten :
      (n pi : ℕ) (c : Copying)
      → ((q : ℕ) → pi ≤ q → q < pi + n → bit_of m lockbit q c.header ≡ false)
      → (pi * 4096 ≤ c.cur_ofs) ⊎ (c.bytes_remain ≡ 0)
      → c.cur_ofs ≤ (pi + 1) * 4096
      → (n ≡ 0) ⊎ ((pi + n) * 4096 < c.cur_ofs + c.bytes_remain + 4096)
      → (pi + n) * 4096 < u64
      → c.cur_ofs + c.bytes_remain < u64
      → c.buf_ofs + c.bytes_remain < u64
      → c.bytes_remain < u32
      → IsApart (map_at + c.cur_ofs) (buf + c.buf_ofs) c.bytes_remain
      → c.counters.proc.count < u64
      → (c' : Copying) × (write_loop m map_at buf f_size pi n c ≡ some c')
        × IsWritten m map_at buf f_size pi n c c'
  unfolding write_loop newly_dirty bind stepped
  write_loop-IsWritten zero pi c free from below last small end end' word apart counter = (
    c,
    refl,
    record {
      copied = sym (
          ap (memcpy c.mem (map_at + c.cur_ofs) (buf + c.buf_ofs)) (omega (arith, from, below))
          ∙ memcpy-zero c.mem (map_at + c.cur_ofs) (buf + c.buf_ofs));
      inside = λ q lo hi. absurd (omega (arith, lo, hi));
      outside = λ t q q_small out. refl;
      kept = refl;
      counted = omega (arith, counter);
    },
  )
  write_loop-IsWritten (suc n) pi c free from below last small end end' word apart counter =
      let r = c.bytes_remain in
      let k = min r ((pi + 1) * 4096 - c.cur_ofs) in
      let k_le : (k ≤ r) × (c.cur_ofs + k ≤ (pi + 1) * 4096) =
        (omega arith, omega (arith, below)) in
      let from' : pi * 4096 ≤ c.cur_ofs = omega (arith, from, last) in
      let step =
        write_page-stepped m map_at buf f_size pi c (free pi (omega arith) (omega arith)) from'
          below (omega (arith, small)) end end' word in
      let (c', e, w) =
        write_loop-IsWritten n (pi + 1) (stepped m map_at buf f_size pi c)
          (λ q lo hi.
            marked-other m _ pi c.header (omega (arith, small)) lockbit q (omega (arith, hi, small))
              (λ same. omega (arith, same, lo))
            ∙ free q (omega (arith, lo)) (omega (arith, hi)))
          (omega (arith, last)) (omega (arith, k_le.1)) (omega (arith, last)) (omega (arith, small))
          (omega (arith, k_le.0, end)) (omega (arith, k_le.0, end')) (omega (arith, word))
          (omega (arith, k_le.0, apart)) ((stepped_count m map_at buf f_size pi c counter).1) in
      (
        c',
        ap (λ o. bind o (write_loop m map_at buf f_size (pi + 1) n)) step ∙ e,
        first_page pi n c c' from' below (omega (arith, last)) (omega (arith, small)) apart counter
            w,
      )
