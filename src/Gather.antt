-- ===== src/Gather.antt =====
-- Collecting the dirty pages of a file from its bitmaps: `gather_dirty_bits` and
-- `inode_gather_dirty_pagebits` in oxbow/secure_daemon/src/libfs/shm.c.
-- A bitmap is a function from bit numbers: bit `k` of byte `b` is number `8 * b + k`. The first 1024
-- bytes of a page entry block are its dirty bits, the bytes from `LOCKBIT_START_INDEX` on its lock bits.
-- A 64-bit word is read as a whole before its bits change, so the scan of a word has a copy of the bits.
-- `calls` are the calls of `add_range_dirty`, in order; their page numbers start at that of the block.
pub mod Progress
pub mod Runs
pub mod Groups
use oxbow.Prelude.{
  ℕ, zero, suc, ◌+◌, ◌*◌, Bool, true, false, ◌&&◌, not, List, [], ◌∷◌, ◌++◌, ◌==◌, if◌then◌else◌,
  update,
}
use oxbow.RangeDirty.{RangeDirty}

pub record Scan : Type 0 where
  pub dirty : ℕ → Bool
  pub lock : ℕ → Bool
  pub count : ℕ
  pub pos : ℕ
  pub calls : List RangeDirty

-- `NR_PAGES_IN_PEB`, the pages of a page entry block
abbrev pub nr_pages_in_peb : ℕ
nr_pages_in_peb = 8192

-- None of the `n` bits from number `p` on is set.
pub none_set : (ℕ → Bool) → ℕ → ℕ → Bool
none_set w p zero = true
none_set w p (suc n) = not (w p) && none_set w (p + 1) n

module _ (bmap_idx : ℕ) where
  -- The run of dirty pages that ends here, if there is one, is added.
  pub end_run : Scan → Scan
  end_run s = if s.count == 0 then s else record s {
    calls = s.calls ++ (record { start = s.pos + bmap_idx * nr_pages_in_peb; nr = s.count } ∷ []);
    count = 0;
  }

  -- One bit: a dirty page joins the run and its lock is taken; if it is taken already, the scan stops.
  pub scan_bit : (ℕ → Bool) → ℕ → Scan → Bool × Scan
  unfolding end_run
  scan_bit w p s =
      let s1 = record s {
        pos = if s.count == 0 then p else s.pos;
        count = s.count + 1;
        dirty = update s.dirty p false;
      } in
      if w p
      then if s.lock p then (false, s1) else (true, record s1 { lock = update s.lock p true })
      else (true, end_run s)

  pub scan_bits : (ℕ → Bool) → ℕ → ℕ → Scan → Bool × Scan
  unfolding scan_bit
  scan_bits w p zero s = (true, s)
  scan_bits w p (suc n) s =
      let (ok, s') = scan_bit w p s in
      let rest = scan_bits w (p + 1) n s' in if ok then rest else (false, s')

  pub scan_byte : (ℕ → Bool) → ℕ → Scan → Bool × Scan
  unfolding none_set end_run scan_bits
  scan_byte w byte_offset s =
      if none_set w (byte_offset * 8) 8
      then (true, end_run s)
      else scan_bits w (byte_offset * 8) 8 s

  pub scan_bytes : (ℕ → Bool) → ℕ → ℕ → Scan → Bool × Scan
  unfolding scan_byte
  scan_bytes w byte_offset zero s = (true, s)
  scan_bytes w byte_offset (suc n) s =
      let (ok, s') = scan_byte w byte_offset s in
      let rest = scan_bytes w (byte_offset + 1) n s' in if ok then rest else (false, s')

  pub scan_word : ℕ → Scan → Bool × Scan
  unfolding none_set end_run scan_bytes
  scan_word i s =
      if none_set s.dirty (i * 64) 64 then (true, end_run s) else scan_bytes s.dirty (i * 8) 8 s

  pub scan_words : ℕ → ℕ → Scan → Bool × Scan
  unfolding scan_word
  scan_words i zero s = (true, s)
  scan_words i (suc n) s =
      let (ok, s') = scan_word i s in
      let rest = scan_words (i + 1) n s' in if ok then rest else (false, s')

  pub last_run : Bool × Scan → Bool × Scan
  unfolding end_run
  last_run (ok, s) = if ok then (true, end_run s) else (false, s)

  -- Whether the scan came to the end, and what it leaves.
  pub gather_dirty_bits : (ℕ → Bool) → (ℕ → Bool) → Bool × Scan
  unfolding scan_words last_run
  gather_dirty_bits dirty lock =
      last_run
        (scan_words 0 128 (record { dirty = dirty; lock = lock; count = 0; pos = 0; calls = [] }))
