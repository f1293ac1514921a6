-- ===== src/Libfs/ReadWrite/Locked.antt =====
-- The part of `libfs_write` that runs under the lock of the inode.
use oxbow.Prelude.{
  ℕ, ◌+◌, ◌-◌, ◌*◌, ◌/◌, ◌%◌, ◌≤◌, ◌<◌, max, ◌≡◌, ◌≢◌, ltb, refl, ap, ap₂, ◌∙◌, inl, inr, Bool,
  true, false, some, List, ◌∷◌, arith, u64, u32,
}
use mathlib.Core.Option.{bind}
use oxbow.ShmLayout.{pos, BitType, dirtybit, lockbit, uptodatebit, skipread_bit, ShmFile}
use oxbow.Libfs.{Answers, Request, Process, put_header}
use oxbow.Libfs.PageBits.{bit_of, bit_of-bytes}
use oxbow.Libfs.ReadWrite.{
  memcpy, page_count, Copying, dirty_groups, sized, finish_write, write_loop, write_pages, to_ssize,
  cannot_write,
}
use oxbow.Libfs.ReadWrite.Groups.{dirty_groups-kept, dirty_groups-marks}
use oxbow.Libfs.ReadWrite.Loop.{newly_dirty, newly_dirty-same, whole_page, IsWritten}
use oxbow.Libfs.ReadWrite.Page.{needs_no_read}
use oxbow.Libfs.ReadWrite.Writes.{IsWriteOf, journal_ends, sized_lem}
use oxbow.Libfs.ReadWrite.Read.{page_count_lem}
use oxbow.Libfs.ReadWrite.Pages.{write_loop-IsWritten}
use oxbow.Libfs.ReadWrite.Memory.{IsApart, memcpy_inside, memcpy_outside}

-- The part of a write under the lock, with the shared state `h2` behind the start of the handle.
module _ (m : ℕ) (os : Answers) (w : Process) (h0 h2 : ShmFile) (buf count start : ℕ)
    (journalled deleted : Bool) (requests : List Request) (more : List (Bool × Bool))
    (same : h2.bytes ≡ h0.bytes) (same_size : h2.i_size ≡ h0.i_size)
    (dirtied : h2.data_dirty ≡ true) (some_ : 0 < count) (fits : count ≤ 33554432)
    (end : start + count ≤ 1099511627776)
    (free : (q : ℕ)
      → start / 4096 ≤ q
      → q ≤ (start + count - 1) / 4096
      → bit_of m lockbit q h0 ≡ false)
    (answered : journalled ≡ true → os.tx_states ≡ (true, deleted) ∷ more)
    (apart : IsApart (w.file.f_data + start) buf count)
    (counter : w.counters.proc.count < u64) where
  abbrev first : ℕ
  first = start / 4096

  abbrev last : ℕ
  last = (start + count - 1) / 4096

  abbrev begun : Copying
  begun = record {
    mem = w.mem;
    header = dirty_groups count first last h2;
    counters = w.counters;
    cur_ofs = start;
    buf_ofs = 0;
    bytes_remain = count;
  }

  bits_begun : (t : BitType) (q : ℕ) → bit_of m t q (begun.header) ≡ bit_of m t q h0
  bits_begun t q =
      bit_of-bytes m t q begun.header h0
        (ap (λ h. h.bytes) (dirty_groups-kept count first last h2) ∙ same)

  pages-IsWritten :
      (c' : Copying) × (write_loop m w.file.f_data buf h2.i_size first
          (page_count start count)
          begun
        ≡ some c')
      × IsWritten m w.file.f_data buf h2.i_size first (page_count start count) begun c'
  pages-IsWritten =
      let p = page_count_lem start count some_ (omega (arith, end)) in
      write_loop-IsWritten m w.file.f_data buf h2.i_size (page_count start count) first begun
        (λ q lo hi. bits_begun lockbit q ∙ free q lo (omega (arith, hi, p.0))) (inl (omega arith))
        (omega arith) (inr (omega (arith, p.2))) (omega (arith, p.2, end)) (omega (arith, end))
        (omega (arith, fits)) (omega (arith, fits)) (omega (arith, apart)) counter

  finished : Copying → ShmFile → Process
  finished c' h5 =
      record (put_header (record w { requests = requests }) (record h5 { i_rwlock = false })) {
        mem = c'.mem;
        counters = c'.counters;
      }

  module _ (c' : Copying)
      (d : IsWritten m w.file.f_data buf h2.i_size first (page_count start count) begun c')
      (h5 : ShmFile) (size5 : h5.i_size ≡ max h0.i_size (start + count))
      (dirty5 : h5.data_dirty ≡ true) (group5 : h5.dirty_group ≡ c'.header.dirty_group)
      (bytes5 : h5.bytes ≡ c'.header.bytes) where
    p :
        (page_count start count ≡ last + 1 - first)
        × (start + count ≤ (first + page_count start count) * 4096)
        × ((first + page_count start count) * 4096 < start + count + 4096)
    p = page_count_lem start count some_ (omega (arith, end))

    whole : c'.mem ≡ memcpy w.mem (w.file.f_data + start) buf count
    whole =
        d.copied
        ∙ ap₂ (λ s n. memcpy w.mem (w.file.f_data + start) s n) (omega arith) (omega (arith, p.1))

    at_end :
        (t : BitType) (q : ℕ)
        → bit_of m t q (record h5 { i_rwlock = false }) ≡ bit_of m t q c'.header
    at_end t q = bit_of-bytes m t q (record h5 { i_rwlock = false }) c'.header bytes5

    groups : (q : ℕ) → first ≤ q → q ≤ last → c'.header.dirty_group (q / 8192) ≡ true
    groups q lo hi =
        let g =
          dirty_groups-marks count first last h2 (omega (arith, some_)) (omega (arith, end)) in
        ap (λ h. h.dirty_group (q / 8192)) d.kept ∙ (g.0 fits (omega (arith, fits))).0 q lo hi

    finished-IsWriteOf :
        IsWriteOf m w h0 buf count start (finished c' h5) (record h5 { i_rwlock = false })
    unfolding finished put_header
    finished-IsWriteOf = record {
      header = refl;
      same_file = refl;
      content = λ i lt.
          ap (λ f. f (w.file.f_data + start + i)) whole
          ∙ memcpy_inside w.mem (w.file.f_data + start) buf count (w.file.f_data + start + i)
              (omega arith) (omega (arith, lt))
          ∙ ap w.mem (omega arith);
      elsewhere = λ a out.
          ap (λ f. f a) whole ∙ memcpy_outside w.mem (w.file.f_data + start) buf count a out;
      size = size5;
      state = (dirty5, refl);
      pages = λ q lo hi.
          let i = d.inside q lo (omega (arith, p.0, lo, hi)) in
          (
            at_end dirtybit q ∙ i.0,
            at_end uptodatebit q ∙ i.1,
            at_end lockbit q ∙ i.2,
            at_end skipread_bit q
                ∙ i.3
                ∙ ap (λ s. needs_no_read s q (whole_page start count q)) same_size,
            ap (λ f. f (q / 8192)) group5 ∙ groups q lo hi,
          );
      others = λ t q small out.
          at_end t q ∙ d.outside t q small (omega (arith, p.0, out, some_)) ∙ bits_begun t q;
      counted =
          d.counted
          ∙ ap (λ k. (w.counters.proc.count + k) % u64)
              (ap (λ n. newly_dirty m first n begun.header) (p.0)
                ∙ newly_dirty-same m first (last + 1 - first) h0 begun.header
                    (λ q lo hi. bits_begun dirtybit q));
    }

  maps : w.inode.writable ≡ true → w.file.f_data ≢ 0 → cannot_write w ≡ false
  unfolding cannot_write
  maps writable mapping = ground (arith, writable, mapping)

  pub write_pages-IsWriteOf :
      w.inode.writable ≡ true
      → w.file.f_data ≢ 0
      → (w' : Process) × (h' : ShmFile) × (write_pages m os w buf count start
            (journalled, h2, requests)
          ≡ some (pos count, start + count, w'))
        × IsWriteOf m w h0 buf count start w' h'
  unfolding write_pages finish_write to_ssize finished bind
  write_pages-IsWriteOf writable mapping =
      let (c', loop, d) = pages-IsWritten in
      let here : c'.header.i_size ≡ h2.i_size =
        ap (λ h. h.i_size) d.kept ∙ ap (λ h. h.i_size) (dirty_groups-kept count first last h2) in
      let h4 = sized_lem h2.i_size (start + count) c'.header here in
      let (h5, ends, size5, dirty5, group5, bytes5) =
        journal_ends os.tx_states deleted journalled (sized h2.i_size (start + count) c'.header)
          more answered in
      let w1 : (start + count) % u64 ≡ start + count = omega (arith, end) in
      let w2 : (start + count + u64 - 1) % u64 ≡ start + count - 1 = omega (arith, end, some_) in
      let w3 : count % u32 ≡ count = omega (arith, fits) in
      let w4 = maps writable mapping in
      let w5 : ltb count 9223372036854775808 ≡ true = ground (arith, fits) in
      let dirty' : c'.header.data_dirty ≡ true =
        ap (λ h. h.data_dirty) d.kept
        ∙ ap (λ h. h.data_dirty) (dirty_groups-kept count first last h2)
        ∙ dirtied in
      (
        finished c' h5,
        record h5 { i_rwlock = false },
        rw (w1, w2, w3, w4, loop) (rw (w1, ends, w5) refl),
        finished-IsWriteOf c' d h5 (size5 ∙ h4.0 ∙ ap (λ s. max s (start + count)) same_size)
            (dirty5 ∙ h4.1 ∙ dirty') (group5 ∙ h4.2) (bytes5 ∙ h4.3),
      )
