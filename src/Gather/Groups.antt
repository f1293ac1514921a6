-- ===== src/Gather/Groups.antt =====
-- The scan of a file's dirty groups, `inode_gather_dirty_pagebits`, which gathers each dirty block and
-- adds what it finds to the inode's lists. The dirty group page is a function from bit numbers, one bit
-- for each page entry block. Slab nodes are taken to be there, and results of calls are dropped, as in
-- the source.
pub mod Pages
pub mod First
pub mod Gathered
pub mod Whole
use oxbow.Prelude.{
  ℕ, zero, suc, ◌+◌, ◌*◌, ◌/◌, Bool, true, false, none, List, [], ◌∷◌, if◌then◌else◌, update,
}
use oxbow.RangeDirty.{RangeDirty, InodeDirty, add_range_dirty}
use oxbow.Gather.{none_set, gather_dirty_bits}

-- The number of the first set bit from number `p` on, among `n`.
pub first_set : (ℕ → Bool) → ℕ → ℕ → ℕ
first_set w p zero = p
first_set w p (suc n) = if w p then p else first_set w (p + 1) n

-- The bitmaps of a file and its inode.
pub record FileBits : Type 0 where
  pub dg_bmap : ℕ → Bool
  pub dirty : ℕ → ℕ → Bool
  pub lock : ℕ → ℕ → Bool
  pub inode : InodeDirty

module _ (is_journal : Bool) (df_id : ℕ) where
  -- The calls of `add_range_dirty` that a scan makes.
  pub add_calls : InodeDirty → List RangeDirty → InodeDirty
  add_calls inode [] = inode
  add_calls inode (rd ∷ l) =
      add_calls (add_range_dirty true true inode rd.start rd.nr is_journal df_id).1 l

  -- The cached pointers are reset when a scan starts.
  pub reset_tails : InodeDirty → InodeDirty
  reset_tails inode =
      let waiting = inode.i_journal_waiting_dirty in
      if is_journal
      then record inode {
        i_journal_dirty = record { nodes = inode.i_journal_dirty.nodes; tail = none };
        i_journal_waiting_dirty =
            update waiting df_id (record { nodes = (waiting df_id).nodes; tail = none });
      }
      else record inode { i_stg_dirty = record { nodes = inode.i_stg_dirty.nodes; tail = none } }

  -- `gather_dirty_bits` on the bitmaps of a file.
  pub gather_block : ℕ → FileBits → FileBits
  unfolding add_calls reset_tails
  gather_block bmap_idx f =
      let (ok, s) = gather_dirty_bits bmap_idx (f.dirty bmap_idx) (f.lock bmap_idx) in
      record f {
        dirty = update f.dirty bmap_idx s.dirty;
        lock = update f.lock bmap_idx s.lock;
        inode = add_calls (reset_tails f.inode) s.calls;
      }

  -- One round of the inner loop: the first set bit of the word gives the byte, and the byte's first set
  -- bit, found by `clear_first_set_bit`, is cleared and gathered.
  pub gather_first : ℕ → FileBits → FileBits
  unfolding first_set gather_block
  gather_first i f =
      let byte = first_set f.dg_bmap (i * 64) 64 / 8 in
      let bmap_idx = first_set f.dg_bmap (byte * 8) 8 in
      gather_block bmap_idx (record f { dg_bmap = update f.dg_bmap bmap_idx false })

  -- The rounds on a word; each clears a bit, so 64 are enough.
  pub gather_word : ℕ → ℕ → FileBits → FileBits
  unfolding gather_first
  gather_word zero i f = f
  gather_word (suc fuel) i f =
      let rest = gather_word fuel i (gather_first i f) in
      if none_set f.dg_bmap (i * 64) 64 then f else rest

  pub gather_words : ℕ → ℕ → FileBits → FileBits
  unfolding gather_word
  gather_words i zero f = f
  gather_words i (suc n) f = gather_words (i + 1) n (gather_word 64 i f)

  pub inode_gather_dirty_pagebits : FileBits → FileBits
  unfolding gather_words
  inode_gather_dirty_pagebits f =
      let counters = f.inode.i_journal_waiting_nr_dirty_blks in
      let inode =
        if is_journal
        then record f.inode { i_journal_waiting_nr_dirty_blks = update counters df_id 0 }
        else f.inode in
      gather_words 0 512 (record f { inode = inode })
