-- ===== src/Tests/Pages.antt =====
-- Dirty pages: counters, lists of ranges, and the bitmaps of one block.
use oxbow.Prelude.{
  ℕ, ◌≤◌, ◌<◌, ◌≡◌, refl, Bool, true, false, ◌&&◌, ◌||◌, Option, none, some, [], ◌∷◌, ◌++◌, arith,
  ltb, ◌==◌,
}
use oxbow.RangeDirty.{DirtyList, InodeDirty, add_range, add_range_dirty}
use oxbow.Gather.{gather_dirty_bits}
use oxbow.Gather.Runs.{gather_dirty_bits-finds}
use oxbow.RangeDirty.Chain.{ranges, blocks, IsChain}
use oxbow.RangeDirty.Add.{IsList, Added, add_range-appends}
use oxbow.RangeDirty.Inode.{add_range_dirty_journal-appends}
use oxbow.Gather.Progress.{pages_of, dirty_below}

abbrev one_range : DirtyList
one_range = record {
  nodes = record { dirty_pages = record { start = 7; nr = 2 } ∷ []; dirty_blk_nr = 2 } ∷ [];
  tail = none;
}

one_range-IsList : IsList one_range
unfolding IsChain blocks
one_range-IsList = record { chain = (omega arith, refl); cached = λ i e. absurd (not_some e) }
  where
    not_some : {i : ℕ} → ◌≡◌ {A = Option ℕ} none (some i) → ⊥
    not_some e = cc

abbrev inode : InodeDirty
inode = record {
  i_journal_dirty = one_range;
  i_journal_waiting_dirty = λ i. one_range;
  i_journal_waiting_nr_dirty_blks = λ i. 2;
  i_stg_dirty = one_range;
}

add_range-appends_example :
    Added one_range
      (record { start = 12; nr = 5 })
      (add_range true one_range (record { start = 12; nr = 5 }))
add_range-appends_example =
    add_range-appends one_range (record { start = 12; nr = 5 }) one_range-IsList

add_range_dirty_journal-appends_example :
    (inode' : InodeDirty) × (add_range_dirty true true inode 12 5 true 0 ≡ (true, inode'))
    × (ranges inode'.i_journal_dirty.nodes
        ≡ ranges one_range.nodes ++ (record { start = 12; nr = 5 } ∷ []))
    × IsList inode'.i_journal_dirty
    × (ranges (inode'.i_journal_waiting_dirty 0).nodes
        ≡ ranges one_range.nodes ++ (record { start = 12; nr = 5 } ∷ []))
    × IsList (inode'.i_journal_waiting_dirty 0)
    × (inode'.i_journal_waiting_nr_dirty_blks 0 ≡ 7)
    × (inode'.i_stg_dirty ≡ one_range)
add_range_dirty_journal-appends_example =
    add_range_dirty_journal-appends inode 12 5 0 (omega arith) one_range-IsList one_range-IsList

-- Pages 3 to 6 are dirty, and page 9 is locked.
abbrev three_to_six : ℕ → Bool
three_to_six p = ltb 2 p && ltb p 7

abbrev nine : ℕ → Bool
nine p = p == 9

not_locked : (p : ℕ) → three_to_six p ≡ true → nine p ≡ false
not_locked p h = ground arith

gather_dirty_bits-finds_example :
    let (ok, s) = gather_dirty_bits 2 three_to_six nine in
    (ok ≡ true)
    × (pages_of s.calls ≡ dirty_below 16384 three_to_six 8192)
    × ((p : ℕ) → p < 8192 → s.dirty p ≡ false)
    × ((p : ℕ) → p < 8192 → s.lock p ≡ (three_to_six p || nine p))
    × ((p : ℕ) → 8192 ≤ p → (s.dirty p ≡ three_to_six p) × (s.lock p ≡ nine p))
gather_dirty_bits-finds_example = gather_dirty_bits-finds 2 three_to_six nine not_locked
