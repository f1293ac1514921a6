-- ===== src/JournalLog/Refine.antt =====
-- What a caller of the journal log's functions may rely on.
use oxbow.Prelude.{
  Distinct, ℕ, ◌+◌, ◌-◌, ◌*◌, ◌/◌, ◌%◌, ◌≤◌, ◌<◌, ◌≡◌, refl, ◌≢◌, Bool, true, false, none, some,
  ◌++◌, arith, ◌==◌, if◌then◌else◌, u64, u32, add64, sub64,
}
use native.Mathlib.Nat.{mod-eq_of_lt}
use oxbow.JournalLog.{
  JournalLog, bytes_to_nblks, alloc_journal_space, update_log_state, free_journal_space, empty_log,
  split_log, get_chunck_start,
}
use oxbow.JournalLog.Alloc.{
  IsValid, size_of, used_of, live, blocks_from, live-Distinct, taken, taken-IsValid, live-taken,
  released, released-IsValid, live-released, alloc-some,
}
use oxbow.JournalLog.Advance.{area}

-- Allocation of `size` bytes: on a valid log with enough free blocks, `alloc_journal_space`
-- succeeds for a multiple of the block size. It returns the head, appends the blocks from there on to the blocks in use,
-- and leaves a valid log, whose blocks in use are all different.
pub alloc_journal_space_refines :
    {j : JournalLog} (size : ℕ)
    → IsValid j
    → size % 4096 ≡ 0
    → bytes_to_nblks size ≤ j.n_free_blks
    → (j' : JournalLog) × (alloc_journal_space j size ≡ some (j.head, j'))
      × (live j' ≡ live j ++ blocks_from j j.head (bytes_to_nblks size))
      × IsValid j'
      × Distinct (live j')
alloc_journal_space_refines {j} size v aligned room =
    let n = bytes_to_nblks size in
    let v' = taken-IsValid n v room in
    (
      taken j n,
      alloc-some j size aligned room v.counted v.free_in,
      live-taken n v room,
      v',
      live-Distinct v',
    )

-- Advancing the log after the data of a transaction has been written: on a valid log with `n` free
-- blocks, `update_log_state` appends the next `n` blocks to the blocks in use, and leaves a valid
-- log, whose blocks in use are all different.
pub update_log_state_refines :
    {j : JournalLog} (n : ℕ)
    → IsValid j
    → n ≤ j.n_free_blks
    → (live (update_log_state j n) ≡ live j ++ blocks_from j j.head n)
      × IsValid (update_log_state j n)
      × Distinct (live (update_log_state j n))
unfolding update_log_state
update_log_state_refines n v room =
    (live-taken n v room, taken-IsValid n v room, live-Distinct (taken-IsValid n v room))

pub update_log_state-taken : (j : JournalLog) (n : ℕ) → update_log_state j n ≡ taken j n
unfolding update_log_state
update_log_state-taken j n = refl

pub free_journal_space-released :
    (j : JournalLog) (size : ℕ)
    → size % 4096 ≡ 0
    → free_journal_space j j.tail size true
      ≡ some (some (released j (bytes_to_nblks size)).tail, released j (bytes_to_nblks size))
unfolding free_journal_space
free_journal_space-released j size aligned = ground arith

-- On a valid log with at least `size` bytes in use, a multiple of the block size, freeing `size`
-- bytes at the tail removes exactly the oldest blocks from those in use, writes the new tail to
-- the superblock if asked to, and leaves a valid log. Freeing anywhere else than at the tail does
-- not return.
pub free_journal_space_refines :
    {j : JournalLog} (start size : ℕ) (sync : Bool)
    → IsValid j
    → size % 4096 ≡ 0
    → bytes_to_nblks size ≤ used_of j
    → (start ≢ j.tail → free_journal_space j start size sync ≡ none)
      × ((j' : JournalLog) × (free_journal_space j j.tail size sync
            ≡ some (if sync then some j'.tail else none, j'))
          × (live j ≡ blocks_from j j.tail (bytes_to_nblks size) ++ live j')
          × IsValid j')
unfolding free_journal_space
free_journal_space_refines {j} start size sync v aligned held =
    let n = bytes_to_nblks size in
    (
      λ ne. ground arith,
      (released j n, ground arith, live-released n v held, released-IsValid n v held),
    )

empty_log-IsValid :
    (df_id first last : ℕ)
    → first ≤ last
    → area first last < u32
    → last + area first last < u64
    → IsValid (empty_log df_id first last) × (used_of (empty_log df_id first last) ≡ 0)
empty_log-IsValid df_id first last ordered counted addressed = (
  record {
    ordered = ordered;
    head_in = omega arith;
    tail_in = omega arith;
    free_in = omega arith;
    counted = counted;
    addressed = addressed;
    linked = empty_linked;
  },
  omega arith,
)
  where
    empty_linked :
        first - first ≡ (first - first + used_of (empty_log df_id first last)) % area first last
    empty_linked = omega (
      arith,
      mod-eq_of_lt {n = first - first + used_of (empty_log df_id first last)} {m = area first last}
          (omega arith),
    )

-- A log area of at least two and fewer than 2 ^ 32 blocks, at 64-bit addresses, is split into two
-- valid empty logs of half the size, which lie in the area, one behind the other.
pub split_log-IsValid :
    (first maxlen : ℕ)
    → 2 ≤ maxlen
    → maxlen < u32
    → first + 2 * maxlen < u64
    → let (a, b) = split_log first maxlen in
      IsValid a
      × IsValid b
      × (used_of a ≡ 0)
      × (used_of b ≡ 0)
      × (a.first ≡ first)
      × (b.first ≡ a.last + 1)
      × (size_of a ≡ maxlen / 2)
      × (size_of b ≡ maxlen / 2)
      × (b.last < first + maxlen)
unfolding split_log
split_log-IsValid first maxlen two counted addressed =
    let half = maxlen / 2 in
    let last1 = sub64 (add64 first half) 1 in
    let first2 = add64 last1 1 in
    let a = empty_log-IsValid 0 first last1 (omega arith) (omega arith) (omega arith) in
    let b =
      empty_log-IsValid 1 first2 (sub64 (add64 first2 half) 1) (omega arith) (omega arith)
        (omega arith) in
    (a.0, b.0, a.1, b.1, refl, omega arith, omega arith, omega arith, omega arith)

pub get_chunck_start-first :
    (j : JournalLog) (req_id : ℕ) → (req_id == 0) ≡ true → get_chunck_start j req_id ≡ j.head
unfolding get_chunck_start
get_chunck_start-first j req_id first = rw first refl

pub get_chunck_start-later :
    (j : JournalLog) (req_id : ℕ)
    → (req_id == 0) ≡ false
    → j.head + req_id * 8192 + 1 < u64
    → get_chunck_start j req_id ≡ j.head + req_id * 8192 + 1
unfolding get_chunck_start
get_chunck_start-later j req_id later small = rw later (omega arith)
