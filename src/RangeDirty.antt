-- ===== src/RangeDirty.antt =====
-- Lists of dirty page ranges: oxbow/secure_daemon/src/libfs/shm.c and `struct inode_range_dirty` of
-- oxbow/secure_daemon/include/fs/fs.h. A chain of nodes is a list of nodes, and a pointer into it is a
-- position; a null tail pointer is `none`. A node holds the ranges in use, `count` is their number.
-- `alloc` says whether the slab has a node. The slab itself is not modelled.
pub mod Chain
pub mod Add
pub mod Inode
pub mod Frames
use oxbow.Prelude.{
  ℕ, zero, suc, ◌+◌, Bool, true, false, Option, none, some, List, [], ◌∷◌, ◌++◌, ◌==◌,
  if◌then◌else◌, length, take, drop, update, add32,
}

pub record RangeDirty : Type 0 where
  pub start : ℕ
  pub nr : ℕ

pub record Ird : Type 0 where
  pub dirty_pages : List RangeDirty
  pub dirty_blk_nr : ℕ

-- `RANGE_DIRTY_ENT_MAX`
abbrev pub range_dirty_ent_max : ℕ
range_dirty_ent_max = 340

abbrev pub ird_count : Ird → ℕ
ird_count ird = length ird.dirty_pages

abbrev pub new_ird : Ird
new_ird = record { dirty_pages = []; dirty_blk_nr = 0 }

-- A chain and the cached pointer to the node that took the last range.
pub record DirtyList : Type 0 where
  pub nodes : List Ird
  pub tail : Option ℕ

-- The fields of `struct inode` that hold the ranges.
pub record InodeDirty : Type 0 where
  pub i_journal_dirty : DirtyList
  pub i_journal_waiting_dirty : ℕ → DirtyList
  pub i_journal_waiting_nr_dirty_blks : ℕ → ℕ
  pub i_stg_dirty : DirtyList

-- The node is full, so a new one goes behind it.
pub alloc_next_ird : Bool → Ird → Option (List Ird)
alloc_next_ird alloc ird = if alloc then some (ird ∷ new_ird ∷ []) else none

pub shifted : Ird → Option (List Ird × ℕ) → Option (List Ird × ℕ)
shifted ird none = none
shifted ird (some (l, i)) = some (ird ∷ l, suc i)

pub at_second : Option (List Ird) → Option (List Ird × ℕ)
at_second none = none
at_second (some l) = some (l, 1)

-- The chain from a node on, and the position in it of the first node with room.
pub get_next_ird : Bool → List Ird → Option (List Ird × ℕ)
unfolding alloc_next_ird shifted at_second
get_next_ird alloc [] = none
get_next_ird alloc (ird ∷ []) =
    if ird_count ird == range_dirty_ent_max
    then at_second (alloc_next_ird alloc ird)
    else some (ird ∷ [], 0)
get_next_ird alloc (ird ∷ next ∷ l) =
    let rest = shifted ird (get_next_ird alloc (next ∷ l)) in
    if ird_count ird == range_dirty_ent_max then rest else some (ird ∷ next ∷ l, 0)

-- The range goes behind those of the node at the position.
pub put_range : List Ird → ℕ → RangeDirty → List Ird
put_range [] i rd = []
put_range (ird ∷ l) zero rd =
    record {
      dirty_pages = ird.dirty_pages ++ (rd ∷ []);
      dirty_blk_nr = add32 ird.dirty_blk_nr rd.nr;
    }
    ∷ l
put_range (ird ∷ l) (suc i) rd = ird ∷ put_range l i rd

pub start_at : Option ℕ → ℕ
start_at none = 0
start_at (some i) = i

pub put_at : ℕ → List Ird → RangeDirty → Option (List Ird × ℕ) → Option DirtyList
unfolding put_range
put_at i before rd none = none
put_at i before rd (some (l, k)) =
    some (record { nodes = before ++ put_range l k rd; tail = some (i + k) })

-- The part that both kinds of lists share: from the cached node, or from the start, the first node with
-- room takes the range, and becomes the cached one.
pub add_range : Bool → DirtyList → RangeDirty → Option DirtyList
unfolding start_at get_next_ird put_at
add_range alloc d rd =
    let i = start_at d.tail in put_at i (take i d.nodes) rd (get_next_ird alloc (drop i d.nodes))

-- The result, 0 or -1, is whether it succeeded; the ranges that callers pass are not negative.
pub add_range_dirty_staging : Bool → InodeDirty → ℕ → ℕ → Bool × InodeDirty
unfolding add_range
add_range_dirty_staging alloc inode start nr =
    if nr == 0
    then (true, inode)
    else elim (add_range alloc inode.i_stg_dirty (record { start = start; nr = nr })) [
      | none ↦ (false, inode)
      | some d ↦ (true, record inode { i_stg_dirty = d })
    ]

-- The cached pointers are set at the end, so a failure of the second list leaves the first with the
-- range and its old pointer.
pub add_range_dirty_journal : Bool → Bool → InodeDirty → ℕ → ℕ → ℕ → Bool × InodeDirty
unfolding add_range
add_range_dirty_journal alloc alloc_waiting inode start nr df_id =
    let rd : RangeDirty = record { start = start; nr = nr } in
    let waiting = inode.i_journal_waiting_dirty df_id in
    if nr == 0 then (true, inode) else elim (add_range alloc inode.i_journal_dirty rd) [
      | none ↦ (false, inode)
      | some d ↦ elim (add_range alloc_waiting waiting rd) [
        | none ↦ (
          false,
          record inode {
            i_journal_dirty = record { nodes = d.nodes; tail = inode.i_journal_dirty.tail };
          },
        )
        | some w ↦ (
          true,
          record inode {
            i_journal_dirty = d;
            i_journal_waiting_dirty = update inode.i_journal_waiting_dirty df_id w;
            i_journal_waiting_nr_dirty_blks =
                update inode.i_journal_waiting_nr_dirty_blks df_id
                  (add32 (inode.i_journal_waiting_nr_dirty_blks df_id) nr);
          },
        )
      ]
    ]

pub add_range_dirty : Bool → Bool → InodeDirty → ℕ → ℕ → Bool → ℕ → Bool × InodeDirty
unfolding add_range_dirty_journal add_range_dirty_staging
add_range_dirty alloc alloc_waiting inode start nr is_journal df_id =
    if is_journal
    then add_range_dirty_journal alloc alloc_waiting inode start nr df_id
    else add_range_dirty_staging alloc inode start nr

-- The snapshot keeps the chain; the live list starts again with its first node, emptied.
pub snapshot_ird : List Ird → List Ird × List Ird
snapshot_ird l = (l, new_ird ∷ [])

-- Of the nodes, the first stays, emptied.
pub free_ird_except_first : List Ird → List Ird
free_ird_except_first [] = []
free_ird_except_first (ird ∷ l) = new_ird ∷ []

-- The sum of the nodes' counters, as a 32-bit word.
pub inode_get_stg_dirty_blocks_nr : List Ird → ℕ
inode_get_stg_dirty_blocks_nr [] = 0
inode_get_stg_dirty_blocks_nr (ird ∷ l) = add32 ird.dirty_blk_nr (inode_get_stg_dirty_blocks_nr l)
