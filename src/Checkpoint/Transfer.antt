-- ===== src/Checkpoint/Transfer.antt =====
-- Pass 5: the blocks of the log that the tags stand for are copied to the file system. The blocks of a group
-- are counted on, round the log that it lies in. One round of the loop works on one node of the list; a tag
-- that goes round the end of the log becomes two.
pub mod Address
pub mod Ring
pub mod Copied
pub mod Position
pub mod Turns
pub mod Parts
pub mod Loop
use oxbow.Prelude.{
  ℕ, zero, suc, ◌%◌, Bool, ◌&&◌, Option, none, some, List, [], ◌∷◌, ◌++◌, ltb, leb, ◌==◌,
  if◌then◌else◌, u32, add64, sub64, sub32,
}
use mathlib.Core.Option.{bind}
use oxbow.JournalLog.{check_wrap_around, nblks_to_bytes}
use oxbow.Checkpoint.{TagListNode, invalid_start}

-- The first and the last block of the stage log, which the disk format gives, and of the journal of the
-- transaction.
pub record Logs : Type 0 where
  pub first_blk : Bool → ℕ
  pub last_blk : Bool → ℕ

-- What the loop keeps from round to round.
pub record Progress : Type 0 where
  pub last_src_start_baddr_group : ℕ
  pub current_src_start_baddr : ℕ
  pub cur_buf_size : ℕ

-- A read request and a write request for `n` blocks, from `src` to `dst`; and the dispatch of the requests
-- so far, all reads before all writes.
pub data Event : Type 0 where
  copy_blks : ℕ → ℕ → ℕ → Event
  dispatch_io : Event

pub record Turn : Type 0 where
  pub events : List Event
  pub progress : Progress
  pub rest : List TagListNode

-- The requests for a node whose address in the log is known.
pub emit : ℕ → ℕ → TagListNode → List Event × ℕ
emit max_buf size n =
    let size' = add64 size (nblks_to_bytes n.cnt) in
    if n.start == invalid_start
    then ([], size)
    else if leb max_buf size'
    then (copy_blks n.src_start_baddr n.start n.cnt ∷ (dispatch_io ∷ []), 0)
    else (copy_blks n.src_start_baddr n.start n.cnt ∷ [], size')

pub finish_turn : ℕ → ℕ → List TagListNode → List Event × ℕ → Turn
finish_turn group cur rest (es, size) = record {
  events = es;
  progress = record {
    last_src_start_baddr_group = group;
    current_src_start_baddr = cur;
    cur_buf_size = size;
  };
  rest = rest;
}

-- The tag for the blocks behind the end of the log.
pub second_tag : TagListNode → ℕ → TagListNode
second_tag n n1 = record n {
  start = if n.start == invalid_start then invalid_start else add64 n.start n1;
  cnt = sub32 n.cnt n1;
}

pub split_turn : Logs → ℕ → Progress → TagListNode → List TagListNode → ℕ → Turn
split_turn logs max_buf s n ns cur =
    let n1 = add64 (sub64 (logs.last_blk n.stage_tx) cur) 1 % u32 in
    let more = ltb 0 (sub32 n.cnt n1) in
    let start = if more && (n1 == 0) then invalid_start else n.start in
    finish_turn n.src_start_baddr (logs.first_blk n.stage_tx)
      (if more then second_tag n n1 ∷ ns else ns)
      (emit max_buf s.cur_buf_size (record n { start = start; src_start_baddr = cur; cnt = n1 }))

pub whole_turn : ℕ → Progress → TagListNode → List TagListNode → ℕ → Turn
whole_turn max_buf s n ns cur =
    finish_turn n.src_start_baddr (add64 cur n.cnt) ns
      (emit max_buf s.cur_buf_size (record n { src_start_baddr = cur }))

pub node_turn : Logs → ℕ → Progress → TagListNode → List TagListNode → ℕ → Turn
unfolding check_wrap_around
node_turn logs max_buf s n ns cur =
    if check_wrap_around cur n.cnt (logs.last_blk n.stage_tx)
    then split_turn logs max_buf s n ns cur
    else whole_turn max_buf s n ns cur

pub current_of : Progress → TagListNode → ℕ
current_of s n =
    if s.last_src_start_baddr_group == n.src_start_baddr
    then s.current_src_start_baddr
    else n.src_start_baddr

pub turn : Logs → ℕ → Progress → TagListNode → List TagListNode → Turn
turn logs max_buf s n ns =
    if n.cnt == 0
    then record { events = []; progress = s; rest = ns }
    else node_turn logs max_buf s n ns (current_of s n)

-- The loop, on fuel.
pub transfer : ℕ → Logs → ℕ → Progress → List TagListNode → Option (List Event)
transfer fuel logs max_buf s [] = some []
transfer zero logs max_buf s (n ∷ ns) = none
transfer (suc fuel) logs max_buf s (n ∷ ns) =
    let t = turn logs max_buf s n ns in
    bind (transfer fuel logs max_buf t.progress t.rest) (λ es. some (t.events ++ es))
