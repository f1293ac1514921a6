-- ===== src/Checkpoint.antt =====
-- The data path of a checkpoint: the passes of do_checkpoint_coalesce in oxbow/devfs/src/journal.c that work
-- on the list of tags. A tag says where the next `cnt` blocks of its group in the log belong in the file
-- system; the tags with the same `src_start_baddr` in a row are a group, whose blocks lie behind each other
-- from that address. Memory for a node is always there. The statistics are left out.
pub mod View
pub mod Cut
pub mod Groups
pub mod Optimize
pub mod Coalesce
pub mod Transfer
pub mod Orders
pub mod Passes
pub mod Disk
pub mod Journal
use oxbow.Prelude.{
  ℕ, ◌%◌, Bool, ◌&&◌, ◌||◌, not, Option, none, some, List, [], ◌∷◌, ◌++◌, ltb, leb, ◌==◌,
  if◌then◌else◌, u32, add64, sub64, add32,
}
use mathlib.Core.Option.{bind}

-- oxbow/devfs/include/journal.h.
pub record TagListNode : Type 0 where
  pub start : ℕ
  pub src_start_baddr : ℕ
  pub cnt : ℕ
  pub stage_tx : Bool

-- (unsigned long)-1, the start of an invalid tag.
abbrev pub invalid_start : ℕ
invalid_start = 18446744073709551615

-- A new node of the group of `r`.
pub new_node : TagListNode → ℕ → ℕ → TagListNode
new_node r start n = record r { start = start; cnt = n % u32 }

-- Pass 3. What an old tag `r` becomes when the later tag has the blocks from `start` on: the nodes from the
-- last one to the first one.
pub shortened : TagListNode → ℕ → TagListNode
shortened r start =
    let n = sub64 start r.start % u32 in
    if n == 0 then record r { start = invalid_start; cnt = n } else record r { cnt = n }

pub cut_inside : ℕ → ℕ → TagListNode → List TagListNode
cut_inside start n r =
    let rest = sub64 (add64 r.start r.cnt) (add64 start n) in
    let behind = if ltb 0 rest then new_node r (add64 start n) rest ∷ [] else [] in
    let covered = if ltb 0 n then new_node r invalid_start n ∷ [] else [] in
    behind ++ (covered ++ (shortened r start ∷ []))

pub cut_front : ℕ → ℕ → TagListNode → List TagListNode
cut_front start n r =
    let rest = sub64 (add64 r.start r.cnt) (add64 start n) in
    let behind = if ltb 0 rest then new_node r (add64 start n) rest ∷ [] else [] in
    let over = sub64 (add64 start n) r.start % u32 in
    behind ++ (record r { start = invalid_start; cnt = over } ∷ [])

pub cut_back : ℕ → ℕ → TagListNode → List TagListNode
cut_back start n r =
    let rest = sub64 (add64 r.start r.cnt) start in
    let covered = if ltb 0 rest then new_node r invalid_start rest ∷ [] else [] in
    covered ++ (shortened r start ∷ [])

pub cut_overlap : ℕ → ℕ → TagListNode → Option (List TagListNode)
cut_overlap start n r =
    let end = add64 start n in
    let end_r = add64 r.start r.cnt in
    if (start == r.start) && (n == r.cnt)
    then some (record r { start = invalid_start } ∷ [])
    else if leb r.start start && leb end end_r
    then some (cut_inside start n r)
    else if leb start r.start && leb end_r end
    then some (record r { start = invalid_start } ∷ [])
    else if ltb start r.start && ltb end end_r
    then some (cut_front start n r)
    else if ltb r.start start && ltb end_r end
    then some (cut_back start n r)
    else none

pub cut : ℕ → ℕ → TagListNode → Option (List TagListNode)
cut start n r =
    if r.start == invalid_start
    then some (r ∷ [])
    else if leb (add64 r.start r.cnt) start || leb (add64 start n) r.start
    then some (r ∷ [])
    else cut_overlap start n r

-- The inner loop goes back from the tag to the head of the list, so the lists of earlier tags have the
-- nearest one first.
pub cut_earlier : ℕ → ℕ → List TagListNode → Option (List TagListNode)
cut_earlier start n [] = some []
cut_earlier start n (r ∷ rs) =
    bind (cut start n r) (λ ps. bind (cut_earlier start n rs) (λ qs. some (ps ++ qs)))

pub optimize : List TagListNode → List TagListNode → Option (List TagListNode)
optimize earlier [] = some earlier
optimize earlier (x ∷ later) =
    bind (cut_earlier x.start x.cnt earlier) (λ kept. optimize (x ∷ kept) later)

-- The tags of `later` behind those of `earlier`, the last one first.
abbrev pub behind : List TagListNode → List TagListNode → List TagListNode
behind [] earlier = earlier
behind (x ∷ later) earlier = behind later (x ∷ earlier)

-- Pass 4, from a node on: the value of `last_src_start_baddr_group` and the nodes before it, the nearest
-- first. There is no node before the head of the list.
pub can_coalesce : TagListNode → TagListNode → Bool
can_coalesce prev n =
    ((n.start == invalid_start) && (prev.start == invalid_start))
    || (not (n.start == invalid_start)
        && (not (prev.start == invalid_start) && (n.start == add64 prev.start prev.cnt)))

pub coalesce_node : TagListNode → List TagListNode → Option (List TagListNode)
coalesce_node n [] = none
coalesce_node n (prev ∷ kept) = some (
    if can_coalesce prev n
    then record prev { cnt = add32 prev.cnt n.cnt } ∷ kept
    else n ∷ (prev ∷ kept))

pub coalesce : ℕ → List TagListNode → List TagListNode → Option (List TagListNode)
coalesce group kept [] = some kept
coalesce group kept (n ∷ later) =
    if group == n.src_start_baddr
    then bind (coalesce_node n kept) (λ k. coalesce group k later)
    else coalesce n.src_start_baddr (n ∷ kept) later
