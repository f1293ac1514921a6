-- ===== src/DirtyMgmt.antt =====
-- The counters of dirty pages: oxbow/devfs/src/common/dirty_mgmt.c. A process counts its own pages and
-- passes them on to the counter that all processes share, in multiples of 1024. Each atomic operation
-- sequence is run as one step. The creation of the shared file is not modelled.
pub mod Account
use oxbow.Prelude.{
  ℕ, ◌*◌, ◌/◌, Bool, true, false, Option, none, some, leb, if◌then◌else◌, add64, sub64,
}

-- `struct dirty_page_counter`
pub record DirtyPageCounter : Type 0 where
  pub count : ℕ
  pub prev_count : ℕ

-- `proc_dirty_counter` and `*global_dirty_counter`
pub record Counters : Type 0 where
  pub proc : DirtyPageCounter
  pub global : DirtyPageCounter

-- `DIRTY_PAGE_UPDATE_GLOBAL_THRESHOLD`
abbrev pub update_global_threshold : ℕ
update_global_threshold = 1024

-- `DIRTY_PAGE_THRESHOLD`
abbrev pub dirty_page_threshold : ℕ
dirty_page_threshold = 4096

pub increment_dirty_page_count : Counters → ℕ → Counters
increment_dirty_page_count c n =
    let prev = c.proc.prev_count in
    let cur = add64 c.proc.count n in
    let diff = if leb prev cur then sub64 cur prev else 0 in
    let added = diff / update_global_threshold * update_global_threshold in
    if leb update_global_threshold diff
    then record {
      proc = record { count = cur; prev_count = cur };
      global = record c.global { count = add64 c.global.count added };
    }
    else record c { proc = record { count = cur; prev_count = prev } }

pub clear_process_dirty_counter : Counters → Counters
clear_process_dirty_counter c =
    let to_subtract = c.proc.prev_count / update_global_threshold * update_global_threshold in
    let left = if leb to_subtract c.global.count then sub64 c.global.count to_subtract else 0 in
    record {
      proc = record { count = 0; prev_count = 0 };
      global = record c.global { count = left };
    }

-- The shared counter, absent if it could not be mapped, and whether the threshold was reached.
pub check_and_reset_global_dirty_threshold :
    Option DirtyPageCounter → Bool × Option DirtyPageCounter
check_and_reset_global_dirty_threshold none = (false, none)
check_and_reset_global_dirty_threshold (some g) =
    if leb dirty_page_threshold g.count
    then (true, some (record { count = 0; prev_count = 0 }))
    else (false, some g)
