-- ===== src/Tests/Log.antt =====
-- A journal log of ten blocks, five of them in use, whose free blocks go round its end.
use oxbow.Prelude.{
  Distinct, ℕ, ◌+◌, ◌-◌, ◌%◌, ◌<◌, ◌≡◌, refl, ◌≢◌, true, none, some, List, [], ◌++◌, arith,
}
use oxbow.JournalLog.{
  JournalLog, alloc_journal_space, update_log_state, free_journal_space, split_log,
}
use oxbow.JournalLog.Refine.{
  alloc_journal_space_refines, update_log_state_refines, free_journal_space_refines,
  split_log-IsValid,
}
use oxbow.JournalLog.Alloc.{size_of, used_of, IsValid, live, blocks_from}
use oxbow.JournalLog.Bios.{Bio, add_bio_to_bl, add_bios_considering_wrap}
use oxbow.JournalLog.Bios.Spans.{span, writes, add_bio_to_bl_spans}
use oxbow.JournalLog.Bios.Wrap.{IsArea, log_writes, IsCursor, add_bios_considering_wrap_lem}
use oxbow.JournalLog.Advance.{area}

abbrev pub ten_blocks : JournalLog
ten_blocks = record { df_id = 0; first = 10; last = 19; head = 17; tail = 12; n_free_blks = 5 }

pub ten_blocks-IsValid : IsValid ten_blocks
ten_blocks-IsValid = record {
  ordered = omega arith;
  head_in = omega arith;
  tail_in = omega arith;
  free_in = omega arith;
  counted = omega arith;
  addressed = omega arith;
  linked = refl;
}

abbrev pub ten_blocks-IsArea : IsArea ten_blocks
ten_blocks-IsArea = record {
  positive = omega arith;
  ordered = omega arith;
  counted = omega arith;
  addressed = omega arith;
}

alloc_journal_space_refines_example :
    (j' : JournalLog) × (alloc_journal_space ten_blocks 16384 ≡ some (17, j'))
    × (live j' ≡ live ten_blocks ++ blocks_from ten_blocks 17 4)
    × IsValid j'
    × Distinct (live j')
alloc_journal_space_refines_example =
    alloc_journal_space_refines {j = ten_blocks} 16384 ten_blocks-IsValid refl (omega arith)

update_log_state_refines_example :
    (live (update_log_state ten_blocks 3) ≡ live ten_blocks ++ blocks_from ten_blocks 17 3)
    × IsValid (update_log_state ten_blocks 3)
    × Distinct (live (update_log_state ten_blocks 3))
update_log_state_refines_example =
    update_log_state_refines {j = ten_blocks} 3 ten_blocks-IsValid (omega arith)

free_journal_space_refines_example :
    (◌≢◌ {A = ℕ} 11 12 → free_journal_space ten_blocks 11 8192 true ≡ none)
    × ((j' : JournalLog) × (free_journal_space ten_blocks 12 8192 true ≡ some (some j'.tail, j'))
        × (live ten_blocks ≡ blocks_from ten_blocks 12 2 ++ live j')
        × IsValid j')
free_journal_space_refines_example =
    free_journal_space_refines {j = ten_blocks} 11 8192 true ten_blocks-IsValid refl (omega arith)

split_log-IsValid_example :
    let (a, b) = split_log 10 20 in
    IsValid a
    × IsValid b
    × (used_of a ≡ 0)
    × (used_of b ≡ 0)
    × (a.first ≡ 10)
    × (b.first ≡ a.last + 1)
    × (size_of a ≡ 10)
    × (size_of b ≡ 10)
    × (b.last < 30)
split_log-IsValid_example = split_log-IsValid 10 20 (omega arith) (omega arith) (omega arith)

add_bio_to_bl_spans_example : writes (add_bio_to_bl [] 65536 17 3) ≡ writes [] ++ span 17 65536 3
add_bio_to_bl_spans_example = add_bio_to_bl_spans [] 65536 17 3 (omega arith) (omega arith)

add_bios_considering_wrap_lem_example :
    (16384 % 4096 ≡ 0
      → (bl' : List Bio) × (next : ℕ) × (add_bios_considering_wrap ten_blocks [] 17 65536 16384
          ≡ some (bl', next))
        × (writes bl' ≡ writes [] ++ log_writes ten_blocks 17 65536 4)
        × IsCursor ten_blocks next
        × ((next - ten_blocks.first) % area 10 19 ≡ (17 - ten_blocks.first + 4) % area 10 19))
    × (16384 % 4096 ≢ 0 → add_bios_considering_wrap ten_blocks [] 17 65536 16384 ≡ none)
add_bios_considering_wrap_lem_example =
    add_bios_considering_wrap_lem {j = ten_blocks} [] 17 65536 16384 ten_blocks-IsArea (omega arith)
      (omega arith)
