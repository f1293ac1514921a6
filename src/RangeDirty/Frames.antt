-- ===== src/RangeDirty/Frames.antt =====
-- Ranges dumped to blocks: `count_ird_dump_blocks` and `deserialize_ird_compact`.
use oxbow.Prelude.{
  ℕ, ◌+◌, ◌-◌, ◌*◌, ◌/◌, ◌%◌, ◌≤◌, ◌<◌, ◌≡◌, Bool, Option, none, some, List, [], ◌∷◌, ◌++◌, arith,
  leb, if◌then◌else◌, length, u32, add64,
}
use oxbow.RangeDirty.{RangeDirty, Ird, ird_count, new_ird, DirtyList, add_range}
use oxbow.RangeDirty.Chain.{ranges}
use oxbow.RangeDirty.Add.{IsList}

-- `struct ird_frame_entry`
pub record FrameEntry : Type 0 where
  pub delta : ℕ
  pub len : ℕ

-- A block: `struct ird_frame_header`, and the entries that its `n_entries` counts.
pub record Frame : Type 0 where
  pub base_pg : ℕ
  pub ents : List FrameEntry

-- The sizes of both in bytes; they are packed.
abbrev pub frame_header_size : ℕ
frame_header_size = 10

abbrev pub frame_entry_size : ℕ
frame_entry_size = 8

unfoldable pub total_entries : List Ird → ℕ
total_entries [] = 0
total_entries (ird ∷ l) = ird_count ird + total_entries l

-- The number of blocks is a `uint32_t`.
pub count_ird_dump_blocks : List Ird → ℕ
unfolding total_entries
count_ird_dump_blocks l =
    let entries_per_block = (4096 - frame_header_size) / frame_entry_size in
    (total_entries l + entries_per_block - 1) / entries_per_block % u32

-- For fewer than 2 ^ 32 entries, as many blocks are counted as hold all entries, and no more.
count_ird_dump_blocks-enough :
    (l : List Ird)
    → total_entries l < u32
    → let n = count_ird_dump_blocks l in
      (total_entries l ≤ 510 * n) × (0 < n → 510 * (n - 1) < total_entries l)
unfolding count_ird_dump_blocks
count_ird_dump_blocks-enough l small = (omega arith, λ some_blocks. omega (arith, some_blocks))

-- The entries of one block, from page `cur` on.
pub add_entries : Bool → ℕ → List FrameEntry → DirtyList → Option DirtyList
add_entries alloc cur [] d = some d
add_entries alloc cur (e ∷ l) d =
    let start = add64 cur e.delta in
    elim (add_range alloc d (record { start = start; nr = e.len })) [
      | none ↦ none
      | some d' ↦ add_entries alloc (add64 start e.len) l d'
    ]

pub add_frames : Bool → List Frame → DirtyList → Option DirtyList
unfolding add_entries
add_frames alloc [] d = some d
add_frames alloc (f ∷ l) d =
    if leb (frame_header_size + length f.ents * frame_entry_size) 4096
    then elim (add_entries alloc f.base_pg f.ents d) [
      | none ↦ none
      | some d' ↦ add_frames alloc l d'
    ]
    else none

-- The head node is reset, and is the tail at first.
pub deserialize_ird_compact : Bool → List Frame → Option DirtyList
unfolding add_frames
deserialize_ird_compact alloc frames =
    add_frames alloc frames (record { nodes = new_ird ∷ []; tail = some 0 })

-- The ranges that a block stands for: each starts `delta` pages behind the end of the one before.
pub decode : ℕ → List FrameEntry → List RangeDirty
decode cur [] = []
decode cur (e ∷ l) =
    let start = add64 cur e.delta in
    record { start = start; nr = e.len } ∷ decode (add64 start e.len) l

pub decode_all : List Frame → List RangeDirty
decode_all [] = []
decode_all (f ∷ l) = decode f.base_pg f.ents ++ decode_all l

-- No block has more entries than fit.
unfoldable pub AllFit : List Frame → Type 0
AllFit [] = Unit
AllFit (f ∷ l) = (length f.ents ≤ 510) × AllFit l

-- A result that holds the ranges `l` behind those of `d`, in a well-formed chain.
abbrev Read : DirtyList → List RangeDirty → Option DirtyList → Type 0
Read d l o =
    (d' : DirtyList) × ((o ≡ some d') × (ranges d'.nodes ≡ ranges d.nodes ++ l) × IsList d')
