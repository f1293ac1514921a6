-- ===== src/Checkpoint/Transfer/Turns.antt =====
-- What a round of pass 5 does.
use oxbow.Prelude.{
  ℕ, suc, ◌+◌, ◌-◌, ◌*◌, ◌≤◌, ◌≡◌, Bool, none, some, List, [], ◌∷◌, ◌==◌, if◌then◌else◌, All,
  length, arith,
}
use oxbow.Checkpoint.{TagListNode}
use oxbow.Checkpoint.View.{hits, total, writers, IsNode}
use oxbow.Checkpoint.Groups.{OfKind}
use oxbow.Checkpoint.Transfer.{Logs, Progress, Turn, emit, current_of}
use oxbow.Checkpoint.Transfer.Address.{log_address, is_placed}
use oxbow.Checkpoint.Transfer.Position.{IsAt}
use oxbow.Checkpoint.Transfer.Copied.{or_else, copied, copies, asked, GroupsFrom}

-- The requests for a node from address `a` on.
pub emit-lem :
    (max_buf size : ℕ) (n : TagListNode) (d : ℕ)
    → (copied ((emit max_buf size n).0) d
        ≡ (if hits n d then some (n.src_start_baddr + (d - n.start)) else none))
      × (copies ((emit max_buf size n).0) d ≡ (if hits n d then 1 else 0))
unfolding emit
emit-lem max_buf size n d = ground arith

-- Whether the next address is the first of a log, so that the tag is not split again at once.
unfoldable pub fresh : Logs → Progress → List TagListNode → ℕ
fresh logs s [] = 0
fresh logs s (n ∷ ns) = if current_of s n == logs.first_blk n.stage_tx then 1 else 0

pub fresh_le : (logs : Logs) (s : Progress) (ns : List TagListNode) → fresh logs s ns ≤ 1
unfolding fresh
fresh_le logs s [] = omega arith
fresh_le logs s (n ∷ ns) = ground arith

module _ (logs : Logs) (kind : ℕ → Bool) (gs : ℕ → ℕ) where
  -- What a round does at block `p`: `done` blocks of the log are worked off, with the requests that the
  -- node asks for, and the fuel that is needed falls.
  pub record IsTurn (s : Progress) (p : ℕ) (n : TagListNode) (ns : List TagListNode) (t : Turn)
      : Type 0 where
    pub worked_off : ℕ
    pub nodes : All IsNode t.rest
    pub kinds : All (OfKind (is_placed logs kind)) t.rest
    pub groups : GroupsFrom gs (p + worked_off) t.rest
    pub at : IsAt logs kind gs t.progress (p + worked_off)
    pub requests :
        (d : ℕ)
        → asked (log_address logs kind gs) p (n ∷ ns) d
          ≡ or_else (asked (log_address logs kind gs) (p + worked_off) t.rest d) (copied t.events d)
    pub once : (d : ℕ) → writers (n ∷ ns) d ≡ copies t.events d + writers t.rest d
    pub shorter :
        (fuel : ℕ)
        → total (n ∷ ns) + 2 * length (n ∷ ns) ≤ suc fuel + fresh logs s (n ∷ ns)
        → total t.rest + 2 * length t.rest ≤ fuel + fresh logs t.progress t.rest
