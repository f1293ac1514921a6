-- ===== src/Checkpoint/View.antt =====
-- What a list of tags stands for, the last tag first: which block of the log comes to a block of the file
-- system. Blocks of the log are counted through the whole list. A later tag wins.
use oxbow.Prelude.{
  ℕ, ◌+◌, ◌-◌, ◌<◌, ◌≡◌, Bool, ◌&&◌, not, Option, none, some, List, [], ◌∷◌, ◌++◌, ltb, leb, ◌==◌,
  if◌then◌else◌, u32, arith,
}
use oxbow.Prelude.{All, ◌⊎◌, false}
use oxbow.Checkpoint.{TagListNode, invalid_start}

-- Whether the tag writes block `d`.
abbrev pub hits : TagListNode → ℕ → Bool
hits n d = not (n.start == invalid_start) && (leb n.start d && ltb d (n.start + n.cnt))

-- The number of blocks of the log.
abbrev pub total : List TagListNode → ℕ
total [] = 0
total (n ∷ ns) = total ns + n.cnt

-- The block of the log that is in block `d` at the end, when the tags are copied in their order.
abbrev pub source_of : List TagListNode → ℕ → Option ℕ
source_of [] d = none
source_of (n ∷ ns) d = if hits n d then some (total ns + (d - n.start)) else source_of ns d

-- The number of tags that write block `d`.
abbrev pub writers : List TagListNode → ℕ → ℕ
writers [] d = 0
writers (n ∷ ns) d = (if hits n d then 1 else 0) + writers ns d

pub total-append : (xs ys : List TagListNode) → total (xs ++ ys) ≡ total xs + total ys
total-append [] ys = omega arith
total-append (x ∷ xs) ys = omega (arith, total-append xs ys)

pub writers-append :
    (xs ys : List TagListNode) (d : ℕ) → writers (xs ++ ys) d ≡ writers xs d + writers ys d
writers-append [] ys d = omega arith
writers-append (x ∷ xs) ys d = omega (arith, writers-append xs ys d)

-- A tag as it was put in: its blocks have addresses that a word can hold.
pub record IsTag (n : TagListNode) : Type 0 where
  pub addressed : n.start + n.cnt < invalid_start
  pub counted : n.cnt < u32

-- A node of the list: such a tag, or an invalid one.
pub record IsNode (n : TagListNode) : Type 0 where
  pub addressed : (n.start ≡ invalid_start) ⊎ (n.start + n.cnt < invalid_start)
  pub counted : n.cnt < u32

-- Whether a tag of `n` blocks from `start` on writes block `d`.
abbrev pub covers : ℕ → ℕ → ℕ → Bool
covers start n d = leb start d && ltb d (start + n)

-- What the nodes are that stand for the rest of `r` behind a later tag: they have its blocks of the log,
-- write those of its blocks that the later tag does not write, and leave the other blocks to the rest of
-- the list.
pub record IsRest (start n : ℕ) (r : TagListNode) (ps : List TagListNode) : Type 0 where
  pub nodes : All IsNode ps
  pub group : All (λ p. (p.src_start_baddr ≡ r.src_start_baddr) × (p.stage_tx ≡ r.stage_tx)) ps
  pub length_kept : total ps ≡ r.cnt
  pub uncovered :
      (d : ℕ) → writers ps d ≡ (if covers start n d then 0 else if hits r d then 1 else 0)
  pub sources :
      (qs : List TagListNode) (d : ℕ)
      → covers start n d ≡ false
      → source_of (ps ++ qs) d ≡ source_of (r ∷ qs) d
