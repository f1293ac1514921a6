-- ===== src/Checkpoint/Passes.antt =====
-- The passes one after the other, on the tags of a transaction in their order.
use oxbow.Prelude.{
  ℕ, ◌+◌, ◌*◌, ◌≤◌, ◌<◌, ◌≡◌, ◌≢◌, refl, sym, ap, ◌∙◌, inl, inr, Bool, Option, some, List, [], ◌∷◌,
  ◌++◌, leb, u32, All, length, Bool-cases, arith,
}
use mathlib.Core.Option.{bind}
use mathlib.Core.Option
use mathlib.Core.Path.{subst}
use oxbow.Checkpoint.{TagListNode, invalid_start, behind, optimize, coalesce}
use oxbow.Checkpoint.View.{total, source_of, writers, IsTag, IsNode}
use oxbow.Checkpoint.Groups.{
  Groups, group_at, group_at-Groups, OfKind, SameCopies, SameCopies-refl, SameCopies-trans,
}
use oxbow.Checkpoint.Optimize.{optimize-SameCopies}
use oxbow.Checkpoint.Coalesce.{Grouped, coalesce-SameCopies}
use oxbow.Checkpoint.Orders.{
  twice_behind, All-behind, total-behind, writers-behind, GroupsFrom-behind, asked-source_of,
}
use oxbow.Checkpoint.Transfer.{Logs, Progress, Event, dispatch_io, transfer}
use oxbow.Checkpoint.Transfer.Address.{log_address, is_placed, IsLogs}
use oxbow.Checkpoint.Transfer.Position.{placed, IsAt}
use oxbow.Checkpoint.Transfer.Copied.{or_else-none, copied, copies, asked}
use oxbow.Checkpoint.Transfer.Loop.{transfer-copies}

abbrev pub start_progress : Progress
start_progress = record {
  last_src_start_baddr_group = invalid_start;
  current_src_start_baddr = 0;
  cur_buf_size = 0;
}

-- Pass 5 on a list of tags that has the last one first, with enough fuel, and the dispatch behind the
-- loop.
pub transfer_tags : Logs → ℕ → List TagListNode → Option (List Event)
transfer_tags logs max_buf ns =
    bind
      (transfer (total ns + 2 * length (behind ns [])) logs max_buf start_progress (behind ns []))
      (λ es. some (es ++ (dispatch_io ∷ [])))

-- Passes 3 to 5.
pub checkpoint_tags : Logs → ℕ → List TagListNode → Option (List Event)
checkpoint_tags logs max_buf tags =
    bind (optimize [] tags)
      (λ os. bind (coalesce invalid_start [] (behind os [])) (transfer_tags logs max_buf))

-- A group is an address in a log.
OfKind-Grouped :
    (logs : Logs) (kind : ℕ → Bool)
    → IsLogs logs
    → (ns : List TagListNode) → All (OfKind (is_placed logs kind)) ns
    → All Grouped ns
OfKind-Grouped logs kind w [] h = tt
OfKind-Grouped logs kind w (n ∷ ns) (k, h) =
    let (same, inside) = placed logs kind n.src_start_baddr n.stage_tx k in
    let top = w.addressed (kind n.src_start_baddr) in
    ((λ e. absurd (omega (arith, inside, top, e))), OfKind-Grouped logs kind w ns h)

group_at-Grouped : (ns : List TagListNode) (p : ℕ) → All Grouped ns → group_at ns p ≢ invalid_start
group_at-Grouped [] p h = omega arith
group_at-Grouped (n ∷ ns) p (g, h) = elim (Bool-cases (leb (total ns) p)) [
  | inl q ↦ rw q g
  | inr q ↦ rw q (group_at-Grouped ns p h)
]

pub start-IsAt :
    (logs : Logs) (kind : ℕ → Bool) (gs : ℕ → ℕ)
    → gs 0 ≢ invalid_start
    → IsAt logs kind gs start_progress 0
unfolding log_address
start-IsAt logs kind gs valid = record {
  continued = λ e. absurd (valid (sym e));
  begun = λ e. refl;
}

-- The group of each block of the log that the tags stand for.
abbrev pub groups_of : List TagListNode → ℕ → ℕ
groups_of tags = group_at (behind tags [])

module _ (logs : Logs) (kind : ℕ → Bool) (max_buf : ℕ) (w : IsLogs logs) where
  transfer_tags-copies :
      (gs : ℕ → ℕ) (ns : List TagListNode)
      → gs 0 ≢ invalid_start
      → All IsNode ns
      → All (OfKind (is_placed logs kind)) ns
      → Groups gs ns
      → (es : List Event) × (transfer_tags logs max_buf ns ≡ some (es ++ (dispatch_io ∷ [])))
        × ((d : ℕ) → copied es d ≡ Option.map (log_address logs kind gs) (source_of ns d))
        × ((d : ℕ) → copies es d ≡ writers ns d)
  unfolding transfer_tags bind
  transfer_tags-copies gs ns valid nodes kinds groups =
      let back = twice_behind ns in
      let from = (GroupsFrom-behind gs (behind ns []) [] (rw back groups)).0 in
      let (es, run, same, once) =
        transfer-copies logs kind gs w max_buf (total ns + 2 * length (behind ns [])) start_progress
          0 (behind ns []) (All-behind IsNode ns [] nodes tt)
          (All-behind (OfKind (is_placed logs kind)) ns [] kinds tt) from
          (start-IsAt logs kind gs valid) (omega (arith, total-behind ns [])) in
      (
        es,
        rw run refl,
        (λ d.
            same d
            ∙ or_else-none (asked (log_address logs kind gs) 0 (behind ns []) d)
            ∙ asked-source_of (log_address logs kind gs) (behind ns []) [] d
            ∙ ap (λ l. Option.map (log_address logs kind gs) (source_of l d)) back),
        (λ d. omega (arith, once d, writers-behind ns [] d)),
      )

  -- Pass 4 on the list of pass 3, which has the last tag first.
  coalesce-kept :
      (os : List TagListNode)
      → All IsNode os
      → All (OfKind (is_placed logs kind)) os
      → total os < u32
      → (ns : List TagListNode) × (coalesce invalid_start [] (behind os []) ≡ some ns)
        × All IsNode ns
        × ((d : ℕ) → writers ns d ≤ writers os d)
        × SameCopies ns os
  coalesce-kept os nodes kinds small =
      let back = twice_behind os in
      let (ns, run, nodes', le, same) =
        coalesce-SameCopies (behind os []) invalid_start []
          (OfKind-Grouped logs kind w (behind os [])
            (All-behind (OfKind (is_placed logs kind)) os [] kinds tt))
          (All-behind IsNode os [] nodes tt) tt refl (omega (arith, ap total back, small)) in
      (
        ns,
        run,
        nodes',
        (λ d. omega (arith, le d, ap (λ l. writers l d) back)),
        subst (λ l. SameCopies ns l) back same,
      )

  -- When every tag is marked for the log that its group begins in, its blocks have addresses, and there
  -- are fewer than 2^32 blocks in all, the passes come to an end without an abort,
  -- and the last requests are dispatched. A block of the file
  -- system is then copied from the block of the log that the last tag for it has, at the address that
  -- counting from the beginning of its group, round the log, gives; it is not written when no tag is for
  -- it, and no block is written more than once.
  pub checkpoint_tags-copies :
      (tags : List TagListNode)
      → All IsTag tags
      → All (OfKind (is_placed logs kind)) tags
      → total tags < u32
      → (es : List Event) × (checkpoint_tags logs max_buf tags ≡ some (es ++ (dispatch_io ∷ [])))
        × ((d : ℕ)
            → copied es d
              ≡ Option.map (log_address logs kind (groups_of tags)) (source_of (behind tags []) d))
        × ((d : ℕ) → copies es d ≤ 1)
  unfolding checkpoint_tags bind
  checkpoint_tags-copies tags ok kinds small =
      let all = behind tags [] in
      let all_kinds = All-behind (OfKind (is_placed logs kind)) tags [] kinds tt in
      let (os, run, nodes, once, same) =
        optimize-SameCopies tags [] [] ok tt (λ d. omega arith) (SameCopies-refl []) in
      let (ns, run', nodes', le, same') =
        coalesce-kept os nodes (same.log.kinds (is_placed logs kind) all_kinds)
          (omega (arith, same.log.length_kept, total-behind tags [], small)) in
      let whole = SameCopies-trans ns os all same' same in
      let valid = group_at-Grouped all 0 (OfKind-Grouped logs kind w all all_kinds) in
      let (es, run'', copied_all, count) =
        transfer_tags-copies (groups_of tags) ns valid nodes'
          (whole.log.kinds (is_placed logs kind) all_kinds)
          (whole.log.groups (groups_of tags) (group_at-Groups all)) in
      (
        es,
        rw run (rw run' run''),
        (λ d.
            copied_all d
            ∙ ap (Option.map (log_address logs kind (groups_of tags))) (whole.sources d)),
        (λ d. omega (arith, count d, le d, once d)),
      )
