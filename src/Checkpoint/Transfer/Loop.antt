-- ===== src/Checkpoint/Transfer/Loop.antt =====
-- Pass 5 copies what the tags ask for.
use oxbow.Prelude.{
  ℕ, zero, suc, ◌+◌, ◌-◌, ◌*◌, ◌≤◌, ◌<◌, ◌≡◌, refl, sym, ap, ◌∙◌, inl, inr, Bool, true, false, some,
  List, [], ◌∷◌, ◌++◌, ◌==◌, add64, sub64, All, length, Bool-cases, ltb→lt, arith,
}
use mathlib.Core.Option.{bind}
use oxbow.JournalLog.{check_wrap_around}
use oxbow.Checkpoint.{TagListNode}
use oxbow.Checkpoint.View.{total, writers, IsNode}
use oxbow.Checkpoint.Groups.{OfKind}
use oxbow.Checkpoint.Transfer.{Logs, Progress, Event, node_turn, current_of, turn, transfer}
use oxbow.Checkpoint.Transfer.Address.{log_address, is_placed, IsLogs}
use oxbow.Checkpoint.Transfer.Copied.{
  or_else, copied, copies, asked, GroupsFrom, copied-append, copies-append,
}
use oxbow.Checkpoint.Transfer.Position.{placed, IsAt, current_of-lem}
use oxbow.Checkpoint.Transfer.Turns.{fresh, fresh_le, IsTurn}
use oxbow.Checkpoint.Transfer.Parts.{empty_IsTurn, whole_IsTurn, split_turn-parts, parts-IsTurn}

module _ (logs : Logs) (kind : ℕ → Bool) (gs : ℕ → ℕ) (w : IsLogs logs) (max_buf : ℕ) where
  past_end :
      (cur : ℕ) (n : TagListNode)
      → check_wrap_around cur n.cnt (logs.last_blk n.stage_tx) ≡ true
      → logs.last_blk n.stage_tx < sub64 (add64 cur n.cnt) 1
  unfolding check_wrap_around
  past_end cur n q = ltb→lt _ _ q

  before_end :
      (cur : ℕ) (n : TagListNode)
      → check_wrap_around cur n.cnt (logs.last_blk n.stage_tx) ≡ false
      → sub64 (add64 cur n.cnt) 1 ≤ logs.last_blk n.stage_tx
  unfolding check_wrap_around
  before_end cur n q = ground arith

  pub turn-IsTurn :
      (s : Progress) (p : ℕ) (n : TagListNode) (ns : List TagListNode)
      → All IsNode (n ∷ ns)
      → All (OfKind (is_placed logs kind)) (n ∷ ns)
      → GroupsFrom gs p (n ∷ ns)
      → IsAt logs kind gs s p
      → IsTurn logs kind gs s p n ns (turn logs max_buf s n ns)
  unfolding turn node_turn
  turn-IsTurn s p n ns nodes kinds groups at =
      let cur = current_of s n in
      let small = nodes.0.counted in
      let same = (placed logs kind n.src_start_baddr n.stage_tx kinds.0).0 in
      let last : logs.last_blk n.stage_tx ≡ logs.last_blk (kind n.src_start_baddr) =
        ap logs.last_blk same in
      let top = w.addressed (kind n.src_start_baddr) in
      elim (Bool-cases (n.cnt == 0)) [
        | inl z ↦
            rw z (empty_IsTurn logs kind gs w max_buf s p n ns nodes kinds groups at (ground arith))
        | inr z ↦
            let pos : 0 < n.cnt = ground arith in
            let at_p : p + 0 ≡ p = omega arith in
            let group : gs p ≡ n.src_start_baddr = rw at_p at (groups.0 0 pos) in
            let (here, inside) = current_of-lem logs kind gs s n p at group kinds.0 in
            let end : sub64 (add64 cur n.cnt) 1 ≡ cur + n.cnt - 1 =
              omega (arith, inside, top, small, pos) in
            elim (Bool-cases (check_wrap_around cur n.cnt (logs.last_blk n.stage_tx))) [
              | inl q ↦
                  let behind = past_end cur n q in
                  let m = logs.last_blk (kind n.src_start_baddr) + 1 - cur in
                  let lt : m < n.cnt = omega (arith, behind, end, last, inside) in
                  rw z (
                    rw q (
                      rw
                        (split_turn-parts logs kind gs w max_buf s p n ns nodes kinds groups at cur
                          here inside pos refl m refl lt small)
                        (parts-IsTurn logs kind gs w max_buf s p n ns nodes kinds groups at cur here
                          inside pos refl m refl lt small)))
              | inr q ↦ rw z (
                  rw q (
                    whole_IsTurn logs kind gs w max_buf s p n ns nodes kinds groups at cur here
                      inside pos refl (omega (arith, before_end cur n q, end, last)) small))
            ]
      ]

  -- For a list of nodes with valid starts and 32-bit counts, each marked for the log that its group begins
  -- in, inside it or right behind its last block, where `gs` names the groups of the blocks from block `p`
  -- of the log on and the loop stands at that block: the loop of pass 5 ends when it has fuel for each block
  -- and twice for each node. From block `p` on, its requests copy each block of the file system from the
  -- address that the last node with the block asks for, as often as there are nodes for it.
  pub transfer-copies :
      (fuel : ℕ) (s : Progress) (p : ℕ) (ns : List TagListNode)
      → All IsNode ns
      → All (OfKind (is_placed logs kind)) ns
      → GroupsFrom gs p ns
      → IsAt logs kind gs s p
      → total ns + 2 * length ns ≤ fuel + fresh logs s ns
      → (es : List Event) × (transfer fuel logs max_buf s ns ≡ some es)
        × ((d : ℕ) → copied es d ≡ asked (log_address logs kind gs) p ns d)
        × ((d : ℕ) → copies es d ≡ writers ns d)
  unfolding transfer bind
  transfer-copies fuel s p [] nodes kinds groups at enough = ([], refl, (λ d. refl), (λ d. refl))
  transfer-copies zero s p (n ∷ ns) nodes kinds groups at enough =
      absurd (omega (arith, enough, fresh_le logs s (n ∷ ns)))
  transfer-copies (suc fuel) s p (n ∷ ns) nodes kinds groups at enough =
      let t = turn logs max_buf s n ns in
      let r = turn-IsTurn s p n ns nodes kinds groups at in
      let (es, run, same, once) =
        transfer-copies fuel t.progress (p + r.worked_off) t.rest r.nodes r.kinds r.groups r.at
          (r.shorter fuel enough) in
      (
        t.events ++ es,
        rw run refl,
        (λ d.
            copied-append t.events es d
            ∙ ap (λ o. or_else o (copied t.events d)) (same d)
            ∙ sym (r.requests d)),
        (λ d. omega (arith, copies-append t.events es d, once d, r.once d)),
      )
