-- ===== src/Checkpoint/Transfer/Parts.antt =====
-- The three ways of a round of pass 5: an empty tag, a whole one, and one that goes round the log.
use oxbow.Prelude.{
  ℕ, zero, suc, ◌+◌, ◌-◌, ◌%◌, ◌≤◌, ◌<◌, ◌≡◌, refl, sym, ap, ◌∙◌, inl, inr, Bool, true, false, none,
  some, List, [], ◌∷◌, ltb, leb, ◌==◌, if◌then◌else◌, u32, add64, sub64, sub32, All, Bool-cases,
  lt→ltb, arith,
}
use oxbow.Checkpoint.{TagListNode, invalid_start}
use oxbow.Checkpoint.View.{hits, IsNode}
use oxbow.Checkpoint.Groups.{OfKind}
use oxbow.Checkpoint.Transfer.{
  Logs, Progress, Turn, emit, finish_turn, second_tag, split_turn, whole_turn, current_of,
}
use oxbow.Checkpoint.Transfer.Address.{place, log_address, is_placed, IsLogs, log_address_run}
use oxbow.Checkpoint.Transfer.Copied.{or_else, or_else_assoc, copied, asked, GroupsFrom}
use oxbow.Checkpoint.Transfer.Position.{InLog, placed, IsAt, after-IsAt}
use oxbow.Checkpoint.Transfer.Turns.{emit-lem, fresh, fresh_le, IsTurn}

module _ (logs : Logs) (kind : ℕ → Bool) (gs : ℕ → ℕ) (w : IsLogs logs) (max_buf : ℕ) where
  module _ (s : Progress) (p : ℕ) (n : TagListNode) (ns : List TagListNode)
      (nodes : All IsNode (n ∷ ns)) (kinds : All (OfKind (is_placed logs kind)) (n ∷ ns))
      (groups : GroupsFrom gs p (n ∷ ns)) (at : IsAt logs kind gs s p) where
    pub empty_IsTurn :
        n.cnt ≡ 0 → IsTurn logs kind gs s p n ns (record { events = []; progress = s; rest = ns })
    empty_IsTurn z = record {
      worked_off = n.cnt;
      nodes = nodes.1;
      kinds = kinds.1;
      groups = groups.1;
      at = (let e : p ≡ p + n.cnt = omega arith in rw (sym e) at);
      requests = λ d. ground arith;
      once = λ d. ground arith;
      shorter = λ fuel h. omega (arith, h, fresh_le logs s ns, fresh_le logs s (n ∷ ns));
    }

    module _ (cur : ℕ) (here : place logs (kind n.src_start_baddr) cur ≡ log_address logs kind gs p)
        (inside : InLog logs kind n.src_start_baddr cur) (some_blks : 0 < n.cnt)
        (is_current : current_of s n ≡ cur) where
      -- The first `m` blocks of the node.
      piece :
          (m : ℕ)
          → m ≤ n.cnt
          → 0 < m
          → cur + m ≤ logs.last_blk (kind n.src_start_baddr) + 1
          → (k : ℕ) → k < m
          → log_address logs kind gs (p + k) ≡ cur + k
      piece m le pos fits k lt =
          let at_cur : log_address logs kind gs p ≡ cur = sym here ∙ ground arith in
          log_address_run logs kind gs p m n.src_start_baddr (λ k l. groups.0 k (omega arith))
            (omega (arith, at_cur)) k lt
          ∙ omega (arith, at_cur)

      sum : cur + n.cnt ≤ logs.last_blk (kind n.src_start_baddr) + 1 → add64 cur n.cnt ≡ cur + n.cnt
      sum fits = omega (arith, w.addressed (kind n.src_start_baddr))

      sent :
          cur + n.cnt ≤ logs.last_blk (kind n.src_start_baddr) + 1
          → (d : ℕ)
          → (if hits n d then some (log_address logs kind gs (p + (d - n.start))) else none)
            ≡ copied ((emit max_buf s.cur_buf_size (record n { src_start_baddr = cur })).0) d
      sent fits d =
          let e = emit-lem max_buf s.cur_buf_size (record n { src_start_baddr = cur }) d in
          elim (Bool-cases (hits n d)) [
            | inl q ↦
                let same : log_address logs kind gs (p + (d - n.start)) ≡ cur + (d - n.start) =
                  piece n.cnt (omega arith) some_blks fits (d - n.start) (ground arith) in
                rw same (sym e.0)
            | inr q ↦ rw q (sym (rw q at e.0))
          ]

      pub whole_IsTurn :
          cur + n.cnt ≤ logs.last_blk (kind n.src_start_baddr) + 1
          → n.cnt < u32
          → IsTurn logs kind gs s p n ns (whole_turn max_buf s n ns cur)
      unfolding whole_turn finish_turn
      whole_IsTurn fits small = record {
        worked_off = n.cnt;
        nodes = nodes.1;
        kinds = kinds.1;
        groups = groups.1;
        at =
            (let e : p + n.cnt ≡ suc (p + (n.cnt - 1)) = omega arith in
              let last = piece n.cnt (omega arith) some_blks fits (n.cnt - 1) (omega arith) in
              rw e (
                after-IsAt logs kind gs (p + (n.cnt - 1)) n.src_start_baddr
                  ((whole_turn max_buf s n ns cur).progress) (groups.0 (n.cnt - 1) (omega arith))
                  refl (ap (place logs (kind n.src_start_baddr)) (sum fits ∙ omega (arith, last)))
                  (rw (sum fits) (omega (arith, inside), fits))));
        requests =
            λ d. ap (or_else (asked (log_address logs kind gs) (p + n.cnt) ns d)) (sent fits d);
        once = λ d.
            omega
              (arith, (emit-lem max_buf s.cur_buf_size (record n { src_start_baddr = cur }) d).1);
        shorter = λ fuel h. omega (arith, h, fresh_le logs s (n ∷ ns));
      }

      -- The round for a tag of which `m` blocks lie before the end of the log.
      front : ℕ → TagListNode
      front m = record n {
        start = if m == 0 then invalid_start else n.start;
        src_start_baddr = cur;
        cnt = m;
      }

      second : ℕ → TagListNode
      second m = record n {
        start = if n.start == invalid_start then invalid_start else add64 n.start m;
        cnt = n.cnt - m;
      }

      gone : ℕ → Progress
      gone m = record {
        last_src_start_baddr_group = n.src_start_baddr;
        current_src_start_baddr = logs.first_blk (kind n.src_start_baddr);
        cur_buf_size = (emit max_buf s.cur_buf_size (front m)).1;
      }

      pub parts : ℕ → Turn
      parts m = record {
        events = (emit max_buf s.cur_buf_size (front m)).0;
        progress = gone m;
        rest = second m ∷ ns;
      }

      pub split_turn-parts :
          (m : ℕ)
          → m ≡ logs.last_blk (kind n.src_start_baddr) + 1 - cur
          → m < n.cnt
          → n.cnt < u32
          → split_turn logs max_buf s n ns cur ≡ parts m
      unfolding split_turn finish_turn second_tag parts front second gone
      split_turn-parts m e lt small =
          let same : n.stage_tx ≡ kind n.src_start_baddr =
            (placed logs kind n.src_start_baddr n.stage_tx kinds.0).0 in
          let part : add64 (sub64 (logs.last_blk (kind n.src_start_baddr)) cur) 1 % u32 ≡ m =
            omega (arith, w.addressed (kind n.src_start_baddr), inside) in
          let left : sub32 n.cnt m ≡ n.cnt - m = omega arith in
          let more : ltb 0 (n.cnt - m) ≡ true = lt→ltb _ _ (omega arith) in
          rw same (rw part (rw left (rw more refl)))

      gone-IsAt :
          (m : ℕ)
          → m ≡ logs.last_blk (kind n.src_start_baddr) + 1 - cur
          → m < n.cnt
          → IsAt logs kind gs (gone m) (p + m)
      unfolding gone
      gone-IsAt zero e lt =
          let at_p : p + 0 ≡ p = omega arith in
          let group : gs p ≡ n.src_start_baddr = rw at_p at (groups.0 0 lt) in
          let first : logs.first_blk (kind n.src_start_baddr)
              ≤ logs.last_blk (kind n.src_start_baddr) =
            w.ordered (kind n.src_start_baddr) in
          rw at_p (record {
            continued = λ q.
                rw group
                  (ground (arith, here, inside, first, e), (omega arith, omega (arith, first)));
            begun = λ q. absurd (q (sym group));
          })
      gone-IsAt (suc k) e lt =
          let at_k : p + suc k ≡ suc (p + k) = omega arith in
          let first : logs.first_blk (kind n.src_start_baddr)
              ≤ logs.last_blk (kind n.src_start_baddr) =
            w.ordered (kind n.src_start_baddr) in
          let last =
            piece (suc k) (omega arith) (omega arith) (omega (arith, inside, e)) k (omega arith) in
          rw at_k (
            after-IsAt logs kind gs (p + k) n.src_start_baddr (gone (suc k))
              (groups.0 k (omega arith)) refl (rw last (ground (arith, inside, e, first)))
              (omega arith, omega (arith, first)))

      fresh_drop :
          (m : ℕ) → m ≡ logs.last_blk (kind n.src_start_baddr) + 1 - cur → fresh logs s (n ∷ ns) ≤ m
      unfolding fresh
      fresh_drop m e =
          let same = (placed logs kind n.src_start_baddr n.stage_tx kinds.0).0 in
          let first = w.ordered (kind n.src_start_baddr) in
          let at_first : logs.first_blk n.stage_tx ≡ logs.first_blk (kind n.src_start_baddr) =
            ap logs.first_blk same in
          rw is_current (rw at_first (ground (arith, inside, e, first)))

      fresh-gone : (m : ℕ) → fresh logs (gone m) (second m ∷ ns) ≡ 1
      unfolding fresh gone second current_of
      fresh-gone m =
          let same = (placed logs kind n.src_start_baddr n.stage_tx kinds.0).0 in
          let at_first : logs.first_blk n.stage_tx ≡ logs.first_blk (kind n.src_start_baddr) =
            ap logs.first_blk same in
          ground (arith, at_first)

      parts_sent :
          (m : ℕ)
          → m ≡ logs.last_blk (kind n.src_start_baddr) + 1 - cur
          → m < n.cnt
          → (d : ℕ)
          → (if hits n d then some (log_address logs kind gs (p + (d - n.start))) else none)
            ≡ or_else
                (if hits (second m) d
                  then some (log_address logs kind gs (p + m + (d - (second m).start)))
                  else none)
                (copied ((parts m).events) d)
      unfolding parts front second
      parts_sent m e lt d =
          let sent = (emit-lem max_buf s.cur_buf_size (front m) d).0 in
          let ok = nodes.0.addressed in
          elim (Bool-cases (hits n d)) [
            | inl q ↦ elim (Bool-cases (leb (n.start + m) d)) [
              | inl r ↦
                  let behind : hits (second m) d ≡ true = ground (arith, ok) in
                  let same : p + (d - n.start) ≡ p + m + (d - (second m).start) =
                    ground (arith, ok) in
                  rw q (rw behind (ap (λ a. some (log_address logs kind gs a)) same))
              | inr r ↦
                  let behind : hits (second m) d ≡ false = ground (arith, ok) in
                  let ahead : hits (front m) d ≡ true = ground (arith, ok) in
                  let starts : (front m).start ≡ n.start = ground arith in
                  let same : log_address logs kind gs (p + (d - n.start)) ≡ cur + (d - n.start) =
                    piece m (omega arith) (ground arith) (ground (arith, inside, e)) (d - n.start)
                      (ground arith) in
                  let got : copied ((parts m).events) d ≡ some (cur + (d - n.start)) =
                    sent ∙ rw ahead (ap (λ a. some (cur + (d - a))) starts) in
                  rw q (rw behind (rw same (sym got)))
            ]
            | inr q ↦
                let behind : hits (second m) d ≡ false = ground (arith, ok) in
                let ahead : hits (front m) d ≡ false = ground (arith, ok) in
                let got : copied ((parts m).events) d ≡ none = sent ∙ rw ahead refl in
                rw q (rw behind (sym got))
          ]

      pub parts-IsTurn :
          (m : ℕ)
          → m ≡ logs.last_blk (kind n.src_start_baddr) + 1 - cur
          → m < n.cnt
          → n.cnt < u32
          → IsTurn logs kind gs s p n ns (parts m)
      unfolding parts front second
      parts-IsTurn m e lt small =
          let total_kept : p + m + (n.cnt - m) ≡ p + n.cnt = omega arith in
          record {
            worked_off = m;
            nodes = (
              record { addressed = ground (arith, nodes.0.addressed); counted = omega arith },
              nodes.1,
            );
            kinds = kinds;
            groups = (
              (λ k l.
                  let q : p + m + k ≡ p + (m + k) = omega arith in
                  rw q (groups.0 (m + k) (omega arith))),
              rw total_kept groups.1,
            );
            at = gone-IsAt m e lt;
            requests = λ d. rw total_kept (
                ap (or_else (asked (log_address logs kind gs) (p + n.cnt) ns d))
                  (parts_sent m e lt d)
                ∙ sym (or_else_assoc (asked (log_address logs kind gs) (p + n.cnt) ns d) _ _));
            once = λ d.
                ground (arith, (emit-lem max_buf s.cur_buf_size (front m) d).1, nodes.0.addressed);
            shorter = λ fuel h. omega (arith, h, fresh_drop m e, fresh-gone m);
          }
