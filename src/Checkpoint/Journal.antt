-- ===== src/Checkpoint/Journal.antt =====
-- A checkpoint of a transaction that has only tags of its own: do_checkpoint_coalesce from the scan of the
-- journal to the requests. What the first pass makes of its stage
-- transactions, whose tags come first, is an argument.
use oxbow.Prelude.{
  ℕ, ◌+◌, ◌-◌, ◌%◌, ◌≤◌, ◌<◌, ◌≡◌, refl, sym, ap, ◌∙◌, inl, inr, ◌⊎◌, Bool, true, false, Option,
  none, some, List, [], ◌∷◌, ◌++◌, map, leb, ◌==◌, if◌then◌else◌, ◌&&◌, u32, add64, All, length,
  Bool-cases, Option-cases, arith,
}
use mathlib.Core.Option.{bind}
use mathlib.Core.Option
use native.Mathlib.Nat.{mod-lt}
use oxbow.JournalLog.Advance.{area}
use oxbow.TagBlocks.{
  Etag, MetaBlock, JournalTx, TxMeta, journal_scan, fill_all, start_desc,
  copy_desc_and_meta_to_tx_meta,
}
use oxbow.TagBlocks.Fill.{tags_max}
use oxbow.TagBlocks.Scan.{journal_scan-fill_all}
use oxbow.Checkpoint.{TagListNode, invalid_start, behind}
use oxbow.Checkpoint.View.{hits, total, source_of, IsTag}
use oxbow.Checkpoint.Groups.{group_at, OfKind}
use oxbow.Checkpoint.Transfer.{Logs, Event, dispatch_io}
use oxbow.Checkpoint.Disk.{run_events, content, run_events-copied}
use oxbow.Checkpoint.Transfer.Address.{log_address, is_placed, IsLogs}
use oxbow.Checkpoint.Transfer.Copied.{copied, copies, copies-append}
use oxbow.Checkpoint.Transfer.Ring.{log_address_ring}
use oxbow.Checkpoint.Passes.{checkpoint_tags, checkpoint_tags-copies, groups_of}

-- Pass 2: the node for a tag of the transaction whose descriptor block is at `j_start_baddr`.
unfoldable pub journal_node : ℕ → Etag → TagListNode
journal_node j_start_baddr e = record {
  start = e.start;
  src_start_baddr = add64 j_start_baddr 1;
  cnt = e.cnt;
  stage_tx = false;
}

-- A transaction without tags, whose `stage_blks` stage trace blocks the first pass has found, is refused
-- when there are none.
pub checkpoint_journal : Logs → ℕ → ℕ → ℕ → List TagListNode → TxMeta → Option (List Event)
checkpoint_journal logs max_buf j_start_baddr stage_blks staged m = bind (journal_scan m) (λ es.
    if (stage_blks == 0) && (length es == 0)
    then none
    else checkpoint_tags logs max_buf (staged ++ map (journal_node j_start_baddr) es))

-- An extent of the file system whose blocks have addresses.
pub record IsExtent (e : Etag) : Type 0 where
  pub addressed : e.start + e.cnt < invalid_start
  pub counted : e.cnt < u32

-- A block of the journal.
abbrev pub is_log : Logs → ℕ → Bool
is_log logs a = leb (logs.first_blk false) a && leb a (logs.last_blk false)

-- An extent with no block in the journal.
abbrev pub IsOutside : Logs → Etag → Type 0
IsOutside logs e = (e.start + e.cnt ≤ logs.first_blk false) ⊎ (logs.last_blk false < e.start)

module _ (j_start_baddr : ℕ) where
  journal_nodes-IsTag :
      (es : List Etag) → All IsExtent es → All IsTag (map (journal_node j_start_baddr) es)
  unfolding journal_node
  journal_nodes-IsTag [] h = tt
  journal_nodes-IsTag (e ∷ es) (h, hs) =
      (record { addressed = h.addressed; counted = h.counted }, journal_nodes-IsTag es hs)

  -- All nodes are of one group.
  abbrev OfGroup : TagListNode → Type 0
  OfGroup n = (n.src_start_baddr ≡ add64 j_start_baddr 1) × (n.stage_tx ≡ false)

  journal_nodes-OfGroup : (es : List Etag) → All OfGroup (map (journal_node j_start_baddr) es)
  unfolding journal_node
  journal_nodes-OfGroup [] = tt
  journal_nodes-OfGroup (e ∷ es) = ((refl, refl), journal_nodes-OfGroup es)

  OfGroup-behind :
      (ns ms : List TagListNode) → All OfGroup ns → All OfGroup ms → All OfGroup (behind ns ms)
  OfGroup-behind [] ms h k = k
  OfGroup-behind (n ∷ ns) ms (h, hs) k = OfGroup-behind ns (n ∷ ms) hs (h, k)

  group_at-OfGroup :
      (ns : List TagListNode) (p : ℕ)
      → All OfGroup ns
      → p < total ns
      → group_at ns p ≡ add64 j_start_baddr 1
  group_at-OfGroup [] p h lt = absurd (omega arith)
  group_at-OfGroup (n ∷ ns) p ((h, k), hs) lt = elim (Bool-cases (leb (total ns) p)) [
    | inl q ↦ rw q h
    | inr q ↦ rw q (group_at-OfGroup ns p hs (ground arith))
  ]

  OfGroup-OfKind :
      (logs : Logs) (ns : List TagListNode)
      → logs.first_blk false ≤ add64 j_start_baddr 1
      → add64 j_start_baddr 1 ≤ logs.last_blk false + 1
      → All OfGroup ns
      → All (OfKind (is_placed logs (λ g. false))) ns
  OfGroup-OfKind logs [] lo hi h = tt
  OfGroup-OfKind logs (n ∷ ns) lo hi ((src, stage), hs) =
      (rw src (rw stage (ground arith)), OfGroup-OfKind logs ns lo hi hs)

-- Addresses that agree on the blocks of the log.
source_of-cong :
    (f g : ℕ → ℕ) (ns : List TagListNode) (d : ℕ)
    → ((p : ℕ) → p < total ns → f p ≡ g p)
    → Option.map f (source_of ns d) ≡ Option.map g (source_of ns d)
source_of-cong f g [] d h = refl
source_of-cong f g (n ∷ ns) d h = elim (Bool-cases (hits n d)) [
  | inl q ↦ rw q (ap some (h (total ns + (d - n.start)) (ground arith)))
  | inr q ↦ rw q (source_of-cong f g ns d (λ p lt. h p (omega arith)))
]

-- What block `d` of the file system is copied from, when the tags `es` are of the transaction at
-- `j_start_baddr`: the data blocks lie behind the descriptor block, round the log, and the last extent with
-- the block counts.
abbrev pub data_source : Logs → ℕ → List Etag → ℕ → Option ℕ
data_source logs j_start_baddr es d =
    Option.map
      (λ p.
        logs.first_blk false
        + (j_start_baddr + 1 - logs.first_blk false + p)
          % area (logs.first_blk false) (logs.last_blk false))
      (source_of (behind (map (journal_node j_start_baddr) es) []) d)

module _ (logs : Logs) (max_buf j_start_baddr : ℕ) (w : IsLogs logs)
    (lo : logs.first_blk false ≤ j_start_baddr) (hi : j_start_baddr ≤ logs.last_blk false) where
  journal_nodes-copies :
      (es : List Etag)
      → All IsExtent es
      → total (map (journal_node j_start_baddr) es) < u32
      → (evs : List Event) × (checkpoint_tags logs max_buf (map (journal_node j_start_baddr) es)
          ≡ some (evs ++ (dispatch_io ∷ [])))
        × ((d : ℕ) → copied evs d ≡ data_source logs j_start_baddr es d)
        × ((d : ℕ) → copies evs d ≤ 1)
  journal_nodes-copies es ok small =
      let tags = map (journal_node j_start_baddr) es in
      let top = w.addressed false in
      let next : add64 j_start_baddr 1 ≡ j_start_baddr + 1 = omega (arith, top, hi) in
      let group = journal_nodes-OfGroup j_start_baddr es in
      let groups = OfGroup-behind j_start_baddr tags [] group tt in
      let (evs, run, same, once) =
        checkpoint_tags-copies logs (λ g. false) max_buf w tags
          (journal_nodes-IsTag j_start_baddr es ok)
          (OfGroup-OfKind j_start_baddr logs tags (omega (arith, next, lo))
            (omega (arith, next, hi)) group)
          small in
      let ring : (p : ℕ)
          → p < total (behind tags [])
          → log_address logs (λ g. false) (groups_of tags) p
            ≡ logs.first_blk false
              + (j_start_baddr + 1 - logs.first_blk false + p)
                % area (logs.first_blk false) (logs.last_blk false) =
        λ p lt.
          log_address_ring logs (λ g. false) (groups_of tags) (j_start_baddr + 1) p (omega arith)
            (omega arith) (w.ordered false)
            (λ k le.
              group_at-OfGroup j_start_baddr (behind tags []) k groups (omega arith) ∙ next) in
      (evs, run, (λ d. same d ∙ source_of-cong _ _ (behind tags []) d ring), once)

  -- A block that an extent does not have is not written.
  outside :
      (es : List Etag) (ms : List TagListNode) (d : ℕ)
      → All (IsOutside logs) es
      → logs.first_blk false ≤ d
      → d ≤ logs.last_blk false
      → source_of ms d ≡ none
      → source_of (behind (map (journal_node j_start_baddr) es) ms) d ≡ none
  unfolding journal_node
  outside [] ms d out from to none_before = none_before
  outside (e ∷ es) ms d (out, outs) from to none_before =
      outside es (journal_node j_start_baddr e ∷ ms) d outs from to
        (ground (arith, out, none_before))

  data_source_ends :
      (es : List Etag)
      → All (IsOutside logs) es
      → (d a : ℕ) → data_source logs j_start_baddr es d ≡ some a
      → (is_log logs a ≡ true) × (is_log logs d ≡ false)
  data_source_ends es out d a e = elim (Option-cases (source_of tags d)) [
    | inl f ↦ absurd (none-ne-some (sym (ap (Option.map place_of) f) ∙ e))
    | inr (p, f) ↦
        let at : some (place_of p) ≡ some a = sym (ap (Option.map place_of) f) ∙ e in
        let at_a : place_of p ≡ a = ground arith in
        let below =
          mod-lt (j_start_baddr + 1 - logs.first_blk false + p) {m = size} (omega arith) in
        (
          ground (arith, below, w.ordered false),
          elim (Bool-cases (is_log logs d)) [
            | inr k ↦ k
            | inl k ↦
                absurd
                  (none-ne-some (sym (outside es [] d out (ground arith) (ground arith) refl) ∙ f))
          ],
        )
  ]
    where
      tags : List TagListNode
      tags = behind (map (journal_node j_start_baddr) es) []

      size : ℕ
      size = area (logs.first_blk false) (logs.last_blk false)

      place_of : ℕ → ℕ
      place_of p = logs.first_blk false + (j_start_baddr + 1 - logs.first_blk false + p) % size

      none-ne-some : {x : ℕ} → ◌≡◌ {A = Option ℕ} none (some x) → ⊥
      none-ne-some h = cc

  -- A transaction of 1 to 2784938 extents and fewer than 2^32 blocks, without stage transactions,
  -- whose extents have addresses outside the log and whose descriptor block is in it: the daemon can put
  -- the tags in, and when the server has copied the tag blocks and checkpoints them, each block of an
  -- extent holds what was in the block of the log that the last extent with it counts, from the descriptor
  -- block on and round the log, and every other block is what it was. No block is written twice.
  pub checkpoint_journal-fill_all :
      (id : ℕ) (old_tags : ℕ → Etag) (buf : ℕ → MetaBlock) (old : TxMeta) (es : List Etag)
      → 0 < length es
      → length es < tags_max
      → All IsExtent es
      → All (IsOutside logs) es
      → total (map (journal_node j_start_baddr) es) < u32
      → (tx : JournalTx) × (fill_all es (start_desc id old_tags buf) ≡ some tx)
        × (evs : List Event) × (checkpoint_journal logs max_buf j_start_baddr 0 []
              (copy_desc_and_meta_to_tx_meta tx.desc_blk tx.md_buf old)
            ≡ some evs)
        × ((disk : ℕ → ℕ) (d : ℕ)
            → run_events evs [] disk d
              ≡ content disk (data_source logs j_start_baddr es d) (disk d))
        × ((d : ℕ) → copies evs d ≤ 1)
  unfolding checkpoint_journal bind
  checkpoint_journal-fill_all id old_tags buf old es some_tag fits ok out small =
      let tagged : (length es == 0) ≡ false = ground arith in
      let (tx, fill, scan) = journal_scan-fill_all id old_tags buf old es fits in
      let (evs, run, same, once) = journal_nodes-copies es ok small in
      (
        tx,
        fill,
        evs ++ (dispatch_io ∷ []),
        rw scan (rw tagged run),
        (λ disk d.
            run_events-copied (is_log logs) disk evs [] disk (λ a h. refl)
              (λ i a e. data_source_ends es out i a (sym (same i) ∙ e)) d
            ∙ ap (λ o. content disk o (disk d)) (same d)),
        (λ d. omega (arith, copies-append evs (dispatch_io ∷ []) d, once d)),
      )
