-- ===== src/Checkpoint/Optimize.antt =====
-- Pass 3 takes from every tag the blocks that a later one writes.
use oxbow.Prelude.{
  ℕ, ◌+◌, ◌≤◌, ◌<◌, ◌≡◌, refl, ◌∙◌, inr, false, some, List, [], ◌∷◌, ◌++◌, if◌then◌else◌, All,
  All-append, arith,
}
use mathlib.Core.Option.{bind}
use oxbow.Checkpoint.{behind, TagListNode, invalid_start, cut_earlier, optimize}
use oxbow.Checkpoint.View.{source_of, writers, writers-append, IsTag, IsNode, covers}
use oxbow.Checkpoint.Cut.{cut-IsRest}
use oxbow.Checkpoint.Groups.{
  SameLog, SameLog-refl, SameLog-trans, SameLog-append, SameLog-cons, SameCopies,
}

-- What the earlier tags become when a later one is worked on.
record IsCut (start n : ℕ) (earlier kept : List TagListNode) : Type 0 where
  nodes : All IsNode kept
  log : SameLog kept earlier
  uncovered : (d : ℕ) → writers kept d ≡ (if covers start n d then 0 else writers earlier d)
  sources : (d : ℕ) → covers start n d ≡ false → source_of kept d ≡ source_of earlier d

cut_earlier-IsCut :
    (start n : ℕ) (earlier : List TagListNode)
    → start + n < invalid_start
    → All IsNode earlier
    → (kept : List TagListNode) × (cut_earlier start n earlier ≡ some kept)
      × IsCut start n earlier kept
unfolding cut_earlier bind
cut_earlier-IsCut start n [] fits w = (
  [],
  refl,
  record { nodes = w; log = SameLog-refl []; uncovered = λ d. ground arith; sources = λ d h. refl },
)
cut_earlier-IsCut start n (r ∷ rs) fits (w, ws) =
    let (ps, run, p) = cut-IsRest start n r fits w in
    let (qs, run', q) = cut_earlier-IsCut start n rs fits ws in
    (
      ps ++ qs,
      rw run (rw run' refl),
      record {
        nodes = All-append IsNode ps qs p.nodes q.nodes;
        log = SameLog-append r ps qs rs p.group p.length_kept q.log;
        uncovered = λ d. ground (arith, writers-append ps qs d, p.uncovered d, q.uncovered d);
        sources = λ d h. p.sources qs d h ∙ ground (arith, q.sources d h, q.log.length_kept);
      },
    )

-- Pass 3 on any tags with addresses behind nodes that write no block twice comes to an end. In its list no
-- block of the file system is written twice, and it leaves in each block what the tags would leave when all
-- are copied in their order; the blocks of the log and their groups stay.
pub optimize-SameCopies :
    (later earlier all : List TagListNode)
    → All IsTag later
    → All IsNode earlier
    → ((d : ℕ) → writers earlier d ≤ 1)
    → SameCopies earlier all
    → (ns : List TagListNode) × (optimize earlier later ≡ some ns)
      × All IsNode ns
      × ((d : ℕ) → writers ns d ≤ 1)
      × SameCopies ns (behind later all)
unfolding optimize bind
optimize-SameCopies [] earlier all tags w once same = (earlier, refl, w, once, same)
optimize-SameCopies (x ∷ later) earlier all (tag, tags) w once same =
    let (kept, run, c) = cut_earlier-IsCut x.start x.cnt earlier tag.addressed w in
    let log = SameLog-trans kept earlier all c.log same.log in
    let (ns, run', w', once', same') =
      optimize-SameCopies later (x ∷ kept) (x ∷ all) tags
        (record { addressed = inr tag.addressed; counted = tag.counted }, c.nodes)
        (λ d. ground (arith, c.uncovered d, once d, tag.addressed))
        (record {
          log = SameLog-cons x kept all log;
          sources =
              λ d. ground (arith, log.length_kept, same.sources d, c.sources d, tag.addressed);
        }) in
    (ns, rw run run', w', once', same')
