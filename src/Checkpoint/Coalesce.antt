-- ===== src/Checkpoint/Coalesce.antt =====
-- Pass 4 makes one tag of two that follow each other.
use oxbow.Prelude.{
  ℕ, ◌+◌, ◌≤◌, ◌<◌, ◌≡◌, ◌≢◌, refl, sym, ◌∙◌, inl, inr, true, some, List, [], ◌∷◌, ◌==◌, u32, add32,
  leb, leb→le, All, Bool-cases, arith,
}
use mathlib.Core.Option.{bind}
use oxbow.Checkpoint.{behind, TagListNode, invalid_start, can_coalesce, coalesce_node, coalesce}
use oxbow.Checkpoint.View.{total, writers, IsNode}
use oxbow.Checkpoint.Groups.{SameCopies, SameCopies-trans, SameCopies-behind, SameCopies-refl}

-- The last tag kept is of the group that the loop has seen last.
abbrev Top : ℕ → List TagListNode → Type 0
Top group [] = group ≡ invalid_start
Top group (prev ∷ kept) = prev.src_start_baddr ≡ group

-- What the nodes `ms` become.
record IsMerged (group : ℕ) (ms ns : List TagListNode) : Type 0 where
  nodes : All IsNode ns
  top : Top group ns
  writers_le : (d : ℕ) → writers ns d ≤ writers ms d
  same : SameCopies ns ms

joined-IsMerged :
    (prev n : TagListNode) (kept : List TagListNode)
    → can_coalesce prev n ≡ true
    → n.src_start_baddr ≡ prev.src_start_baddr
    → IsNode n
    → IsNode prev
    → All IsNode kept
    → prev.cnt + n.cnt < u32
    → IsMerged prev.src_start_baddr
        (n ∷ (prev ∷ kept))
        (record prev { cnt = add32 prev.cnt n.cnt } ∷ kept)
unfolding can_coalesce
joined-IsMerged prev n kept can group w w' ws fits =
    let len : add32 prev.cnt n.cnt ≡ prev.cnt + n.cnt = omega arith in
    rw len (record {
      nodes =
          (record { addressed = ground (arith, w.addressed, w'.addressed); counted = fits }, ws);
      top = refl;
      writers_le = λ d. ground (arith, w.addressed, w'.addressed);
      same = record {
        log = record {
          length_kept = omega arith;
          groups = λ gs h. (
            λ p lo hi. elim (Bool-cases (leb (total kept + prev.cnt) p)) [
              | inl q ↦ h.0 p (leb→le _ _ q) (omega arith) ∙ group
              | inr q ↦ h.1.0 p lo (ground arith)
            ],
            h.1.1,
          );
          kinds = λ ok h. h.1;
        };
        sources = λ d. ground (arith, w.addressed, w'.addressed);
      };
    })

coalesce_node-IsMerged :
    (group : ℕ) (n : TagListNode) (kept : List TagListNode)
    → Top group kept
    → group ≢ invalid_start
    → group ≡ n.src_start_baddr
    → IsNode n
    → All IsNode kept
    → total (n ∷ kept) < u32
    → (ns : List TagListNode) × (coalesce_node n kept ≡ some ns) × IsMerged group (n ∷ kept) ns
unfolding coalesce_node
coalesce_node-IsMerged group n [] top valid at w ws fits = absurd (valid top)
coalesce_node-IsMerged group n (prev ∷ kept) top valid at w (w', ws) fits =
    elim (Bool-cases (can_coalesce prev n)) [
      | inl can ↦ (
        record prev { cnt = add32 prev.cnt n.cnt } ∷ kept,
        rw can refl,
        rw (sym top) (joined-IsMerged prev n kept can (sym at ∙ sym top) w w' ws (omega arith)),
      )
      | inr cannot ↦ (
        n ∷ (prev ∷ kept),
        rw cannot refl,
        record {
          nodes = (w, (w', ws));
          top = sym at;
          writers_le = λ d. omega arith;
          same = SameCopies-refl (n ∷ (prev ∷ kept));
        },
      )
    ]

writers-behind :
    (later ns ms : List TagListNode)
    → ((d : ℕ) → writers ns d ≤ writers ms d)
    → (d : ℕ) → writers (behind later ns) d ≤ writers (behind later ms) d
writers-behind [] ns ms h d = h d
writers-behind (x ∷ later) ns ms h d =
    writers-behind later (x ∷ ns) (x ∷ ms) (λ d. omega (arith, h d)) d

total_le-behind : (later ns : List TagListNode) → total ns ≤ total (behind later ns)
total_le-behind [] ns = omega arith
total_le-behind (x ∷ later) ns = omega (arith, total_le-behind later (x ∷ ns))

-- The group of a tag is an address.
abbrev pub Grouped : TagListNode → Type 0
Grouped n = n.src_start_baddr ≢ invalid_start

-- Pass 4 from any node on, when groups are addresses and there are fewer than 2^32 blocks: each block of the
-- file system is left with the same block of the log as before, is not written by more nodes than before,
-- and the blocks of the log and their groups stay.
pub coalesce-SameCopies :
    (later : List TagListNode) (group : ℕ) (kept : List TagListNode)
    → All Grouped later
    → All IsNode later
    → All IsNode kept
    → Top group kept
    → total (behind later kept) < u32
    → (ns : List TagListNode) × (coalesce group kept later ≡ some ns)
      × All IsNode ns
      × ((d : ℕ) → writers ns d ≤ writers (behind later kept) d)
      × SameCopies ns (behind later kept)
unfolding coalesce bind
coalesce-SameCopies [] group kept gs ws vs top fits =
    (kept, refl, vs, (λ d. omega arith), SameCopies-refl kept)
coalesce-SameCopies (n ∷ later) group kept (g, gs) (w, ws) vs top fits =
    elim (Bool-cases (group == n.src_start_baddr)) [
      | inl q ↦
          let at : group ≡ n.src_start_baddr = ground arith in
          let (ms, run, m) =
            coalesce_node-IsMerged group n kept top (λ e. g (sym at ∙ e)) at w vs
              (omega (arith, fits, total_le-behind later (n ∷ kept))) in
          let same = SameCopies-behind later ms (n ∷ kept) m.same in
          let (ns, run', vs', le, same') =
            coalesce-SameCopies later group ms gs ws m.nodes m.top
              (omega (arith, fits, same.log.length_kept)) in
          (
            ns,
            rw q (rw run run'),
            vs',
            (λ d. omega (arith, le d, writers-behind later ms (n ∷ kept) m.writers_le d)),
            SameCopies-trans ns (behind later ms) (behind later (n ∷ kept)) same' same,
          )
      | inr q ↦
          let (ns, run, vs', le, same) =
            coalesce-SameCopies later n.src_start_baddr (n ∷ kept) gs ws (w, vs) refl fits in
          (ns, rw q run, vs', le, same)
    ]
