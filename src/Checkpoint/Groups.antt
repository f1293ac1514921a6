-- ===== src/Checkpoint/Groups.antt =====
-- Lists of tags over the same blocks of the log. Blocks are counted through the list, the last tag first.
use oxbow.Prelude.{
  ℕ, ◌+◌, ◌≤◌, ◌<◌, ◌≡◌, refl, ◌∙◌, ap₂, Bool, true, List, [], ◌∷◌, ◌++◌, leb, if◌then◌else◌, All,
  All-append, arith,
}
use oxbow.Checkpoint.{TagListNode, behind}
use oxbow.Checkpoint.View.{total, total-append, source_of}

-- `gs` is the group of each block.
abbrev pub Groups : (ℕ → ℕ) → List TagListNode → Type 0
Groups gs [] = Unit
Groups gs (n ∷ ns) =
    ((p : ℕ) → total ns ≤ p → p < total ns + n.cnt → gs p ≡ n.src_start_baddr) × Groups gs ns

-- The group of each block.
abbrev pub group_at : List TagListNode → ℕ → ℕ
group_at [] p = 0
group_at (n ∷ ns) p = if leb (total ns) p then n.src_start_baddr else group_at ns p

Groups-cong :
    (f g : ℕ → ℕ) (ns : List TagListNode)
    → ((p : ℕ) → p < total ns → f p ≡ g p)
    → Groups g ns
    → Groups f ns
Groups-cong f g [] h w = tt
Groups-cong f g (n ∷ ns) h (w, ws) =
    (λ p lo hi. h p hi ∙ w p lo hi, Groups-cong f g ns (λ p lt. h p (omega arith)) ws)

pub group_at-Groups : (ns : List TagListNode) → Groups (group_at ns) ns
group_at-Groups [] = tt
group_at-Groups (n ∷ ns) = (
  λ p lo hi. ground arith,
  Groups-cong (group_at (n ∷ ns)) (group_at ns) ns (λ p lt. ground arith) (group_at-Groups ns),
)

abbrev pub OfKind : (ℕ → Bool → Bool) → TagListNode → Type 0
OfKind ok n = ok n.src_start_baddr n.stage_tx ≡ true

-- `ns` has the blocks of `ms`, in the same groups.
pub record SameLog (ns ms : List TagListNode) : Type 0 where
  pub length_kept : total ns ≡ total ms
  pub groups : (gs : ℕ → ℕ) → Groups gs ms → Groups gs ns
  pub kinds : (ok : ℕ → Bool → Bool) → All (OfKind ok) ms → All (OfKind ok) ns

pub SameLog-refl : (ns : List TagListNode) → SameLog ns ns
SameLog-refl ns = record { length_kept = refl; groups = λ gs h. h; kinds = λ ok h. h }

pub SameLog-trans : (ns ms ls : List TagListNode) → SameLog ns ms → SameLog ms ls → SameLog ns ls
SameLog-trans ns ms ls s t = record {
  length_kept = s.length_kept ∙ t.length_kept;
  groups = λ gs h. s.groups gs (t.groups gs h);
  kinds = λ ok h. s.kinds ok (t.kinds ok h);
}

-- Nodes of the group of `r`.
abbrev pub LikeNode : TagListNode → TagListNode → Type 0
LikeNode r p = (p.src_start_baddr ≡ r.src_start_baddr) × (p.stage_tx ≡ r.stage_tx)

Groups-append :
    (gs : ℕ → ℕ) (r : TagListNode) (ps qs : List TagListNode)
    → All (LikeNode r) ps
    → ((p : ℕ) → total qs ≤ p → p < total qs + total ps → gs p ≡ r.src_start_baddr)
    → Groups gs qs
    → Groups gs (ps ++ qs)
Groups-append gs r [] qs like h w = w
Groups-append gs r (x ∷ ps) qs ((s, t), like) h w = (
  λ p lo hi. rw s (h p (omega (arith, total-append ps qs)) (omega (arith, total-append ps qs))),
  Groups-append gs r ps qs like (λ p lo hi. h p lo (omega arith)) w,
)

OfKind-All :
    (ok : ℕ → Bool → Bool) (r : TagListNode) (ps : List TagListNode)
    → All (LikeNode r) ps
    → OfKind ok r
    → All (OfKind ok) ps
OfKind-All ok r [] like k = tt
OfKind-All ok r (p ∷ ps) ((s, t), like) k = (ap₂ ok s t ∙ k, OfKind-All ok r ps like k)

-- Other nodes for the blocks of one.
pub SameLog-append :
    (r : TagListNode) (ps qs ms : List TagListNode)
    → All (LikeNode r) ps
    → total ps ≡ r.cnt
    → SameLog qs ms
    → SameLog (ps ++ qs) (r ∷ ms)
SameLog-append r ps qs ms like len s = record {
  length_kept = omega (arith, total-append ps qs, len, s.length_kept);
  groups = λ gs h.
      Groups-append gs r ps qs like
        (λ p lo hi. h.0 p (omega (arith, s.length_kept)) (omega (arith, s.length_kept, len)))
        (s.groups gs h.1);
  kinds = λ ok h. All-append (OfKind ok) ps qs (OfKind-All ok r ps like h.0) (s.kinds ok h.1);
}

pub SameLog-cons :
    (n : TagListNode) (ns ms : List TagListNode) → SameLog ns ms → SameLog (n ∷ ns) (n ∷ ms)
SameLog-cons n ns ms s = SameLog-append n (n ∷ []) ns ms ((refl, refl), tt) (omega arith) s

-- `ns` also leaves the same block of the log in each block of the file system.
pub record SameCopies (ns ms : List TagListNode) : Type 0 where
  pub log : SameLog ns ms
  pub sources : (d : ℕ) → source_of ns d ≡ source_of ms d

pub SameCopies-refl : (ns : List TagListNode) → SameCopies ns ns
SameCopies-refl ns = record { log = SameLog-refl ns; sources = λ d. refl }

pub SameCopies-cons :
    (n : TagListNode) (ns ms : List TagListNode) → SameCopies ns ms → SameCopies (n ∷ ns) (n ∷ ms)
SameCopies-cons n ns ms s = record {
  log = SameLog-cons n ns ms s.log;
  sources = λ d. ground (arith, s.sources d, s.log.length_kept);
}

pub SameCopies-trans :
    (ns ms ls : List TagListNode) → SameCopies ns ms → SameCopies ms ls → SameCopies ns ls
SameCopies-trans ns ms ls s t = record {
  log = SameLog-trans ns ms ls s.log t.log;
  sources = λ d. s.sources d ∙ t.sources d;
}

pub SameCopies-behind :
    (later ns ms : List TagListNode)
    → SameCopies ns ms
    → SameCopies (behind later ns) (behind later ms)
SameCopies-behind [] ns ms s = s
SameCopies-behind (x ∷ later) ns ms s =
    SameCopies-behind later (x ∷ ns) (x ∷ ms) (SameCopies-cons x ns ms s)
