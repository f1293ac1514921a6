-- ===== src/Checkpoint/Orders.antt =====
-- The list of tags from its first and from its last one.
use oxbow.Prelude.{
  ℕ, ◌+◌, ◌-◌, ◌≡◌, refl, ap, ◌∙◌, Bool, true, false, none, some, List, [], ◌∷◌, ◌++◌, append-nil,
  if◌then◌else◌, All, arith,
}
use mathlib.Core.Option
use oxbow.Checkpoint.{TagListNode, behind}
use oxbow.Checkpoint.View.{hits, total, source_of, writers}
use oxbow.Checkpoint.Groups.{Groups}
use oxbow.Checkpoint.Transfer.Copied.{or_else, or_else_assoc, asked, GroupsFrom}

behind-behind : (ns ms ls : List TagListNode) → behind (behind ns ms) ls ≡ behind ms (ns ++ ls)
behind-behind [] ms ls = refl
behind-behind (x ∷ ns) ms ls = behind-behind ns (x ∷ ms) ls

pub twice_behind : (ns : List TagListNode) → behind (behind ns []) [] ≡ ns
twice_behind ns = behind-behind ns [] [] ∙ append-nil ns

pub All-behind {κ} :
    (P : TagListNode → Type κ) (ns ms : List TagListNode)
    → All P ns
    → All P ms
    → All P (behind ns ms)
All-behind P [] ms h k = k
All-behind P (x ∷ ns) ms (h, hs) k = All-behind P ns (x ∷ ms) hs (h, k)

pub total-behind : (ns ms : List TagListNode) → total (behind ns ms) ≡ total ns + total ms
total-behind [] ms = omega arith
total-behind (x ∷ ns) ms = omega (arith, total-behind ns (x ∷ ms))

pub writers-behind :
    (ns ms : List TagListNode) (d : ℕ) → writers (behind ns ms) d ≡ writers ns d + writers ms d
writers-behind [] ms d = omega arith
writers-behind (x ∷ ns) ms d = omega (arith, writers-behind ns (x ∷ ms) d)

pub GroupsFrom-behind :
    (gs : ℕ → ℕ) (ns ms : List TagListNode)
    → Groups gs (behind ns ms)
    → GroupsFrom gs (total ms) ns × Groups gs ms
GroupsFrom-behind gs [] ms h = (tt, h)
GroupsFrom-behind gs (x ∷ ns) ms h =
    let (from, rest) = GroupsFrom-behind gs ns (x ∷ ms) h in
    (((λ k lt. rest.0 (total ms + k) (omega arith) (omega arith)), from), rest.1)

-- What the tags ask for, from the first one and from the last one.
pub asked-source_of :
    (addr : ℕ → ℕ) (ns ms : List TagListNode) (d : ℕ)
    → or_else (asked addr (total ms) ns d) (Option.map addr (source_of ms d))
      ≡ Option.map addr (source_of (behind ns ms) d)
asked-source_of addr [] ms d = refl
asked-source_of addr (n ∷ ns) ms d =
    or_else_assoc (asked addr (total ms + n.cnt) ns d) _ _
    ∙ ap (or_else (asked addr (total ms + n.cnt) ns d)) (last_one (hits n d))
    ∙ asked-source_of addr ns (n ∷ ms) d
  where
    last_one :
        (hit : Bool)
        → or_else
            (if hit then some (addr (total ms + (d - n.start))) else none)
            (Option.map addr (source_of ms d))
          ≡ Option.map addr (if hit then some (total ms + (d - n.start)) else source_of ms d)
    last_one true = refl
    last_one false = refl
