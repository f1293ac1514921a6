-- ===== src/Checkpoint/Transfer/Copied.antt =====
-- What requests do, and what the tags of a list, the first tag first, ask for.
use oxbow.Prelude.{
  ℕ, ◌+◌, ◌-◌, ◌<◌, ◌≡◌, refl, Option, none, some, List, [], ◌∷◌, ◌++◌, if◌then◌else◌, arith,
}
use oxbow.Checkpoint.{TagListNode}
use oxbow.Checkpoint.View.{hits, covers}
use oxbow.Checkpoint.Transfer.{Event, copy_blks, dispatch_io}

abbrev pub or_else {ℓ} : {A : Type ℓ} → Option A → Option A → Option A
or_else (some a) b = some a
or_else none b = b

pub or_else-none {ℓ} : {A : Type ℓ} (a : Option A) → a ≡ or_else a none
or_else-none (some a) = refl
or_else-none none = refl

pub or_else_assoc {ℓ} :
    {A : Type ℓ} (a b c : Option A) → or_else (or_else a b) c ≡ or_else a (or_else b c)
or_else_assoc (some a) b c = refl
or_else_assoc none b c = refl

-- The address that a block `d` is copied from, by the last request for it.
abbrev pub copied : List Event → ℕ → Option ℕ
copied [] d = none
copied (copy_blks src dst n ∷ es) d =
    or_else (copied es d) (if covers dst n d then some (src + (d - dst)) else none)
copied (dispatch_io ∷ es) d = copied es d

-- The number of requests for block `d`.
abbrev pub copies : List Event → ℕ → ℕ
copies [] d = 0
copies (copy_blks src dst n ∷ es) d = (if covers dst n d then 1 else 0) + copies es d
copies (dispatch_io ∷ es) d = copies es d

pub copied-append :
    (es fs : List Event) (d : ℕ) → copied (es ++ fs) d ≡ or_else (copied fs d) (copied es d)
copied-append [] fs d = ground arith
copied-append (copy_blks src dst n ∷ es) fs d =
    rw (copied-append es fs d) (or_else_assoc (copied fs d) (copied es d) _)
copied-append (dispatch_io ∷ es) fs d = copied-append es fs d

pub copies-append : (es fs : List Event) (d : ℕ) → copies (es ++ fs) d ≡ copies es d + copies fs d
copies-append [] fs d = omega arith
copies-append (copy_blks src dst n ∷ es) fs d = omega (arith, copies-append es fs d)
copies-append (dispatch_io ∷ es) fs d = copies-append es fs d

-- The address of the block of the log for `d`, where the list begins with block `p` of the log.
abbrev pub asked : (ℕ → ℕ) → ℕ → List TagListNode → ℕ → Option ℕ
asked addr p [] d = none
asked addr p (n ∷ ns) d =
    or_else (asked addr (p + n.cnt) ns d)
      (if hits n d then some (addr (p + (d - n.start))) else none)

abbrev pub GroupsFrom : (ℕ → ℕ) → ℕ → List TagListNode → Type 0
GroupsFrom gs p [] = Unit
GroupsFrom gs p (n ∷ ns) =
    ((k : ℕ) → k < n.cnt → gs (p + k) ≡ n.src_start_baddr) × GroupsFrom gs (p + n.cnt) ns
