-- ===== src/Checkpoint/Disk.antt =====
-- What the requests of a checkpoint do to the disk.
use oxbow.Prelude.{
  ℕ, ◌+◌, ◌-◌, ◌≡◌, refl, sym, ◌∙◌, Bool, true, false, Option, none, some, List, [], ◌∷◌, ◌++◌,
  append_assoc, if◌then◌else◌, Option-cases, inl, inr,
}
use oxbow.Prelude.{◌≢◌}
use mathlib.Core.Path.{subst}
use oxbow.Checkpoint.View.{covers}
use oxbow.Checkpoint.Transfer.{Event, copy_blks, dispatch_io}
use oxbow.Checkpoint.Transfer.Copied.{or_else, copied, copied-append}

-- The write requests, in their order, with the buffers that were read from the disk `old`.
pub write_all : List Event → (ℕ → ℕ) → (ℕ → ℕ) → ℕ → ℕ
write_all [] old disk = disk
write_all (copy_blks src dst n ∷ es) old disk =
    write_all es old (λ i. if covers dst n i then old (src + (i - dst)) else disk i)
write_all (dispatch_io ∷ es) old disk = write_all es old disk

-- The disk behind a run. The list has the requests that are not dispatched yet; a dispatch does all reads,
-- then all writes. The storage engine repeats a dispatch that fails.
pub run_events : List Event → List Event → (ℕ → ℕ) → ℕ → ℕ
run_events [] pending disk = disk
run_events (copy_blks src dst n ∷ es) pending disk =
    run_events es (pending ++ (copy_blks src dst n ∷ [])) disk
run_events (dispatch_io ∷ es) pending disk = run_events es [] (write_all pending disk disk)

-- The content of the block at the address, if there is one.
abbrev pub content : (ℕ → ℕ) → Option ℕ → ℕ → ℕ
content disk none x = x
content disk (some a) x = disk a

write_all-copied :
    (es : List Event) (old disk : ℕ → ℕ) (i : ℕ)
    → write_all es old disk i ≡ content old (copied es i) (disk i)
unfolding write_all
write_all-copied [] old disk i = refl
write_all-copied (copy_blks src dst n ∷ es) old disk i =
    write_all-copied es old (λ i. if covers dst n i then old (src + (i - dst)) else disk i) i
    ∙ last_one (copied es i) (covers dst n i)
  where
    last_one :
        (o : Option ℕ) (c : Bool)
        → content old o (if c then old (src + (i - dst)) else disk i)
          ≡ content old (or_else o (if c then some (src + (i - dst)) else none)) (disk i)
    last_one none true = refl
    last_one none false = refl
    last_one (some a) c = refl
write_all-copied (dispatch_io ∷ es) old disk i = write_all-copied es old disk i

true-ne-false : true ≢ false
true-ne-false e = cc

module _ (is_log : ℕ → Bool) (disk0 : ℕ → ℕ) where
  -- Requests that read the log and write other blocks, on a disk whose log is as it was.
  abbrev Reads : (ℕ → Option ℕ) → Type 0
  Reads from = (i a : ℕ) → from i ≡ some a → (is_log a ≡ true) × (is_log i ≡ false)

  abbrev LogKept : (ℕ → ℕ) → Type 0
  LogKept disk = (a : ℕ) → is_log a ≡ true → disk a ≡ disk0 a

  flushed :
      (pending es : List Event) (disk : ℕ → ℕ)
      → LogKept disk
      → Reads (copied (pending ++ es))
      → (i : ℕ)
      → content disk0 (copied es i) (write_all pending disk disk i)
        ≡ content disk0 (copied (pending ++ es) i) (disk i)
  flushed pending es disk kept reads i =
      let l = copied-append pending es i in
      let written = write_all-copied pending disk disk i in
      elim (Option-cases (copied es i)) [
        | inr (a, e) ↦ rw l (rw e refl)
        | inl e ↦ elim (Option-cases (copied pending i)) [
          | inl f ↦ rw l (rw e (rw f (written ∙ rw f refl)))
          | inr (a, f) ↦
              let from = (reads i a (l ∙ rw e f)).0 in
              rw l (rw e (rw f (written ∙ rw f (kept a from))))
        ]
      ]

  or_else-some : (o : Option ℕ) (b : ℕ) → (c : ℕ) × (or_else o (some b) ≡ some c)
  or_else-some none b = (b, refl)
  or_else-some (some a) b = (a, refl)

  -- No request writes to the log.
  write_all-LogKept :
      (pending es : List Event) (disk : ℕ → ℕ)
      → LogKept disk
      → Reads (copied (pending ++ es))
      → LogKept (write_all pending disk disk)
  write_all-LogKept pending es disk kept reads a h =
      write_all-copied pending disk disk a ∙ unwritten (copied pending a) refl
    where
      unwritten : (o : Option ℕ) → copied pending a ≡ o → content disk o (disk a) ≡ disk0 a
      unwritten none e = kept a h
      unwritten (some b) e =
          let (c, f) = or_else-some (copied es a) b in
          let to = (reads a c (copied-append pending es a ∙ rw e f)).1 in
          absurd (true-ne-false (sym h ∙ to))

  pub run_events-copied :
      (es pending : List Event) (disk : ℕ → ℕ)
      → LogKept disk
      → Reads (copied (pending ++ es))
      → (i : ℕ)
      → run_events (es ++ (dispatch_io ∷ [])) pending disk i
        ≡ content disk0 (copied (pending ++ es) i) (disk i)
  unfolding run_events
  run_events-copied [] pending disk kept reads i = flushed pending [] disk kept reads i
  run_events-copied (copy_blks src dst n ∷ es) pending disk kept reads i =
      let one = copy_blks src dst n ∷ [] in
      let assoc = append_assoc pending one es in
      subst
        (λ l.
          run_events (es ++ (dispatch_io ∷ [])) (pending ++ one) disk i
          ≡ content disk0 (copied l i) (disk i))
        assoc
        (run_events-copied es (pending ++ one) disk kept
          (subst (λ l. Reads (copied l)) (sym assoc) reads) i)
  run_events-copied (dispatch_io ∷ es) pending disk kept reads i =
      run_events-copied es [] (write_all pending disk disk)
        (write_all-LogKept pending (dispatch_io ∷ es) disk kept reads)
        (λ j a e. reads j a (copied-append pending (dispatch_io ∷ es) j ∙ rw e refl)) i
      ∙ flushed pending (dispatch_io ∷ es) disk kept reads i
