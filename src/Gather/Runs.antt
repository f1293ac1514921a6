-- ===== src/Gather/Runs.antt =====
-- The scan of a block finds the runs of its dirty pages.
use oxbow.Prelude.{
  ℕ, zero, suc, ◌+◌, ◌*◌, ◌≤◌, ◌<◌, ◌≡◌, refl, sym, ap, ◌∙◌, inl, inr, Bool, true, false, ◌&&◌,
  ◌||◌, not, [], ◌++◌, append-nil, arith, if◌then◌else◌, Bool-cases,
}
use mathlib.Core.Path.{subst}
use oxbow.Gather.{
  Scan, none_set, end_run, scan_bit, scan_bits, scan_byte, scan_bytes, scan_word, scan_words,
  gather_dirty_bits, last_run,
}
use oxbow.Gather.Progress.{
  run_of, pages_of, dirty_below, Scanned, end_run-Scanned, clean_page, dirty_page,
}

module _ (bmap_idx : ℕ) (d l : ℕ → Bool) (unlocked : (p : ℕ) → d p ≡ true → l p ≡ false) where
  abbrev At : ℕ → Scan → Type 0
  At q s = Scanned (bmap_idx * 8192) d l q s

  -- The scan goes on, and has come to position `q`.
  abbrev Goes : ℕ → Bool × Scan → Type 0
  Goes q (ok, s) = (ok ≡ true) × At q s

  abbrev Agrees : (ℕ → Bool) → ℕ → Type 0
  Agrees w q = (p : ℕ) → q ≤ p → w p ≡ d p

  scan_bit-Goes :
      (w : ℕ → Bool) (q : ℕ) (s : Scan)
      → w q ≡ d q
      → At q s
      → Goes (q + 1) (scan_bit bmap_idx w q s)
  unfolding scan_bit
  scan_bit-Goes w q s same v = elim (Bool-cases (d q)) [
    | inl dirty ↦
        let free : s.lock q ≡ false = v.lock_later q (omega arith) ∙ unlocked q dirty in
        let dirty_bit : w q ≡ true = same ∙ dirty in
        rw dirty_bit (rw free (refl, dirty_page bmap_idx v dirty (unlocked q dirty)))
    | inr clean ↦
        let unset : w q ≡ false = same ∙ clean in
        let ended = end_run-Scanned bmap_idx v in
        rw unset (refl, clean_page bmap_idx ended.0 clean ended.1)
  ]

  go_on :
      (q : ℕ) (r : Bool × Scan) (rest : Bool × Scan)
      → r.0 ≡ true
      → Goes q rest
      → Goes q (if r.0 then rest else (false, r.1))
  go_on q r rest ok h = rw ok h

  scan_bits-Goes :
      (w : ℕ → Bool) (q n : ℕ) (s : Scan)
      → Agrees w q
      → At q s
      → Goes (q + n) (scan_bits bmap_idx w q n s)
  unfolding scan_bits
  scan_bits-Goes w q zero s same v = (refl, subst (λ k. At k s) (omega arith) v)
  scan_bits-Goes w q (suc n) s same v =
      let one = scan_bit-Goes w q s (same q (omega arith)) v in
      let next = (scan_bit bmap_idx w q s).1 in
      let rest = scan_bits-Goes w (q + 1) n next (λ p le. same p (omega arith)) one.1 in
      go_on (q + suc n) _ _ one.0
        (subst (λ k. Goes k (scan_bits bmap_idx w (q + 1) n next)) (omega arith) rest)

  -- Clean pages outside a run.
  skip :
      (w : ℕ → Bool) (q n : ℕ) (s : Scan)
      → Agrees w q
      → none_set w q n ≡ true
      → s.count ≡ 0
      → At q s
      → At (q + n) s
  unfolding none_set
  skip w q zero s same blank idle v = subst (λ k. At k s) (omega arith) v
  skip w q (suc n) s same blank idle v = elim (Bool-cases (w q)) [
    | inl dirty_bit ↦ absurd (ground (arith, dirty_bit))
    | inr unset ↦
        let clean = sym (same q (omega arith)) ∙ unset in
        let rest : none_set w (q + 1) n ≡ true =
          sym (ap (λ b. not b && none_set w (q + 1) n) unset) ∙ blank in
        subst (λ k. At k s) (omega arith)
          (skip w (q + 1) n s (λ p le. same p (omega arith)) rest idle
            (clean_page bmap_idx v clean idle))
  ]

  scan_byte-Goes :
      (w : ℕ → Bool) (b : ℕ) (s : Scan)
      → Agrees w (b * 8)
      → At (b * 8) s
      → Goes (b * 8 + 8) (scan_byte bmap_idx w b s)
  unfolding scan_byte
  scan_byte-Goes w b s same v = elim (Bool-cases (none_set w (b * 8) 8)) [
    | inl blank ↦
        let ended = end_run-Scanned bmap_idx v in
        rw blank (refl, skip w (b * 8) 8 (end_run bmap_idx s) same blank ended.1 ended.0)
    | inr any ↦ rw any (scan_bits-Goes w (b * 8) 8 s same v)
  ]

  scan_bytes-Goes :
      (w : ℕ → Bool) (b n : ℕ) (s : Scan)
      → Agrees w (b * 8)
      → At (b * 8) s
      → Goes ((b + n) * 8) (scan_bytes bmap_idx w b n s)
  unfolding scan_bytes
  scan_bytes-Goes w b zero s same v = (refl, subst (λ k. At k s) (omega arith) v)
  scan_bytes-Goes w b (suc n) s same v =
      let one = scan_byte-Goes w b s same v in
      let next = (scan_byte bmap_idx w b s).1 in
      let rest =
        scan_bytes-Goes w (b + 1) n next (λ p le. same p (omega arith))
          (subst (λ k. At k next) (omega arith) one.1) in
      go_on ((b + suc n) * 8) _ _ one.0
        (subst (λ k. Goes k (scan_bytes bmap_idx w (b + 1) n next)) (omega arith) rest)

  scan_word-Goes : (i : ℕ) (s : Scan) → At (i * 64) s → Goes ((i + 1) * 64) (scan_word bmap_idx i s)
  unfolding scan_word
  scan_word-Goes i s v = elim (Bool-cases (none_set s.dirty (i * 64) 64)) [
    | inl blank ↦
        let ended = end_run-Scanned bmap_idx v in
        rw blank (
          refl,
          subst (λ k. At k (end_run bmap_idx s)) (omega arith)
              (skip s.dirty (i * 64) 64 (end_run bmap_idx s) v.dirty_later blank ended.1 ended.0),
        )
    | inr any ↦ rw any (
        subst (λ k. Goes k (scan_bytes bmap_idx s.dirty (i * 8) 8 s)) (omega arith)
          (scan_bytes-Goes s.dirty (i * 8) 8 s (λ p le. v.dirty_later p (omega arith))
            (subst (λ k. At k s) (omega arith) v)))
  ]

  scan_words-Goes :
      (i n : ℕ) (s : Scan) → At (i * 64) s → Goes ((i + n) * 64) (scan_words bmap_idx i n s)
  unfolding scan_words
  scan_words-Goes i zero s v = (refl, subst (λ k. At k s) (omega arith) v)
  scan_words-Goes i (suc n) s v =
      let one = scan_word-Goes i s v in
      let next = (scan_word bmap_idx i s).1 in
      let rest = scan_words-Goes (i + 1) n next one.1 in
      go_on ((i + suc n) * 64) _ _ one.0
        (subst (λ k. Goes k (scan_words bmap_idx (i + 1) n next)) (omega arith) rest)

  -- What holds when the scan has come to its end.
  abbrev Found : Bool × Scan → Type 0
  Found (ok, s) =
      (ok ≡ true)
      × (pages_of s.calls ≡ dirty_below (bmap_idx * 8192) d 8192)
      × ((p : ℕ) → p < 8192 → s.dirty p ≡ false)
      × ((p : ℕ) → p < 8192 → s.lock p ≡ (d p || l p))
      × ((p : ℕ) → 8192 ≤ p → (s.dirty p ≡ d p) × (s.lock p ≡ l p))

  last_run-Found : (r : Bool × Scan) → Goes 8192 r → Found (last_run bmap_idx r)
  unfolding last_run run_of
  last_run-Found (ok, s) (finished, v) =
      let (e, idle) = end_run-Scanned bmap_idx v in
      let s' = end_run bmap_idx s in
      let none_left : pages_of s'.calls ++ run_of (s'.pos + bmap_idx * 8192) s'.count
          ≡ pages_of s'.calls =
        ap (λ n. pages_of s'.calls ++ run_of (s'.pos + bmap_idx * 8192) n) idle ∙ append-nil _ in
      rw finished (
        refl,
        sym none_left ∙ e.found,
        e.cleaned,
        e.locked,
        λ p le. (e.dirty_later p le, e.lock_later p le),
      )

  abbrev start : Scan
  start = record { dirty = d; lock = l; count = 0; pos = 0; calls = [] }

  start-Scanned : At 0 start
  unfolding pages_of run_of dirty_below
  start-Scanned = record {
    found = refl;
    joined = inl refl;
    cleaned = λ p lt. absurd (omega (arith, lt));
    locked = λ p lt. absurd (omega (arith, lt));
    dirty_later = λ p le. refl;
    lock_later = λ p le. refl;
  }

  -- When no dirty page of the block is locked, `gather_dirty_bits` comes to its end. The ranges that it
  -- adds are then exactly the dirty pages of the block, each once and in ascending order; the block's
  -- pages are clean, those that were dirty are locked as well as those that were locked, and bits behind
  -- the block are as they were.
  pub gather_dirty_bits-finds :
      let (ok, s) = gather_dirty_bits bmap_idx d l in
      (ok ≡ true)
      × (pages_of s.calls ≡ dirty_below (bmap_idx * 8192) d 8192)
      × ((p : ℕ) → p < 8192 → s.dirty p ≡ false)
      × ((p : ℕ) → p < 8192 → s.lock p ≡ (d p || l p))
      × ((p : ℕ) → 8192 ≤ p → (s.dirty p ≡ d p) × (s.lock p ≡ l p))
  unfolding gather_dirty_bits
  gather_dirty_bits-finds =
      last_run-Found (scan_words bmap_idx 0 128 start) (scan_words-Goes 0 128 start start-Scanned)
