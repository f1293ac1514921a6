-- ===== src/Gather/Progress.antt =====
-- What the scan of the bits below a position has found and changed.
use oxbow.Prelude.{
  ℕ, zero, suc, ◌+◌, ◌*◌, ◌≤◌, ◌<◌, ◌≡◌, refl, sym, ap, ap₂, ◌∙◌, ◌⊎◌, inl, inr, Bool, true, false,
  ◌||◌, List, [], ◌∷◌, ◌++◌, append-nil, append_assoc, arith, ◌==◌, if◌then◌else◌, Bool-cases,
  update, update_self, update-ne,
}
use native.Mathlib.Decide.{dec_lt}
use oxbow.RangeDirty.{RangeDirty}
use oxbow.Gather.{Scan, end_run}

-- The pages `p`, `p + 1`, … , `n` of them.
unfoldable pub run_of : ℕ → ℕ → List ℕ
run_of p zero = []
run_of p (suc n) = p ∷ run_of (p + 1) n

unfoldable pub pages_of : List RangeDirty → List ℕ
pages_of [] = []
pages_of (rd ∷ l) = run_of rd.start rd.nr ++ pages_of l

-- The dirty pages below `q`, in order, counted from page `base` on.
unfoldable pub dirty_below : ℕ → (ℕ → Bool) → ℕ → List ℕ
dirty_below base d zero = []
dirty_below base d (suc q) = dirty_below base d q ++ (if d q then (q + base) ∷ [] else [])

run_of-snoc : (p n : ℕ) → run_of p (suc n) ≡ run_of p n ++ ((p + n) ∷ [])
unfolding run_of
run_of-snoc p zero = ap (λ k. k ∷ []) (omega arith)
run_of-snoc p (suc n) =
    ap (λ l. p ∷ l) (run_of-snoc (p + 1) n ∙ ap (λ k. run_of (p + 1) n ++ (k ∷ [])) (omega arith))

pub pages_of-append : (k l : List RangeDirty) → pages_of (k ++ l) ≡ pages_of k ++ pages_of l
unfolding pages_of
pages_of-append [] l = refl
pages_of-append (rd ∷ k) l =
    ap (λ x. run_of rd.start rd.nr ++ x) (pages_of-append k l)
    ∙ sym (append_assoc (run_of rd.start rd.nr) (pages_of k) (pages_of l))

dirty_below-next :
    (base : ℕ) (d : ℕ → Bool) (q : ℕ)
    → dirty_below base d (q + 1) ≡ dirty_below base d q ++ (if d q then (q + base) ∷ [] else [])
unfolding dirty_below
dirty_below-next base d q = ap (dirty_below base d) {x = q + 1} {y = suc q} (omega arith)

pub dirty_below-clean :
    (base : ℕ) (d : ℕ → Bool) (q : ℕ)
    → d q ≡ false
    → dirty_below base d (q + 1) ≡ dirty_below base d q
dirty_below-clean base d q clean =
    dirty_below-next base d q
    ∙ ap (λ b. dirty_below base d q ++ (if b then (q + base) ∷ [] else [])) clean
    ∙ append-nil _

dirty_below-dirty :
    (base : ℕ) (d : ℕ → Bool) (q : ℕ)
    → d q ≡ true
    → dirty_below base d (q + 1) ≡ dirty_below base d q ++ ((q + base) ∷ [])
dirty_below-dirty base d q dirty =
    dirty_below-next base d q
    ∙ ap (λ b. dirty_below base d q ++ (if b then (q + base) ∷ [] else [])) dirty

-- The bits below `q` are scanned: the calls and the current run are the dirty pages, which are clean and
-- locked now; the bits from `q` on are as they were.
pub record Scanned (base : ℕ) (d l : ℕ → Bool) (q : ℕ) (s : Scan) : Type 0 where
  pub found : pages_of s.calls ++ run_of (s.pos + base) s.count ≡ dirty_below base d q
  pub joined : (s.count ≡ 0) ⊎ (s.pos + s.count ≡ q)
  pub cleaned : (p : ℕ) → p < q → s.dirty p ≡ false
  pub locked : (p : ℕ) → p < q → s.lock p ≡ (d p || l p)
  pub dirty_later : (p : ℕ) → q ≤ p → s.dirty p ≡ d p
  pub lock_later : (p : ℕ) → q ≤ p → s.lock p ≡ l p

module _ (bmap_idx : ℕ) {d l : ℕ → Bool} {q : ℕ} {s : Scan}
    (v : Scanned (bmap_idx * 8192) d l q s) where
  pub end_run-Scanned :
      Scanned (bmap_idx * 8192) d l q (end_run bmap_idx s) × ((end_run bmap_idx s).count ≡ 0)
  unfolding end_run pages_of run_of
  end_run-Scanned = elim (Bool-cases (s.count == 0)) [
    | inl idle ↦ rw idle (v, ground (arith, idle))
    | inr running ↦ rw running (
      record {
        found =
            append-nil _
            ∙ pages_of-append s.calls
                (record { start = s.pos + bmap_idx * 8192; nr = s.count } ∷ [])
            ∙ ap (λ x. pages_of s.calls ++ x) (append-nil _)
            ∙ v.found;
        joined = inl refl;
        cleaned = v.cleaned;
        locked = v.locked;
        dirty_later = v.dirty_later;
        lock_later = v.lock_later;
      },
      refl,
    )
  ]

  -- A clean page outside a run.
  pub clean_page : d q ≡ false → s.count ≡ 0 → Scanned (bmap_idx * 8192) d l (q + 1) s
  unfolding dirty_below
  clean_page clean idle = record {
    found = v.found ∙ sym (dirty_below-clean (bmap_idx * 8192) d q clean);
    joined = inl idle;
    cleaned = λ p lt. elim (dec_lt p q) [
      | yes before ↦ v.cleaned p before
      | no at ↦ v.dirty_later p (omega arith) ∙ ap d (omega arith) ∙ clean
    ];
    locked = λ p lt. elim (dec_lt p q) [
      | yes before ↦ v.locked p before
      | no at ↦
          let here : p ≡ q = omega arith in v.lock_later p (omega arith) ∙ rw here (rw clean refl)
    ];
    dirty_later = λ p le. v.dirty_later p (omega arith);
    lock_later = λ p le. v.lock_later p (omega arith);
  }

  grown :
      ((s.count == 0) ≡ true) ⊎ ((s.count == 0) ≡ false)
      → d q ≡ true
      → pages_of s.calls
          ++ run_of ((if s.count == 0 then q else s.pos) + bmap_idx * 8192) (s.count + 1)
        ≡ dirty_below (bmap_idx * 8192) d (q + 1)
  unfolding run_of
  grown (inl idle) dirty =
      let none_yet : s.count ≡ 0 = ground (arith, idle) in
      let base = bmap_idx * 8192 in
      let before : pages_of s.calls ≡ dirty_below base d q =
        sym (append-nil _)
        ∙ ap (λ n. pages_of s.calls ++ run_of (s.pos + base) n) (sym none_yet)
        ∙ v.found in
      rw idle (
        ap (λ n. pages_of s.calls ++ run_of (q + base) n) {y = 1} (omega (arith, none_yet))
        ∙ ap (λ x. x ++ ((q + base) ∷ [])) before
        ∙ sym (dirty_below-dirty base d q dirty))
  grown (inr running) dirty =
      let base = bmap_idx * 8192 in
      let ends_here : s.pos + s.count ≡ q = ground (arith, running, v.joined) in
      rw running (
        ap (λ n. pages_of s.calls ++ run_of (s.pos + base) n) {y = suc s.count} (omega arith)
        ∙ ap (λ x. pages_of s.calls ++ x) (run_of-snoc (s.pos + base) s.count)
        ∙ sym (append_assoc (pages_of s.calls) (run_of (s.pos + base) s.count) _)
        ∙ ap₂ (λ x k. x ++ (k ∷ [])) v.found (omega (arith, ends_here))
        ∙ sym (dirty_below-dirty base d q dirty))

  pub dirty_page :
      d q ≡ true
      → l q ≡ false
      → Scanned (bmap_idx * 8192) d l (q + 1) (record s {
        pos = if s.count == 0 then q else s.pos;
        count = s.count + 1;
        dirty = update s.dirty q false;
        lock = update s.lock q true;
      })
  dirty_page dirty unlocked = record {
    found = grown (Bool-cases (s.count == 0)) dirty;
    joined = elim (Bool-cases (s.count == 0)) [
      | inl idle ↦
          let none_yet : s.count ≡ 0 = ground (arith, idle) in
          rw idle (inr (omega (arith, none_yet)))
      | inr running ↦
          let ends_here : s.pos + s.count ≡ q = ground (arith, running, v.joined) in
          rw running (inr (omega (arith, ends_here)))
    ];
    cleaned = λ p lt. elim (dec_lt p q) [
      | yes before ↦ update-ne s.dirty q p false (omega arith) ∙ v.cleaned p before
      | no at ↦ ap (update s.dirty q false) {y = q} (omega arith) ∙ update_self s.dirty q false
    ];
    locked = λ p lt. elim (dec_lt p q) [
      | yes before ↦ update-ne s.lock q p true (omega arith) ∙ v.locked p before
      | no at ↦ let here : p ≡ q = omega arith in rw here (rw dirty (update_self s.lock q true))
    ];
    dirty_later = λ p le. update-ne s.dirty q p false (omega arith) ∙ v.dirty_later p (omega arith);
    lock_later = λ p le. update-ne s.lock q p true (omega arith) ∙ v.lock_later p (omega arith);
  }
