-- ===== src/FileData/Pages.antt =====
-- Pages and blocks in a row.
use oxbow.Prelude.{
  ℕ, zero, suc, ◌+◌, ◌<◌, ◌≡◌, refl, sym, ap, ap₂, ◌∙◌, Bool, false, List, [], ◌∷◌, ◌++◌,
  append_assoc, map, length, update, arith,
}
use oxbow.TagBlocks.{Etag}
use oxbow.RangeDirty.{RangeDirty}

-- `n` numbers from `s` on.
unfoldable pub run : ℕ → ℕ → List ℕ
run s zero = []
run s (suc n) = s ∷ run (s + 1) n

-- The pages of the ranges.
unfoldable pub pages_of : List RangeDirty → List ℕ
pages_of [] = []
pages_of (rd ∷ rds) = run rd.start rd.nr ++ pages_of rds

-- The blocks of the tags.
unfoldable pub blocks_of : List Etag → List ℕ
blocks_of [] = []
blocks_of (e ∷ es) = run e.start e.cnt ++ blocks_of es

-- The lock bits behind the copy of the pages.
unfoldable pub unlocked : List ℕ → (ℕ → Bool) → ℕ → Bool
unlocked [] l = l
unlocked (p ∷ ps) l = unlocked ps (update l p false)

pub run-append : (s m n : ℕ) → run s (m + n) ≡ run s m ++ run (s + m) n
unfolding run
run-append s zero n =
    let e : s + 0 ≡ s = omega arith in let f : 0 + n ≡ n = omega arith in rw e (rw f refl)
run-append s (suc m) n =
    let e : suc m + n ≡ suc (m + n) = omega arith in
    let f : s + suc m ≡ s + 1 + m = omega arith in
    rw e (rw f (ap (λ l. s ∷ l) (run-append (s + 1) m n)))

pub map-run :
    (f : ℕ → ℕ) (s t n : ℕ) → ((k : ℕ) → k < n → f (s + k) ≡ t + k) → map f (run s n) ≡ run t n
unfolding run
map-run f s t zero h = refl
map-run f s t (suc n) h =
    ap₂ (λ x l. x ∷ l) (ap f (omega arith) ∙ h 0 (omega arith) ∙ omega arith)
      (map-run f (s + 1) (t + 1) n
        (λ k lt. ap f (omega arith) ∙ h (k + 1) (omega arith) ∙ omega arith))

pub pages_of-append : (rs ts : List RangeDirty) → pages_of (rs ++ ts) ≡ pages_of rs ++ pages_of ts
unfolding pages_of
pages_of-append [] ts = refl
pages_of-append (r ∷ rs) ts =
    ap (λ l. run r.start r.nr ++ l) (pages_of-append rs ts)
    ∙ sym (append_assoc (run r.start r.nr) (pages_of rs) (pages_of ts))

pub blocks_of-append : (ds es : List Etag) → blocks_of (ds ++ es) ≡ blocks_of ds ++ blocks_of es
unfolding blocks_of
blocks_of-append [] es = refl
blocks_of-append (d ∷ ds) es =
    ap (λ l. run d.start d.cnt ++ l) (blocks_of-append ds es)
    ∙ sym (append_assoc (run d.start d.cnt) (blocks_of ds) (blocks_of es))

pub unlocked-append :
    (ps qs : List ℕ) (l : ℕ → Bool) → unlocked (ps ++ qs) l ≡ unlocked qs (unlocked ps l)
unfolding unlocked
unlocked-append [] qs l = refl
unlocked-append (p ∷ ps) qs l = unlocked-append ps qs (update l p false)

pub length-run : (s n : ℕ) → length (run s n) ≡ n
unfolding run
length-run s zero = omega arith
length-run s (suc n) = omega (arith, length-run (s + 1) n)
