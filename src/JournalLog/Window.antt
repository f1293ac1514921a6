-- ===== src/JournalLog/Window.antt =====
-- The block addresses of a circular area: positions go round at its size.
use oxbow.Prelude.{
  All, Distinct, mod-ne, ℕ, zero, suc, ◌+◌, ◌%◌, ◌≤◌, ◌≡◌, refl, sym, ap, ap₂, ◌∙◌, ◌≢◌, List, [],
  ◌∷◌, ◌++◌, arith,
}
use native.Mathlib.Nat.{mod-add-mod, mod-mod}
use mathlib.Core.Path.{subst}

-- The `n` blocks from position `off` on of the area of `size` blocks at `first`.
pub window : ℕ → ℕ → ℕ → ℕ → List ℕ
window first size off zero = []
window first size off (suc n) = (first + off % size) ∷ window first size (off + 1) n

pub suc-add : (n m : ℕ) → suc n + m ≡ suc (n + m)
suc-add n m = omega arith

module _ (first size : ℕ) where
  pub window-append :
      (off n m : ℕ)
      → window first size off (n + m) ≡ window first size off n ++ window first size (off + n) m
  unfolding window
  window-append off zero m = ap₂ (λ o k. window first size o k) (omega arith) (omega arith)
  window-append off (suc n) m =
      ap (λ k. window first size off k) (suc-add n m)
      ∙ ap (λ l. (first + off % size) ∷ l)
          (window-append (off + 1) n m
            ∙ ap (λ o. window first size (off + 1) n ++ window first size o m) (omega arith))

  pub window-mod : (off n : ℕ) → window first size (off % size) n ≡ window first size off n
  unfolding window
  window-mod off zero = refl
  window-mod off (suc n) =
      ap₂ (λ a l. (first + a) ∷ l) (mod-mod off size)
        (sym (window-mod (off % size + 1) n)
          ∙ ap (λ o. window first size o n) (mod-add-mod off size 1)
          ∙ window-mod (off + 1) n)

  -- At most `size` blocks are different from each other.
  window-ne :
      (off k n : ℕ)
      → suc k + n ≤ size
      → All (λ y. first + off % size ≢ y) (window first size (off + suc k) n)
  unfolding window
  window-ne off k zero h = tt
  window-ne off k (suc n) h = (
    λ e. mod-ne size off (suc k) (omega arith) (omega arith) (omega arith),
    subst (λ o. All (λ y. first + off % size ≢ y) (window first size o n)) (omega arith)
        (window-ne off (suc k) n (omega arith)),
  )

  pub window-Distinct : (off n : ℕ) → n ≤ size → Distinct (window first size off n)
  unfolding window
  window-Distinct off zero h = tt
  window-Distinct off (suc n) h = (
    subst (λ o. All (λ y. first + off % size ≢ y) (window first size o n)) (omega arith)
        (window-ne off 0 n (omega arith)),
    window-Distinct (off + 1) n (omega arith),
  )
