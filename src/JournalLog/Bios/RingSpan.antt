-- ===== src/JournalLog/Bios/RingSpan.antt =====
-- Consecutive blocks of a circular area.
use oxbow.Prelude.{
  ℕ, zero, suc, ◌+◌, ◌*◌, ◌%◌, ◌≤◌, ◌<◌, ◌≡◌, refl, sym, ap, ap₂, ◌∙◌, List, [], ◌∷◌, ◌++◌, arith,
}
use native.Mathlib.Nat.{mod-eq_of_lt, mod-add-mod, mod-mod, mod_self}
use oxbow.JournalLog.Window.{suc-add}
use oxbow.JournalLog.Bios.Spans.{Write, span}

-- `n` blocks from position `off` on, round the area of `size` blocks at `first`.
unfoldable pub ring_span : ℕ → ℕ → ℕ → ℕ → ℕ → List Write
ring_span first size off buf zero = []
ring_span first size off buf (suc n) =
    (first + off % size, buf) ∷ ring_span first size (off + 1) (buf + 4096) n

module _ (first size : ℕ) where
  pub ring_span-eq-span :
      (off buf n : ℕ) → off + n ≤ size → ring_span first size off buf n ≡ span (first + off) buf n
  unfolding ring_span span
  ring_span-eq-span off buf zero h = refl
  ring_span-eq-span off buf (suc n) h =
      ap₂ (λ b l. (first + b, buf) ∷ l) (mod-eq_of_lt (omega arith))
        (ring_span-eq-span (off + 1) (buf + 4096) n (omega arith)
          ∙ ap (λ b. span b (buf + 4096) n) (omega arith))

  pub ring_span-append :
      (off buf n m : ℕ)
      → ring_span first size off buf (n + m)
        ≡ ring_span first size off buf n ++ ring_span first size (off + n) (buf + 4096 * n) m
  unfolding ring_span
  ring_span-append off buf zero m =
      ap (λ k. ring_span first size off buf k) (omega arith)
      ∙ ap₂ (λ o b. ring_span first size o b m) (omega arith) (omega arith)
  ring_span-append off buf (suc n) m =
      ap (λ k. ring_span first size off buf k) (suc-add n m)
      ∙ ap (λ l. (first + off % size, buf) ∷ l)
          (ring_span-append (off + 1) (buf + 4096) n m
            ∙ ap₂
                (λ o b. ring_span first size (off + 1) (buf + 4096) n ++ ring_span first size o b m)
                (omega arith) (omega arith))

  pub ring_span-mod :
      (off buf n : ℕ) → ring_span first size (off % size) buf n ≡ ring_span first size off buf n
  unfolding ring_span
  ring_span-mod off buf zero = refl
  ring_span-mod off buf (suc n) =
      ap₂ (λ a l. (first + a, buf) ∷ l) (mod-mod off size)
        (sym (ring_span-mod (off % size + 1) (buf + 4096) n)
          ∙ ap (λ o. ring_span first size o (buf + 4096) n) (mod-add-mod off size 1)
          ∙ ring_span-mod (off + 1) (buf + 4096) n)

  -- The blocks behind the end of the area are those at its start.
  pub ring_span-size :
      (buf n : ℕ) → 0 < size → n ≤ size → ring_span first size size buf n ≡ span first buf n
  ring_span-size buf n pos h =
      sym (ring_span-mod size buf n)
      ∙ ap (λ o. ring_span first size o buf n) (mod_self size)
      ∙ ring_span-eq-span 0 buf n (omega arith)
      ∙ ap (λ b. span b buf n) (omega arith)
