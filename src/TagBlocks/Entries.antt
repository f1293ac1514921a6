-- ===== src/TagBlocks/Entries.antt =====
-- Lists of the first elements of an array.
use oxbow.Prelude.{
  ℕ, zero, suc, ◌<◌, ◌≡◌, refl, ap₂, [], ◌∷◌, ◌++◌, update, update_self, update-ne, arith,
}
use oxbow.TagBlocks.{entries}

module _ {ℓ} {A : Type ℓ} where
  pub entries-cong :
      (n : ℕ) (f g : ℕ → A) → ((k : ℕ) → k < n → f k ≡ g k) → entries n f ≡ entries n g
  unfolding entries
  entries-cong zero f g h = refl
  entries-cong (suc n) f g h =
      ap₂ (λ xs x. xs ++ (x ∷ [])) (entries-cong n f g (λ k lt. h k (omega arith)))
        (h n (omega arith))

  -- An element put behind the others.
  pub entries-update :
      (n : ℕ) (f : ℕ → A) (a : A) → entries (suc n) (update f n a) ≡ entries n f ++ (a ∷ [])
  unfolding entries
  entries-update n f a =
      ap₂ (λ xs x. xs ++ (x ∷ []))
        (entries-cong n (update f n a) f (λ k lt. update-ne f n k a (omega arith)))
        (update_self f n a)
