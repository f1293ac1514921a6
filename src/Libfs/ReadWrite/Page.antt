-- ===== src/Libfs/ReadWrite/Page.antt =====
-- What the write of one page changes in the shared state.
use oxbow.Prelude.{
  ℕ, ◌-◌, ◌*◌, ◌/◌, ◌<◌, ◌≡◌, refl, ap, ◌∙◌, ◌≢◌, inl, inr, Bool, true, false, ◌&&◌, ◌||◌, arith,
  ltb, ◌==◌, if◌then◌else◌, Bool-cases, u64,
}
use oxbow.ShmLayout.{BitType, dirtybit, lockbit, uptodatebit, skipread_bit, ShmFile}
use oxbow.Libfs.PageBits.{
  put_bit, bit_of, set_skipread_bit, clear_skipread_bit, bit_of-put_bit, bit_of-put_other,
}
use oxbow.Libfs.ReadWrite.{mark_skipread}

-- Whether the daemon need not read a page from the disk: the file is empty or ends before the page, or
-- the whole page is written.
pub needs_no_read : ℕ → ℕ → Bool → Bool
needs_no_read f_size pi whole = (f_size == 0) || ltb ((f_size - 1) / 4096) pi || whole

pick :
    (P : Bool → ShmFile) (a b : Bool)
    → (if a then P true else if b then P true else P false) ≡ P (a || b)
pick P true b = refl
pick P false true = refl
pick P false false = refl

or_true : (a : Bool) → a || true ≡ true
or_true true = refl
or_true false = refl

or_and_false : (a b c : Bool) → (a || (b && false)) || c ≡ a || c
or_and_false true b c = refl
or_and_false false true c = refl
or_and_false false false c = refl

module _ (m : ℕ) where
  -- The bits of a page behind its write.
  unfoldable pub marked : Bool → ℕ → ShmFile → ShmFile
  marked no_read p h = put_bit m lockbit p false (
      put_bit m dirtybit p true (
        put_bit m uptodatebit p true
          (put_bit m skipread_bit p no_read (put_bit m lockbit p true h))))

  pub mark_skipread-put_bit :
      (f_size p len : ℕ) (h : ShmFile)
      → mark_skipread m f_size p len h
        ≡ put_bit m skipread_bit p (needs_no_read f_size p (len == 4096)) h
  unfolding mark_skipread set_skipread_bit clear_skipread_bit needs_no_read
  mark_skipread-put_bit f_size p len h =
      pick (λ b. put_bit m skipread_bit p b h) _ (len == 4096)
      ∙ ap (λ b. put_bit m skipread_bit p b h)
          (elim (Bool-cases (f_size == 0)) [
            | inl empty ↦ rw empty (ap (λ b. b || (len == 4096)) (or_true (ltb 0 p)))
            | inr filled ↦ rw filled (
                or_and_false (ltb ((f_size - 1) / 4096) p) ((f_size - 1) / 4096 == 0) (len == 4096))
          ])

  module _ (no_read : Bool) (p : ℕ) (h : ShmFile) (small : p * 4096 < u64) where
    pub marked-bits :
        (bit_of m dirtybit p (marked no_read p h) ≡ true)
        × (bit_of m uptodatebit p (marked no_read p h) ≡ true)
        × (bit_of m lockbit p (marked no_read p h) ≡ false)
        × (bit_of m skipread_bit p (marked no_read p h) ≡ no_read)
    unfolding marked
    marked-bits = (
      bit_of-put_other m lockbit dirtybit p p false _ small small (inr (omega arith))
          ∙ bit_of-put_bit m dirtybit p true _,
      bit_of-put_other m lockbit uptodatebit p p false _ small small (inr (omega arith))
          ∙ bit_of-put_other m dirtybit uptodatebit p p true _ small small (inr (omega arith))
          ∙ bit_of-put_bit m uptodatebit p true _,
      bit_of-put_bit m lockbit p false _,
      bit_of-put_other m lockbit skipread_bit p p false _ small small (inr (omega arith))
          ∙ bit_of-put_other m dirtybit skipread_bit p p true _ small small (inr (omega arith))
          ∙ bit_of-put_other m uptodatebit skipread_bit p p true _ small small (inr (omega arith))
          ∙ bit_of-put_bit m skipread_bit p no_read _,
    )

    pub marked-other :
        (t : BitType) (q : ℕ)
        → q * 4096 < u64
        → p ≢ q
        → bit_of m t q (marked no_read p h) ≡ bit_of m t q h
    unfolding marked
    marked-other t q small' ne =
        bit_of-put_other m lockbit t p q false _ small small' (inl ne)
        ∙ bit_of-put_other m dirtybit t p q true _ small small' (inl ne)
        ∙ bit_of-put_other m uptodatebit t p q true _ small small' (inl ne)
        ∙ bit_of-put_other m skipread_bit t p q no_read _ small small' (inl ne)
        ∙ bit_of-put_other m lockbit t p q true h small small' (inl ne)

  pub marked-kept :
      (no_read : Bool) (p : ℕ) (h : ShmFile)
      → marked no_read p h ≡ record h { bytes = (marked no_read p h).bytes }
  unfolding marked put_bit
  marked-kept no_read p h = refl
