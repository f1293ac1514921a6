-- ===== src/Gather/Groups/First.antt =====
-- The first set bit of a word, and the dirty group that a round gathers.
use oxbow.Prelude.{
  ℕ, zero, suc, ◌+◌, ◌*◌, ◌/◌, ◌≤◌, ◌<◌, ◌≡◌, sym, ap, ◌∙◌, inl, inr, Bool, true, false, ◌&&◌, not,
  arith, Bool-cases, update,
}
use native.Mathlib.Decide.{dec_lt}
use oxbow.Gather.{none_set}
use oxbow.Gather.Groups.{first_set, FileBits, gather_block, gather_first}

-- `q` is the first set bit from `p` on.
pub record IsFirst (w : ℕ → Bool) (p q : ℕ) : Type 0 where
  pub from : p ≤ q
  pub is_set : w q ≡ true
  pub unset_before : (r : ℕ) → p ≤ r → r < q → w r ≡ false

pub first_set-IsFirst :
    (w : ℕ → Bool) (p n : ℕ)
    → none_set w p n ≡ false
    → IsFirst w p (first_set w p n) × (first_set w p n < p + n)
unfolding first_set none_set
first_set-IsFirst w p zero h = absurd (ground (arith, h))
first_set-IsFirst w p (suc n) h = elim (Bool-cases (w p)) [
  | inl here ↦ rw here (
    record {
      from = omega arith;
      is_set = here;
      unset_before = λ r lo hi. absurd (omega (arith, lo, hi));
    },
    omega arith,
  )
  | inr later ↦
      let some_left : none_set w (p + 1) n ≡ false =
        sym (ap (λ b. not b && none_set w (p + 1) n) later) ∙ h in
      let (i, lt) = first_set-IsFirst w (p + 1) n some_left in
      rw later (
        record {
          from = omega (arith, i.from);
          is_set = i.is_set;
          unset_before = λ r lo hi. elim (dec_lt p r) [
            | yes behind ↦ i.unset_before r (omega (arith, behind)) hi
            | no at ↦ ap w (omega (arith, lo, at)) ∙ later
          ];
        },
        omega (arith, lt),
      )
]

-- There is one first set bit.
first_set_unique : (w : ℕ → Bool) (p n q : ℕ) → IsFirst w p q → q < p + n → first_set w p n ≡ q
unfolding first_set
first_set_unique w p zero q i lt = absurd (omega (arith, i.from, lt))
first_set_unique w p (suc n) q i lt = elim (dec_lt p q) [
  | yes behind ↦
      let later : w p ≡ false = i.unset_before p (omega arith) behind in
      rw later (
        first_set_unique w (p + 1) n q
          (record {
            from = omega (arith, behind);
            is_set = i.is_set;
            unset_before = λ r lo hi. i.unset_before r (omega (arith, lo)) hi;
          })
          (omega (arith, lt)))
  | no at ↦
      let here : p ≡ q = omega (arith, i.from, at) in
      let it_is : w p ≡ true = ap w here ∙ i.is_set in rw it_is here
]

pub none_set-unset :
    (w : ℕ → Bool) (p n r : ℕ) → none_set w p n ≡ true → p ≤ r → r < p + n → w r ≡ false
unfolding none_set
none_set-unset w p zero r h lo hi = absurd (omega (arith, lo, hi))
none_set-unset w p (suc n) r h lo hi = elim (Bool-cases (w p)) [
  | inl here ↦ absurd (ground (arith, h, here))
  | inr unset ↦
      let rest : none_set w (p + 1) n ≡ true =
        sym (ap (λ b. not b && none_set w (p + 1) n) unset) ∙ h in
      elim (dec_lt p r) [
        | yes behind ↦ none_set-unset w (p + 1) n r rest (omega (arith, behind)) (omega (arith, hi))
        | no at ↦ ap w (omega (arith, lo, at)) ∙ unset
      ]
]

-- A round gathers the first dirty group of the word.
pub gather_first-first :
    (is_journal : Bool) (df_id i q : ℕ) (f : FileBits)
    → IsFirst f.dg_bmap (i * 64) q
    → q < i * 64 + 64
    → gather_first is_journal df_id i f
      ≡ gather_block is_journal df_id q (record f { dg_bmap = update f.dg_bmap q false })
unfolding gather_first
gather_first-first is_journal df_id i q f first lt =
    let in_word = first_set_unique f.dg_bmap (i * 64) 64 q first lt in
    let in_byte : first_set f.dg_bmap (q / 8 * 8) 8 ≡ q =
      first_set_unique f.dg_bmap (q / 8 * 8) 8 q
        (record {
          from = omega arith;
          is_set = first.is_set;
          unset_before = λ r lo hi. first.unset_before r (omega (arith, first.from, lo)) hi;
        })
        (omega arith) in
    ap (λ k. gather_block is_journal df_id k (record f { dg_bmap = update f.dg_bmap k false }))
      (ap (λ k. first_set f.dg_bmap (k / 8 * 8) 8) in_word ∙ in_byte)
