-- ===== src/MpmcRing/Mask.antt =====
-- The capacities that the ring accepts.
use oxbow.Prelude.{
  ℕ, zero, suc, ◌+◌, ◌*◌, ◌/◌, ◌%◌, ◌^◌, ◌≤◌, ◌<◌, min, ◌≡◌, refl, sym, ap, ◌∙◌, true, arith, ltb,
  ◌==◌, ltb→lt, ==_iff, u64, sub64,
}
use native.Mathlib.Decide.{dec_lt}
use Prim.Native.Nat.{bit_and, bit_and-bitwise, digits}
use oxbow.MpmcRing.{is_power_of_two_size}

digits_same : (fuel a : ℕ) → a ≤ fuel → digits (λ b. 0) min fuel a a ≡ a
digits_same zero zero le = refl
digits_same zero (suc a) le = absurd (omega arith)
digits_same (suc n) zero le = refl
digits_same (suc n) (suc a) le = rw (digits_same n (suc a / 2) (omega arith)) (omega arith)

digits_pred :
    (fuel v : ℕ) → v < fuel → digits (λ b. 0) min fuel (suc v) v ≡ 0 → (k : ℕ) × (suc v ≡ 2 ^ k)
digits_pred zero v le e = absurd (omega arith)
digits_pred (suc n) v le e =
    let e2 : digits (λ b. 0) min n (suc v / 2) (v / 2) * 2 + min (suc v % 2) (v % 2) ≡ 0 = e in
    elim (dec_lt 0 (v % 2)) [
      | yes odd ↦
          let half : suc v / 2 ≡ suc (v / 2) = omega (arith, odd) in
          let rest =
            digits_pred n (v / 2) (omega (arith, odd))
              (ap (λ a. digits (λ b. 0) min n a (v / 2)) (sym half) ∙ omega (arith, e2)) in
          (suc (rest.0), omega (arith, rest.1, odd, half))
      | no even ↦
          let half : suc v / 2 ≡ v / 2 = omega (arith, even) in
          let e3 : digits (λ b. 0) min n (v / 2) (v / 2) ≡ 0 =
            ap (λ a. digits (λ b. 0) min n a (v / 2)) (sym half) ∙ omega (arith, e2) in
          (0, omega (arith, even, e3, digits_same n (v / 2) (omega arith)))
    ]

pow_positive : (k : ℕ) → 0 < 2 ^ k
pow_positive zero = omega arith
pow_positive (suc k) = omega (arith, pow_positive k)

digits_pow : (fuel k v : ℕ) → v < fuel → suc v ≡ 2 ^ k → digits (λ b. 0) min fuel (suc v) v ≡ 0
digits_pow zero k v lt e = absurd (omega arith)
digits_pow (suc n) zero v lt e =
    let none_left : suc v / 2 ≡ 0 = omega (arith, e) in
    let none_left' : v / 2 ≡ 0 = omega (arith, e) in
    let rest : digits (λ b. 0) min n (suc v / 2) (v / 2) ≡ 0 =
      ap (λ a. digits (λ b. 0) min n a (v / 2)) none_left
      ∙ ap (digits (λ b. 0) min n 0) none_left'
      ∙ digits_same n 0 (omega arith) in
    omega (arith, rest, e)
digits_pow (suc n) (suc k) v lt e =
    let double : 2 ^ suc k ≡ 2 ^ k + 2 ^ k = omega arith in
    let pos = pow_positive k in
    let half : suc v / 2 ≡ suc (v / 2) = omega (arith, e, double, pos) in
    let rest : digits (λ b. 0) min n (suc v / 2) (v / 2) ≡ 0 =
      ap (λ a. digits (λ b. 0) min n a (v / 2)) half
      ∙ digits_pow n k (v / 2) (omega (arith, lt, e, double, pos))
          (omega (arith, e, double, pos)) in
    omega (arith, rest, e, double)

-- Each power of two, from 2 to 2^63, is accepted.
pub pow-is_power_of_two_size : (k v : ℕ) → v < u64 → v ≡ 2 ^ suc k → is_power_of_two_size v ≡ true
unfolding is_power_of_two_size
pow-is_power_of_two_size k zero small e = absurd (omega (arith, e, pow_positive (suc k)))
pow-is_power_of_two_size k (suc v) small e =
    let less : sub64 (suc v) 1 ≡ v = omega (arith, small) in
    let more : 1 < suc v = omega (arith, e, pow_positive k) in
    let none_shared : bit_and (suc v) (sub64 (suc v) 1) ≡ 0 =
      ap (bit_and (suc v)) less
      ∙ bit_and-bitwise (suc v) v
      ∙ digits_pow (suc v) (suc k) v (omega arith) e in
    ground (arith, more, none_shared)

-- A capacity that `ring_buffer_mpmc_create` accepts is a power of two, at least 2.
pub is_power_of_two_size-pow :
    (v : ℕ) → v < u64 → is_power_of_two_size v ≡ true → (1 < v) × ((k : ℕ) × (v ≡ 2 ^ k))
unfolding is_power_of_two_size
is_power_of_two_size-pow zero small ok = absurd (ground arith)
is_power_of_two_size-pow (suc v) small ok =
    let less : sub64 (suc v) 1 ≡ v = omega arith in
    let parts : (ltb 1 (suc v) ≡ true) × ((bit_and (suc v) (sub64 (suc v) 1) == 0) ≡ true) =
      ground arith in
    (
      ltb→lt _ _ (parts.0),
      digits_pred (suc v) v (omega arith) (
          sym (bit_and-bitwise (suc v) v)
          ∙ ap (bit_and (suc v)) (sym less)
          ∙ (==_iff _ 0).0 (parts.1)),
    )
