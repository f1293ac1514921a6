-- ===== src/Prelude/Masks.antt =====
-- The bitwise conjunction with a mask of low or of high bits.
use Prim.Native.Nat.{
  ℕ, zero, suc, min, ◌+◌, ◌-◌, ◌*◌, ◌/◌, ◌%◌, ◌^◌, ◌≤◌, ◌<◌, digits, bit_and, bit_and-bitwise,
}
use mathlib.Core.Path.{◌≡◌, refl, sym, ap, ◌∙◌}
use native.Mathlib.Omega.{arith}
use native.Mathlib.Nat.{
  mod-lt, mod-eq_of_lt, zero-mod, mod-add-div', mul_assoc, add-mul-mod_self_right, pow-suc, le_refl,
}

split_mod : (w a : ℕ) → 0 < w → a % (w * 2) ≡ a / 2 % w * 2 + a % 2
split_mod w a pos_w =
    let r = mod-lt (a / 2) {m = w} pos_w in
    let cut : a ≡ a / 2 % w * 2 + a % 2 + a / 2 / w * (w * 2) = omega (
      arith,
      mod-add-div' (a / 2) w,
      ap (λ k. k * 2) (mod-add-div' (a / 2) w),
      mul_assoc (a / 2 / w) w 2,
    ) in
    ap (λ k. k % (w * 2)) cut
    ∙ add-mul-mod_self_right (a / 2 % w * 2 + a % 2) (a / 2 / w) (w * 2)
    ∙ mod-eq_of_lt (omega (arith, r))

pow_pos : (k : ℕ) → 0 < 2 ^ k
pow_pos zero = omega arith
pow_pos (suc k) = omega (arith, pow_pos k)

-- The digits of a number in common with `2 ^ k - 1`.
pub digits_mask : (fuel k a : ℕ) → a ≤ fuel → digits (λ b. 0) min fuel a (2 ^ k - 1) ≡ a % 2 ^ k
digits_mask zero k zero le = sym (zero-mod (2 ^ k))
digits_mask zero k (suc a) le = absurd (omega arith)
digits_mask (suc n) k zero le = sym (zero-mod (2 ^ k))
digits_mask (suc n) zero (suc a) le = omega (arith, digits_mask n 0 (suc a / 2) (omega arith))
digits_mask (suc n) (suc k) (suc a) le =
    let half : (2 ^ suc k - 1) / 2 ≡ 2 ^ k - 1 = omega (arith, pow_pos k) in
    let odd : (2 ^ suc k - 1) % 2 ≡ 1 = omega (arith, pow_pos k) in
    rw (half, odd, digits_mask n k (suc a / 2) (omega arith))
      (omega (arith, split_mod (2 ^ k) (suc a) (pow_pos k), ap (λ w. suc a % w) (pow-suc 2 k)))

pub bit_and-mask : (a k : ℕ) → bit_and a (2 ^ k - 1) ≡ a % 2 ^ k
bit_and-mask a k = bit_and-bitwise a (2 ^ k - 1) ∙ digits_mask a k a (le_refl a)

-- One more low bit that the mask clears.
digits_double :
    (b : ℕ) (f : ℕ → ℕ)
    → ((fuel a : ℕ) → a ≤ fuel → digits (λ x. 0) min fuel a b ≡ f a)
    → f 0 ≡ 0
    → (fuel a : ℕ) → a ≤ fuel
    → digits (λ x. 0) min fuel a (b * 2) ≡ f (a / 2) * 2
digits_double b f h f0 zero zero le = omega (arith, f0)
digits_double b f h f0 zero (suc a) le = absurd (omega arith)
digits_double b f h f0 (suc n) zero le = omega (arith, f0)
digits_double b f h f0 (suc n) (suc a) le =
    let half : b * 2 / 2 ≡ b = omega arith in
    let even : b * 2 % 2 ≡ 0 = omega arith in
    rw (half, even, h n (suc a / 2) (omega arith)) (omega arith)

pub bit_and-align : (a : ℕ) → a < 18446744073709551616 → bit_and a 18446744073709551608 ≡ a / 8 * 8
bit_and-align a small =
    bit_and-bitwise a 18446744073709551608
    ∙ digits_double 9223372036854775804 (λ a. a / 2 / 2 % 2 ^ 61 * 2 * 2)
        (digits_double 4611686018427387902 (λ a. a / 2 % 2 ^ 61 * 2)
          (digits_double (2 ^ 61 - 1) (λ a. a % 2 ^ 61) (λ fuel a le. digits_mask fuel 61 a le)
            refl)
          refl)
        refl a a (le_refl a)
    ∙ omega (arith, small)
