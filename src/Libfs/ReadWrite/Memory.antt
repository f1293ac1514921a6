-- ===== src/Libfs/ReadWrite/Memory.antt =====
-- Copying a range page by page copies the range.
use oxbow.Prelude.{
  ℕ, zero, suc, ◌+◌, ◌-◌, ◌*◌, ◌%◌, ◌≤◌, ◌<◌, min, ◌≡◌, sym, ap, ap₂, ◌∙◌, fun_ext, ◌⊎◌, inl, inr,
  arith, u64, u32, sub64, mul64,
}
use native.Mathlib.Decide.{dec_lt}
use oxbow.Libfs.ReadWrite.{memcpy, bytes_to_copy, bytes_to_copy32, read_loop}

-- The two ranges of `n` bytes do not overlap.
abbrev pub IsApart : ℕ → ℕ → ℕ → Type 0
IsApart d s n = (d + n ≤ s) ⊎ (s + n ≤ d)

pub memcpy-zero : (m : ℕ → ℕ) (d s : ℕ) → memcpy m d s 0 ≡ m
unfolding memcpy
memcpy-zero m d s = fun_ext (λ i. ground arith)

pub memcpy_inside :
    (m : ℕ → ℕ) (d s n i : ℕ) → d ≤ i → i < d + n → memcpy m d s n i ≡ m (s + (i - d))
unfolding memcpy
memcpy_inside m d s n i lo hi = ground arith

pub memcpy_outside : (m : ℕ → ℕ) (d s n i : ℕ) → (i < d) ⊎ (d + n ≤ i) → memcpy m d s n i ≡ m i
unfolding memcpy
memcpy_outside m d s n i out = ground arith

module _ (m : ℕ → ℕ) (d s a b : ℕ) (apart : IsApart d s (a + b)) where
  twice : (i : ℕ) → memcpy (memcpy m d s a) (d + a) (s + a) b i ≡ memcpy m d s (a + b) i
  twice i = elim (dec_lt i (d + a)) [
    | yes first ↦ memcpy_outside _ _ _ b i (inl first) ∙ elim (dec_lt i d) [
      | yes before ↦
          memcpy_outside m d s a i (inl before) ∙ sym (memcpy_outside m d s (a + b) i (inl before))
      | no from ↦
          memcpy_inside m d s a i (omega (arith, from)) first
          ∙ sym (memcpy_inside m d s (a + b) i (omega (arith, from)) (omega (arith, first)))
    ]
    | no second ↦ elim (dec_lt i (d + (a + b))) [
      | yes within ↦
          memcpy_inside _ _ _ b i (omega (arith, second)) (omega (arith, within))
          ∙ memcpy_outside m d s a _ (omega (arith, second, within, apart))
          ∙ ap m (omega (arith, second))
          ∙ sym (memcpy_inside m d s (a + b) i (omega (arith, second)) within)
      | no behind ↦
          memcpy_outside _ _ _ b i (inr (omega (arith, behind)))
          ∙ memcpy_outside m d s a i (inr (omega (arith, second)))
          ∙ sym (memcpy_outside m d s (a + b) i (inr (omega (arith, behind))))
    ]
  ]

  pub memcpy-memcpy : memcpy (memcpy m d s a) (d + a) (s + a) b ≡ memcpy m d s (a + b)
  memcpy-memcpy = fun_ext twice

-- A page takes what remains, or its rest.
pub bytes_to_copy-min :
    (pi c r : ℕ)
    → c ≤ (pi + 1) * 4096
    → (pi + 1) * 4096 < u64
    → bytes_to_copy pi c r ≡ min r ((pi + 1) * 4096 - c)
unfolding bytes_to_copy
bytes_to_copy-min pi c r le small =
    let left : sub64 4096 (sub64 c (mul64 pi 4096)) ≡ (pi + 1) * 4096 - c = omega arith in
    rw left (ground arith)

pub bytes_to_copy32-min :
    (pi c r : ℕ)
    → c ≤ (pi + 1) * 4096
    → (pi + 1) * 4096 < u64
    → (pi + 1) * 4096 < c + u32
    → bytes_to_copy32 pi c r ≡ min r ((pi + 1) * 4096 - c)
unfolding bytes_to_copy32
bytes_to_copy32-min pi c r le small near =
    let left : sub64 4096 (sub64 c (mul64 pi 4096)) % u32 ≡ (pi + 1) * 4096 - c = omega arith in
    rw left (ground arith)

-- The pages of a read put together.
pub read_loop-memcpy :
    (data_at buf : ℕ) (n pi : ℕ) (m : ℕ → ℕ) (c o r : ℕ)
    → c ≤ (pi + 1) * 4096
    → (pi * 4096 ≤ c) ⊎ (r ≡ 0)
    → (pi + n + 1) * 4096 < u64
    → c + r < u64
    → o + r < u64
    → IsApart (buf + o) (data_at + c) r
    → read_loop data_at buf pi n m c o r
      ≡ memcpy m (buf + o) (data_at + c) (min r ((pi + n) * 4096 - c))
unfolding read_loop
read_loop-memcpy f buf zero pi m c o r le from small end end' apart =
    sym
      (ap (memcpy m (buf + o) (f + c)) (omega (arith, from, le)) ∙ memcpy-zero m (buf + o) (f + c))
read_loop-memcpy f buf (suc n) pi m c o r le from small end end' apart =
    let k = min r ((pi + 1) * 4096 - c) in
    let rest = min (r - k) ((pi + 1 + n) * 4096 - (c + k)) in
    let k_le : (k ≤ r) × (k ≤ (pi + 1) * 4096 - c) = (omega arith, omega arith) in
    let last : ((pi + 1) * 4096 ≤ c + k) ⊎ (r - k ≡ 0) = omega arith in
    let total : k + rest ≡ min r ((pi + suc n) * 4096 - c) = omega (arith, le, from) in
    let w1 : (c + k) % u64 ≡ c + k = omega (arith, k_le.0, end) in
    let w2 : (o + k) % u64 ≡ o + k = omega (arith, k_le.0, end') in
    let w3 : (r + u64 - k) % u64 ≡ r - k = omega (arith, k_le.0, end) in
    rw (bytes_to_copy-min pi c r le (omega arith), w1, w2, w3)
      (read_loop-memcpy f buf n (pi + 1) (memcpy m (buf + o) (f + c) k) (c + k) (o + k) (r - k)
          (omega (arith, k_le.1, le)) last (omega (arith, small)) (omega (arith, end))
          (omega (arith, end')) (omega (arith, k_le.0, apart))
        ∙ ap₂ (λ d e. memcpy (memcpy m (buf + o) (f + c) k) d e rest) (omega arith) (omega arith)
        ∙ memcpy-memcpy m (buf + o) (f + c) k rest (omega (arith, total, apart))
        ∙ ap (memcpy m (buf + o) (f + c)) total)
