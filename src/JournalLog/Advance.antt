-- ===== src/JournalLog/Advance.antt =====
-- What a pointer update does: it goes round the area.
use oxbow.Prelude.{ℕ, ◌+◌, ◌-◌, ◌%◌, ◌≤◌, ◌<◌, ◌≡◌, arith, u64}
use native.Mathlib.Decide.{dec_lt}
use native.Mathlib.Nat.{mod-lt, mod-eq_of_lt, mod-eq-sub-mod}
use oxbow.JournalLog.{advance}

-- The number of blocks of the area.
abbrev pub area : ℕ → ℕ → ℕ
area first last = last - first + 1

module _ (first last p n : ℕ) (lo : first ≤ p) (hi : p ≤ last) (fits : n ≤ area first last)
    (small : last + area first last < u64) where
  advance_stays : p + n ≤ last → advance first last p n ≡ p + n
  unfolding advance
  advance_stays h = ground arith

  advance_wraps : last < p + n → advance first last p n ≡ first + (p - first + n - area first last)
  unfolding advance
  advance_wraps h = ground arith

  -- A pointer of the area advances by at most its size, modulo the size.
  pub advance_lem : advance first last p n ≡ first + (p - first + n) % area first last
  advance_lem = elim (dec_lt last (p + n)) [
    | yes wraps ↦ omega (
      arith,
      advance_wraps wraps,
      mod-eq-sub-mod {n = p - first + n} {m = area first last} (omega arith),
      mod-eq_of_lt {n = p - first + n - area first last} {m = area first last} (omega arith),
    )
    | no stays ↦ omega (
      arith,
      advance_stays (omega arith),
      mod-eq_of_lt {n = p - first + n} {m = area first last} (omega arith),
    )
  ]

  pub advance_in_area : (first ≤ advance first last p n) × (advance first last p n ≤ last)
  advance_in_area =
      omega (arith, advance_lem, mod-lt (p - first + n) {m = area first last} (omega arith))
