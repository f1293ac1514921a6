-- ===== src/Prelude/Remainders.antt =====
-- Remainders at a variable modulus.
use Prim.Native.Nat.{ℕ, ◌+◌, ◌-◌, ◌%◌, ◌<◌}
use mathlib.Core.Logic.{◌≢◌}
use native.Mathlib.Omega.{arith}
use native.Mathlib.Decide.{dec_lt}
use native.Mathlib.Nat.{mod-lt, mod-eq_of_lt, mod-eq-sub-mod, mod-add-mod}

-- Fewer than `size` steps do not come back to the same place.
pub mod-ne : (size off d : ℕ) → 0 < d → d < size → off % size ≢ (off + d) % size
mod-ne size off d pos lt e = elim (dec_lt (off % size + d) size) [
  | yes p ↦ omega (arith, mod-eq_of_lt p, mod-add-mod off size d)
  | no p ↦ omega (
    arith,
    mod-add-mod off size d,
    mod-lt off {m = size} (omega arith),
    mod-eq-sub-mod {n = off % size + d} {m = size} (omega arith),
    mod-eq_of_lt {n = off % size + d - size} {m = size}
        (omega (arith, mod-lt off {m = size} (omega arith))),
  )
]
