-- ===== src/Checkpoint/Transfer/Ring.antt =====
-- The blocks of one group, as places round the log.
use oxbow.Prelude.{
  ℕ, zero, suc, ◌+◌, ◌-◌, ◌%◌, ◌≤◌, ◌≡◌, sym, ap, ◌∙◌, inl, inr, Bool, true, ltb, ◌==◌,
  if◌then◌else◌, Bool-cases, arith,
}
use native.Mathlib.Nat.{mod-lt, mod-eq_of_lt, mod-add-mod, mod_self}
use oxbow.JournalLog.Advance.{area}
use oxbow.Checkpoint.Transfer.{Logs}
use oxbow.Checkpoint.Transfer.Address.{place, log_address}

-- A block of the log, or the one behind its last, counted round the log.
place_mod :
    (first last x : ℕ)
    → first ≤ last
    → x ≤ area first last
    → (if ltb last (first + x) then first else first + x) ≡ first + x % area first last
place_mod first last x ordered le = elim (Bool-cases (ltb last (first + x))) [
  | inl q ↦
      let whole : x ≡ area first last = ground arith in
      rw q (omega (arith, ap (λ y. y % area first last) whole ∙ mod_self (area first last)))
  | inr q ↦ rw q (omega (arith, mod-eq_of_lt {n = x} {m = area first last} (ground arith)))
]

pub log_address_ring :
    (logs : Logs) (kind : ℕ → Bool) (gs : ℕ → ℕ) (g p : ℕ)
    → logs.first_blk (kind g) ≤ g
    → g ≤ logs.last_blk (kind g) + 1
    → logs.first_blk (kind g) ≤ logs.last_blk (kind g)
    → ((k : ℕ) → k ≤ p → gs k ≡ g)
    → log_address logs kind gs p
      ≡ logs.first_blk (kind g)
        + (g - logs.first_blk (kind g) + p)
          % area (logs.first_blk (kind g)) (logs.last_blk (kind g))
unfolding log_address
log_address_ring logs kind gs g zero lo hi ordered same =
    let first = logs.first_blk (kind g) in
    let last = logs.last_blk (kind g) in
    let at : first + (g - first + 0) ≡ g = omega arith in
    rw (same 0 (omega arith)) (
      ap (λ (a : ℕ). if ltb last a then first else a) (sym at)
      ∙ place_mod first last (g - first + 0) ordered (omega arith))
log_address_ring logs kind gs g (suc p) lo hi ordered same =
    let first = logs.first_blk (kind g) in
    let last = logs.last_blk (kind g) in
    let size = area first last in
    let before = same p (omega arith) in
    let here = same (suc p) (omega arith) in
    let go_on : (gs (suc p) == gs p) ≡ true = ground arith in
    let off = g - first + p in
    let below = mod-lt off {m = size} (omega arith) in
    let next : first + off % size + 1 ≡ first + (off % size + 1) = omega arith in
    let round : (off % size + 1) % size ≡ (g - first + suc p) % size =
      mod-add-mod off size 1 ∙ ap (λ y. y % size) (omega arith) in
    rw go_on (
      rw before (
        ap (place logs (kind g)) (
          ap (λ a. a + 1)
            (log_address_ring logs kind gs g p lo hi ordered (λ k le. same k (omega arith)))
          ∙ next)
        ∙ place_mod first last (off % size + 1) ordered (omega (arith, below))
        ∙ ap (λ y. first + y) round))
