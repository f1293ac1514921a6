-- ===== src/Checkpoint/Transfer/Address.antt =====
-- Where the blocks of the groups lie in the logs.
use oxbow.Prelude.{
  ℕ, zero, suc, ◌+◌, ◌≤◌, ◌<◌, ◌≡◌, ◌≢◌, refl, sym, ap, ◌∙◌, true, false, Bool, ltb, leb, ◌==◌,
  ◌&&◌, not, if◌then◌else◌, u32, arith,
}
use oxbow.Checkpoint.Transfer.{Logs}

-- The block behind the last one of a log is its first.
abbrev pub place : Logs → Bool → ℕ → ℕ
place logs kind a = if ltb (logs.last_blk kind) a then logs.first_blk kind else a

-- The address of block `p`, where `gs` is the group of each block and `kind` says which groups lie in the
-- stage log. A group begins at its own address; its blocks follow each other round the log.
unfoldable pub log_address : Logs → (ℕ → Bool) → (ℕ → ℕ) → ℕ → ℕ
log_address logs kind gs zero = place logs (kind (gs 0)) (gs 0)
log_address logs kind gs (suc p) =
    if gs (suc p) == gs p
    then place logs (kind (gs p)) (log_address logs kind gs p + 1)
    else place logs (kind (gs (suc p))) (gs (suc p))

-- A group's tags are marked for the log that it lies in, and it begins inside that log, or behind its last
-- block.
abbrev pub is_placed : Logs → (ℕ → Bool) → ℕ → Bool → Bool
is_placed logs kind g stage =
    (if kind g then stage else not stage)
    && (leb (logs.first_blk stage) g && leb g (logs.last_blk stage + 1))

pub record IsLogs (logs : Logs) : Type 0 where
  pub ordered : (kind : Bool) → logs.first_blk kind ≤ logs.last_blk kind
  pub addressed : (kind : Bool) → logs.last_blk kind + u32 < 18446744073709551615

-- Blocks of one group, before the end of the log.
pub log_address_run :
    (logs : Logs) (kind : ℕ → Bool) (gs : ℕ → ℕ) (p m g : ℕ)
    → ((k : ℕ) → k < m → gs (p + k) ≡ g)
    → log_address logs kind gs p + m ≤ logs.last_blk (kind g) + 1
    → (k : ℕ) → k < m
    → log_address logs kind gs (p + k) ≡ log_address logs kind gs p + k
unfolding log_address
log_address_run logs kind gs p m g same fits zero lt =
    let e : p + 0 ≡ p = omega arith in rw e (omega arith)
log_address_run logs kind gs p m g same fits (suc k) lt =
    let e : p + suc k ≡ suc (p + k) = omega arith in
    let before = same k (omega arith) in
    let here : gs (suc (p + k)) ≡ g = ap gs (sym e) ∙ same (suc k) lt in
    let at = log_address_run logs kind gs p m g same fits k (omega arith) in
    let go_on : (gs (suc (p + k)) == gs (p + k)) ≡ true = ground arith in
    rw e (rw go_on (rw before (rw at (ground arith))))

-- The address of the first block behind a run.
pub log_address_next :
    (logs : Logs) (kind : ℕ → Bool) (gs : ℕ → ℕ) (q g : ℕ)
    → gs q ≡ g
    → ((gs (suc q) ≡ g)
        → log_address logs kind gs (suc q) ≡ place logs (kind g) (log_address logs kind gs q + 1))
      × ((gs (suc q) ≢ g)
          → log_address logs kind gs (suc q) ≡ place logs (kind (gs (suc q))) (gs (suc q)))
unfolding log_address
log_address_next logs kind gs q g here = (
  (λ e. let t : (gs (suc q) == gs q) ≡ true = ground arith in rw t (rw here refl)),
  (λ e. let t : (gs (suc q) == gs q) ≡ false = ground arith in rw t refl),
)
