-- ===== src/Checkpoint/Transfer/Position.antt =====
-- Where the loop of pass 5 stands in the logs.
use oxbow.Prelude.{
  ℕ, suc, ◌+◌, ◌≤◌, ◌≡◌, ◌≢◌, sym, ◌∙◌, inl, inr, Bool, true, leb, ◌==◌, Bool-cases, leb→le, arith,
}
use oxbow.Checkpoint.{TagListNode}
use oxbow.Checkpoint.Groups.{OfKind}
use oxbow.Checkpoint.Transfer.{Logs, Progress, current_of}
use oxbow.Checkpoint.Transfer.Address.{place, log_address, is_placed, log_address_next}

-- `a` is a block of the log of group `g`, or the one behind its last.
abbrev pub InLog : Logs → (ℕ → Bool) → ℕ → ℕ → Type 0
InLog logs kind g a = (logs.first_blk (kind g) ≤ a) × (a ≤ logs.last_blk (kind g) + 1)

pub placed :
    (logs : Logs) (kind : ℕ → Bool) (g : ℕ) (stage : Bool)
    → is_placed logs kind g stage ≡ true
    → (stage ≡ kind g) × InLog logs kind g g
placed logs kind g stage k =
    let same : stage ≡ kind g = ground arith in
    let lo : leb (logs.first_blk stage) g ≡ true = ground arith in
    let hi : leb g (logs.last_blk stage + 1) ≡ true = ground arith in
    (same, (rw (sym same) (leb→le _ _ lo), rw (sym same) (leb→le _ _ hi)))

module _ (logs : Logs) (kind : ℕ → Bool) (gs : ℕ → ℕ) where
  -- The loop has come to block `p`.
  pub record IsAt (s : Progress) (p : ℕ) : Type 0 where
    pub continued :
        s.last_src_start_baddr_group ≡ gs p
        → (place logs (kind (gs p)) s.current_src_start_baddr ≡ log_address logs kind gs p)
          × InLog logs kind (gs p) s.current_src_start_baddr
    pub begun :
        s.last_src_start_baddr_group ≢ gs p
        → place logs (kind (gs p)) (gs p) ≡ log_address logs kind gs p

  pub current_of-lem :
      (s : Progress) (n : TagListNode) (p : ℕ)
      → IsAt s p
      → gs p ≡ n.src_start_baddr
      → OfKind (is_placed logs kind) n
      → (place logs (kind n.src_start_baddr) (current_of s n) ≡ log_address logs kind gs p)
        × InLog logs kind n.src_start_baddr (current_of s n)
  unfolding current_of
  current_of-lem s n p at here k =
      elim (Bool-cases (s.last_src_start_baddr_group == n.src_start_baddr)) [
        | inl q ↦
            let e : s.last_src_start_baddr_group ≡ gs p = ground (arith, here) in
            rw q (rw here at (at.continued e))
        | inr q ↦
            let e : s.last_src_start_baddr_group ≢ gs p = ground (arith, here) in
            rw q (rw here at (at.begun e), (placed logs kind n.src_start_baddr n.stage_tx k).1)
      ]

  -- Behind block `q` of group `g`.
  pub after-IsAt :
      (q g : ℕ) (s : Progress)
      → gs q ≡ g
      → s.last_src_start_baddr_group ≡ g
      → place logs (kind g) s.current_src_start_baddr
        ≡ place logs (kind g) (log_address logs kind gs q + 1)
      → InLog logs kind g s.current_src_start_baddr
      → IsAt s (suc q)
  after-IsAt q g s here last cur inside =
      let (go_on, begins) = log_address_next logs kind gs q g here in
      record {
        continued =
            λ e. let f : gs (suc q) ≡ g = sym e ∙ last in rw f (cur ∙ sym (go_on f), inside);
        begun = λ e. sym (begins (λ f. e (last ∙ sym f)));
      }
