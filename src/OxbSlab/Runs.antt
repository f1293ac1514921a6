-- ===== src/OxbSlab/Runs.antt =====
-- What holds after any interleaving of the threads.
use oxbow.Prelude.{ℕ, ◌+◌, ◌<◌, List, arith, u64}
use mathlib.Core.Path.{subst}
use oxbow.OxbSlab.{SlabState, Interleaving, no_steps, then_step}
use oxbow.OxbSlab.Exchange.{Step-IsSlab}
use oxbow.OxbSlab.Invariant.{IsSlab}

-- From a valid state, every interleaving of fewer than 2^64 steps of any number of threads leads to a valid
-- state: the free list is a chain of different objects that nobody else has, and what each thread has read
-- of the head is still right as long as the version is the one that it has read.
pub Interleaving-IsSlab :
    (k n : ℕ) (free : List ℕ) (s s' : SlabState)
    → IsSlab k free s
    → Interleaving n s s'
    → k + n < u64
    → (free' : List ℕ) × IsSlab (k + n) free' s'
Interleaving-IsSlab k n free s s' h no_steps small =
    (free, subst (λ m. IsSlab m free s) (omega arith) h)
Interleaving-IsSlab k n free s s'' h (then_step {n = m} {s' = s'} t before last) small =
    let (free', h') = Interleaving-IsSlab k m free s s' h before (omega (arith, small)) in
    let (free'', h'') = Step-IsSlab (k + m) free' s' h' t (omega (arith, small)) s'' last in
    (free'', subst (λ j. IsSlab j free'' s'') (omega arith) h'')
