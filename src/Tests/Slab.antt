-- ===== src/Tests/Slab.antt =====
-- A slab allocator with one object, 64, in the free list, which thread 1 is about to take.
use oxbow.Prelude.{
  ℕ, ◌+◌, ◌*◌, ◌≡◌, refl, ap, true, false, List, [], ◌∷◌, arith, ◌==◌, if◌then◌else◌,
}
use native.Mathlib.Decide.{ℕ_discrete}
use mathlib.Core.Path.{subst}
use oxbow.OxbSlab.{
  unknown, listed, caller, idle, alloc_linked, SlabState, exchange_alloc, alloc_exchange, no_steps,
  then_step,
}
use oxbow.OxbSlab.Runs.{Interleaving-IsSlab}
use oxbow.OxbSlab.Exchange.{exchanges, exchange_alloc-pops}
use oxbow.OxbSlab.Sizes.{SlabArray}
use oxbow.OxbSlab.Invariant.{Chain, IsLoaded, IsThread, IsSlab}
use oxbow.OxbSlab.Steps.{tag}

abbrev one_object : SlabState
one_object = record {
  obj = 64;
  version = 3;
  next = λ x. 0;
  owner = λ x. if x == 64 then listed else unknown;
  pc = λ t. if t == 1 then alloc_linked 64 3 0 else idle;
}

one_object-IsThread : (t : ℕ) → IsThread one_object t (one_object.pc t)
unfolding IsThread IsLoaded
one_object-IsThread t = elim (ℕ_discrete t 1) [
  | yes here ↦ rw here (omega arith, (omega arith, λ e. refl), λ e. refl)
  | no other ↦ let f : (t == 1) ≡ false = ground (arith, other) in rw f tt
]

one_object-IsSlab : IsSlab 3 (64 ∷ []) one_object
unfolding Chain tag
one_object-IsSlab = record {
  chain = (refl, omega arith, refl);
  distinct = (tt, tt);
  listed_all = (refl, tt);
  nonzero = λ x e z. omega (arith, ap tag (subst (λ k. one_object.owner k ≡ caller) z e));
  bound = omega arith;
  threads = one_object-IsThread;
}

exchange_alloc-pops_example :
    (exchanges true 64 3 one_object ≡ true
      → (rest : List ℕ) × (64 ∷ [] ≡ 64 ∷ rest)
        × (one_object.owner 64 ≡ listed)
        × ((exchange_alloc 1 true 64 3 0 one_object).owner 64 ≡ caller)
        × IsSlab 4 rest (exchange_alloc 1 true 64 3 0 one_object))
    × (exchanges true 64 3 one_object ≡ false
        → ((exchange_alloc 1 true 64 3 0 one_object).owner ≡ one_object.owner)
          × IsSlab 4 (64 ∷ []) (exchange_alloc 1 true 64 3 0 one_object))
exchange_alloc-pops_example =
    exchange_alloc-pops 3 (64 ∷ []) one_object one_object-IsSlab 1 (omega arith) true 64 3 0 refl

Interleaving-IsSlab_example :
    (free' : List ℕ) × IsSlab 4 free' (exchange_alloc 1 true 64 3 0 one_object)
Interleaving-IsSlab_example =
    Interleaving-IsSlab 3 1 (64 ∷ []) one_object (exchange_alloc 1 true 64 3 0 one_object)
      one_object-IsSlab (then_step 1 no_steps (alloc_exchange true 64 3 0 refl)) (omega arith)

abbrev full_array : SlabArray
full_array = record { slabs = λ i. 4096 * (i + 1); num_slabs = 2; slabs_capacity = 2 }
