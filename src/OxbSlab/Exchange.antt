-- ===== src/OxbSlab/Exchange.antt =====
-- The two exchanges of the head: an allocation pops the list, a push puts an object in front.
use oxbow.Prelude.{
  All, Distinct, ℕ, ◌+◌, ◌<◌, ◌≡◌, refl, sym, ap, ◌∙◌, ◌≢◌, inl, inr, Bool, true, false, ◌&&◌, List,
  ◌∷◌, arith, ◌==◌, Bool-cases, List-cases, update, update_self, update-ne, u64, add64,
}
use native.Mathlib.Decide.{ℕ_discrete}
use mathlib.Core.Path.{subst}
use oxbow.OxbSlab.{
  listed, caller, idle, SlabState, go_to, unknown, pushing, alloc_linked, free_started, free_linked,
  exchange_alloc, exchange_free, Step, alloc_load, alloc_read, alloc_exchange, free_begin,
  new_object, free_load, free_link, free_exchange, caller_write,
}
use oxbow.OxbSlab.Invariant.{Chain, IsThread, IsSlab, IsLoaded, pushing_injective}
use oxbow.OxbSlab.Steps.{
  tag, All-map, All-both, threads_step, pushing_kept, go_to-IsSlab, at, alloc_load-IsSlab,
  alloc_read-IsSlab, free_load-IsSlab, outside, owner_kept, caller_kept, begin_push-IsSlab,
  link_object-IsSlab, caller_writes-IsSlab,
}

-- The exchange takes place.
pub exchanges : Bool → ℕ → ℕ → SlabState → Bool
exchanges works o v s = works && (s.obj == o) && (s.version == v)

exchanges_parts :
    (works : Bool) (o v : ℕ) (s : SlabState)
    → exchanges works o v s ≡ true
    → (s.obj ≡ o) × (s.version ≡ v)
unfolding exchanges
exchanges_parts works o v s e = ground arith

module _ (n : ℕ) (free : List ℕ) (s : SlabState) (h : IsSlab n free s) (t : ℕ)
    (small : n + 1 < u64) where
  later_word : (v : ℕ) → s.version ≡ v → add64 v 1 ≡ s.version + 1
  later_word v e = omega (arith, e, h.bound, small)

  popped :
      (o v k : ℕ) (rest : List ℕ)
      → free ≡ o ∷ rest
      → s.obj ≡ o
      → s.version ≡ v
      → s.next o ≡ k
      → IsSlab (n + 1) rest (record (go_to t idle s) {
        obj = k;
        version = add64 v 1;
        owner = update s.owner o caller;
      })
  unfolding go_to IsThread tag Chain
  popped o v k rest l here now link =
      let c = subst (Chain s.next s.obj) l h.chain in
      let d = subst Distinct l h.distinct in
      let a = subst (All (λ x. s.owner x ≡ listed)) l h.listed_all in
      record {
        chain = subst (λ z. Chain s.next z rest) link c.2;
        distinct = d.1;
        listed_all =
            All-map (λ y. (s.owner y ≡ listed) × (o ≢ y)) (λ y. update s.owner o caller y ≡ listed)
              rest (λ y z. update-ne s.owner o y caller z.1 ∙ z.0)
              (All-both (λ y. s.owner y ≡ listed) (λ y. o ≢ y) rest a.1 d.0);
        nonzero = λ y e. elim (ℕ_discrete o y) [
          | yes same ↦ λ z. c.1 (same ∙ z)
          | no other ↦ h.nonzero y (sym (update-ne s.owner o y caller other) ∙ e)
        ];
        bound = omega (arith, later_word v now, h.bound);
        threads =
            threads_step s _ t idle (inr (omega (arith, later_word v now)))
              (λ u y other theirs. (
                (pushing_kept n free s h t o y u listed caller a.0 (λ e. omega (arith, ap tag e))
                    theirs).0,
                refl,
              ))
              (λ z. refl) refl tt h.threads;
      }

  pushed :
      (x o v : ℕ)
      → x ≢ 0
      → s.owner x ≡ pushing t
      → s.next x ≡ s.obj
      → s.version ≡ v
      → IsSlab (n + 1) (x ∷ free) (record (go_to t idle s) {
        obj = x;
        version = add64 v 1;
        owner = update s.owner x listed;
      })
  unfolding go_to IsThread tag Chain
  pushed x o v nz mine link now = record {
    chain = (refl, nz, subst (λ z. Chain s.next z free) (sym link) h.chain);
    distinct = (outside n free s h t x (pushing t) mine (omega arith), h.distinct);
    listed_all = (
      update_self s.owner x listed,
      owner_kept n free s h t x (pushing t) mine (omega arith) listed,
    );
    nonzero = λ y e. h.nonzero y (caller_kept n free s h t x y listed (omega arith) e);
    bound = omega (arith, later_word v now, h.bound);
    threads =
        threads_step s _ t idle (inr (omega (arith, later_word v now)))
          (λ u y other theirs. (
            (pushing_kept n free s h t x y u (pushing t) listed mine
                (λ e. other (pushing_injective t u e)) theirs).0,
            refl,
          ))
          (λ z. refl) refl tt h.threads;
  }

  -- In a valid state with fewer than 2^64 steps so far, the exchange of a thread in `oxb_slab_alloc` that
  -- takes place hands out the first object of the free list, which nobody had, and leaves the rest of the
  -- list: the link that the thread has read is the right one, however long ago it has read it. An exchange
  -- that does not take place changes neither the list nor an owner.
  pub exchange_alloc-pops :
      (works : Bool) (o v k : ℕ)
      → s.pc t ≡ alloc_linked o v k
      → (exchanges works o v s ≡ true
          → (rest : List ℕ) × (free ≡ o ∷ rest)
            × (s.owner o ≡ listed)
            × ((exchange_alloc t works o v k s).owner o ≡ caller)
            × IsSlab (n + 1) rest (exchange_alloc t works o v k s))
        × (exchanges works o v s ≡ false
            → ((exchange_alloc t works o v k s).owner ≡ s.owner)
              × IsSlab (n + 1) free (exchange_alloc t works o v k s))
  unfolding exchange_alloc IsThread IsLoaded Chain exchanges go_to
  exchange_alloc-pops works o v k p = (
    λ e.
        let (here, now) = exchanges_parts works o v s e in
        let (nz, loaded, link) = at n free s h t (alloc_linked o v k) p in
        elim (List-cases free) [
          | inl empty ↦ absurd (nz (sym here ∙ subst (Chain s.next s.obj) empty h.chain))
          | inr (y, rest, l) ↦
              let c = subst (Chain s.next s.obj) l h.chain in
              let first : free ≡ o ∷ rest = l ∙ ap (λ y. y ∷ rest) (sym c.0 ∙ here) in
              (
                rest,
                first,
                (subst (All (λ x. s.owner x ≡ listed)) first h.listed_all).0,
                rw e (update_self s.owner o caller),
                rw e (popped o v k rest first here now (link (sym now))),
              )
        ],
    λ e. rw e (refl, go_to-IsSlab n free s h t idle tt),
  )

  -- In a valid state with fewer than 2^64 steps so far, the exchange of a thread that puts an object on the
  -- free list puts it in front when it takes place, and the thread tries again when it does not.
  exchange_free-pushes :
      (works : Bool) (x o v : ℕ)
      → s.pc t ≡ free_linked x o v
      → (exchanges works o v s ≡ true
          → ((exchange_free t works x o v s).owner x ≡ listed)
            × IsSlab (n + 1) (x ∷ free) (exchange_free t works x o v s))
        × (exchanges works o v s ≡ false
            → ((exchange_free t works x o v s).pc t ≡ free_started x)
              × IsSlab (n + 1) free (exchange_free t works x o v s))
  unfolding exchange_free IsThread exchanges go_to
  exchange_free-pushes works x o v p =
      let (nz, mine, loaded, link) = at n free s h t (free_linked x o v) p in
      (
        λ e.
            let (here, now) = exchanges_parts works o v s e in
            rw e (update_self s.owner x listed, pushed x o v nz mine (link ∙ sym here) now),
        λ e. rw e (
          update_self s.pc t (free_started x),
          go_to-IsSlab n free s h t (free_started x) (nz, mine),
        ),
      )

  pub Step-IsSlab : (s' : SlabState) → Step t s s' → (free' : List ℕ) × IsSlab (n + 1) free' s'
  unfolding tag
  Step-IsSlab s' (alloc_load p nz) = (free, alloc_load-IsSlab n free s h t nz)
  Step-IsSlab s' (alloc_read o v p) = (free, alloc_read-IsSlab n free s h t o v p)
  Step-IsSlab s' (alloc_exchange works o v k p) =
      let both = exchange_alloc-pops works o v k p in
      elim (Bool-cases (exchanges works o v s)) [
        | inl e ↦ ((both.0 e).0, (both.0 e).4)
        | inr e ↦ (free, (both.1 e).1)
      ]
  Step-IsSlab s' (free_begin x p mine) =
      (free, begin_push-IsSlab n free s h t x caller p mine (inr refl) (h.nonzero x mine))
  Step-IsSlab s' (new_object x p mine nz) =
      (free, begin_push-IsSlab n free s h t x unknown p mine (inl refl) nz)
  Step-IsSlab s' (free_load x p) = (free, free_load-IsSlab n free s h t x p)
  Step-IsSlab s' (free_link x o v p) = (free, link_object-IsSlab n free s h t x o v p)
  Step-IsSlab s' (free_exchange works x o v p) =
      let both = exchange_free-pushes works x o v p in
      elim (Bool-cases (exchanges works o v s)) [
        | inl e ↦ (x ∷ free, (both.0 e).1)
        | inr e ↦ (free, (both.1 e).1)
      ]
  Step-IsSlab s' (caller_write x link mine) = (free, caller_writes-IsSlab n free s h t x link mine)
