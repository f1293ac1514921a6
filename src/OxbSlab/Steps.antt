-- ===== src/OxbSlab/Steps.antt =====
-- Every step keeps the free list and the threads in order.
use oxbow.Prelude.{
  All, ℕ, ◌+◌, ◌≡◌, refl, sym, ap, ◌∙◌, ◌≢◌, ◌⊎◌, inl, inr, List, [], ◌∷◌, arith, List-cases,
  update, update_self, update-ne,
}
use native.Mathlib.Decide.{ℕ_discrete}
use native.Mathlib.Nat.{le_refl}
use mathlib.Core.Path.{subst}
use oxbow.OxbSlab.{
  Owner, unknown, listed, caller, pushing, Place, SlabState, idle, alloc_loaded, alloc_linked,
  free_started, free_loaded, go_to, begin_push, free_linked, link_object, caller_writes,
}
use oxbow.OxbSlab.Invariant.{
  Chain, IsThread, IsSlab, IsLater, IsThread_frame, IsLoaded, pushing_injective,
}

unfoldable pub tag : Owner → ℕ
tag unknown = 0
tag listed = 1
tag caller = 2
tag (pushing t) = 3

pub unlike :
    (a b : Owner) (s : SlabState) (x y : ℕ) → s.owner x ≡ a → s.owner y ≡ b → tag a ≢ tag b → x ≢ y
unlike a b s x y ea eb ne e = ne (ap tag (sym ea ∙ ap s.owner e ∙ eb))

pub All-map : (P Q : ℕ → Type 0) (l : List ℕ) → ((x : ℕ) → P x → Q x) → All P l → All Q l
All-map P Q [] f a = tt
All-map P Q (x ∷ l) f (a, b) = (f x a, All-map P Q l f b)

pub All-both : (P Q : ℕ → Type 0) (l : List ℕ) → All P l → All Q l → All (λ x. P x × Q x) l
All-both P Q [] a b = tt
All-both P Q (x ∷ l) (a, ps) (b, qs) = ((a, b), All-both P Q l ps qs)

pub Chain-frame :
    (next next' : ℕ → ℕ) (o : ℕ) (l : List ℕ)
    → All (λ x. next' x ≡ next x) l
    → Chain next o l
    → Chain next' o l
unfolding Chain
Chain-frame next next' o [] a c = c
Chain-frame next next' o (x ∷ l) (e, a) (here, nz, c) =
    (here, nz, Chain-frame next next' (next' x) l a (subst (λ k. Chain next k l) (sym e) c))

module _ (s s' : SlabState) (t : ℕ) (p : Place) (later : IsLater s s')
    (own : (u x : ℕ)
      → t ≢ u
      → s.owner x ≡ pushing u
      → (s'.owner x ≡ pushing u) × (s'.next x ≡ s.next x))
    (hd : s.obj ≢ 0 → s'.next s.obj ≡ s.next s.obj) (places : s'.pc ≡ update s.pc t p)
    (self : IsThread s' t p) where
  pub threads_step : ((u : ℕ) → IsThread s u (s.pc u)) → (u : ℕ) → IsThread s' u (s'.pc u)
  threads_step all u = elim (ℕ_discrete t u) [
    | yes same ↦
        subst (λ q. IsThread s' u q)
          (sym
            (ap (λ f. f u) places ∙ ap (λ k. update s.pc t p k) (sym same) ∙ update_self s.pc t p))
          (subst (λ k. IsThread s' k p) same self)
    | no other ↦
        subst (λ q. IsThread s' u q) (sym (ap (λ f. f u) places ∙ update-ne s.pc t u p other))
          (IsThread_frame s s' u (s.pc u) later (λ x. own u x other) hd (all u))
  ]

module _ (n : ℕ) (free : List ℕ) (s : SlabState) (h : IsSlab n free s) (t : ℕ) where
  -- A step that changes only the place of the thread.
  pub go_to-IsSlab : (p : Place) → IsThread (go_to t p s) t p → IsSlab (n + 1) free (go_to t p s)
  unfolding go_to
  go_to-IsSlab p self = record {
    chain = h.chain;
    distinct = h.distinct;
    listed_all = h.listed_all;
    nonzero = h.nonzero;
    bound = omega (arith, h.bound);
    threads =
        threads_step s (go_to t p s) t p (inl (refl, refl)) (λ u x ne e. (e, refl)) (λ z. refl) refl
          self h.threads;
  }

  pub at : (p : Place) → s.pc t ≡ p → IsThread s t p
  at p e = subst (λ q. IsThread s t q) e (h.threads t)

  pub alloc_load-IsSlab : s.obj ≢ 0 → IsSlab (n + 1) free (go_to t (alloc_loaded s.obj s.version) s)
  unfolding go_to IsThread IsLoaded
  alloc_load-IsSlab nz = go_to-IsSlab (alloc_loaded s.obj s.version) (nz, (le_refl _, λ e. refl))

  pub alloc_read-IsSlab :
      (o v : ℕ)
      → s.pc t ≡ alloc_loaded o v
      → IsSlab (n + 1) free (go_to t (alloc_linked o v (s.next o)) s)
  unfolding go_to IsThread IsLoaded
  alloc_read-IsSlab o v e =
      let (nz, l) = at (alloc_loaded o v) e in
      go_to-IsSlab (alloc_linked o v (s.next o)) (nz, l, λ e. refl)

  pub free_load-IsSlab :
      (x : ℕ)
      → s.pc t ≡ free_started x
      → IsSlab (n + 1) free (go_to t (free_loaded x s.obj s.version) s)
  unfolding go_to IsThread IsLoaded
  free_load-IsSlab x e =
      let (nz, mine) = at (free_started x) e in
      go_to-IsSlab (free_loaded x s.obj s.version) (nz, mine, (le_refl _, λ e. refl))

  -- An object that is on its way to the list, or a caller's, is not in the list.
  pub outside : (x : ℕ) (a : Owner) → s.owner x ≡ a → tag a ≢ 1 → All (λ y. x ≢ y) free
  unfolding tag
  outside x a e ne =
      All-map (λ y. s.owner y ≡ listed) (λ y. x ≢ y) free (λ y l. unlike a listed s x y e l ne)
        h.listed_all

  -- A change of the owner of such an object.
  module _ (x : ℕ) (a : Owner) (e : s.owner x ≡ a) (ne : tag a ≢ 1) where
    pub owner_kept : (b : Owner) → All (λ y. update s.owner x b y ≡ listed) free
    owner_kept b =
        All-map (λ y. (s.owner y ≡ listed) × (x ≢ y)) (λ y. update s.owner x b y ≡ listed) free
          (λ y z. update-ne s.owner x y b z.1 ∙ z.0)
          (All-both (λ y. s.owner y ≡ listed) (λ y. x ≢ y) free h.listed_all (outside x a e ne))

    pub link_kept : (link : ℕ) → All (λ y. update s.next x link y ≡ s.next y) free
    link_kept link =
        All-map (λ y. x ≢ y) (λ y. update s.next x link y ≡ s.next y) free
          (λ y z. update-ne s.next x y link z) (outside x a e ne)

  -- Nobody becomes a caller but by the owner that is written, and a thread keeps its objects.
  pub caller_kept :
      (x y : ℕ) (b : Owner) → tag b ≢ 2 → update s.owner x b y ≡ caller → s.owner y ≡ caller
  unfolding tag
  caller_kept x y b ne e = elim (ℕ_discrete x y) [
    | yes same ↦
        absurd (ne (ap tag (sym (update_self s.owner x b) ∙ ap (update s.owner x b) same ∙ e)))
    | no other ↦ sym (update-ne s.owner x y b other) ∙ e
  ]

  pub pushing_kept :
      (x y u : ℕ) (a b : Owner)
      → s.owner x ≡ a
      → a ≢ pushing u
      → s.owner y ≡ pushing u
      → (update s.owner x b y ≡ pushing u) × (x ≢ y)
  pushing_kept x y u a b e ne mine =
      let other : x ≢ y = λ same. ne (sym e ∙ ap s.owner same ∙ mine) in
      (update-ne s.owner x y b other ∙ mine, other)

  pub begin_push-IsSlab :
      (x : ℕ) (a : Owner)
      → s.pc t ≡ idle
      → s.owner x ≡ a
      → (tag a ≡ 0) ⊎ (tag a ≡ 2)
      → x ≢ 0
      → IsSlab (n + 1) free (begin_push t x s)
  unfolding begin_push go_to IsThread tag
  begin_push-IsSlab x a p e kind nz = record {
    chain = h.chain;
    distinct = h.distinct;
    listed_all = owner_kept x a e (omega (arith, kind)) (pushing t);
    nonzero = λ y c. h.nonzero y (caller_kept x y (pushing t) (omega arith) c);
    bound = omega (arith, h.bound);
    threads =
        threads_step s (begin_push t x s) t (free_started x) (inl (refl, refl))
          (λ u y other mine. (
            (pushing_kept x y u a (pushing t) e (λ same. omega (arith, ap tag same, kind)) mine).0,
            refl,
          ))
          (λ z. refl) refl (nz, update_self s.owner x (pushing t)) h.threads;
  }

  head_outside : (x : ℕ) (a : Owner) → s.owner x ≡ a → tag a ≢ 1 → s.obj ≢ 0 → x ≢ s.obj
  unfolding Chain
  head_outside x a e ne nz = elim (List-cases free) [
    | inl empty ↦ absurd (nz (subst (Chain s.next s.obj) empty h.chain))
    | inr (y, rest, l) ↦
        let c = subst (Chain s.next s.obj) l h.chain in
        let o = subst (All (λ y. x ≢ y)) l (outside x a e ne) in λ same. o.0 (same ∙ c.0)
  ]

  pub link_object-IsSlab :
      (x o v : ℕ) → s.pc t ≡ free_loaded x o v → IsSlab (n + 1) free (link_object t x o v s)
  unfolding link_object go_to IsThread tag IsLoaded
  link_object-IsSlab x o v p =
      let (nz, mine, l) = at (free_loaded x o v) p in
      record {
        chain =
            Chain-frame s.next (update s.next x o) s.obj free
              (link_kept x (pushing t) mine (omega arith) o) h.chain;
        distinct = h.distinct;
        listed_all = h.listed_all;
        nonzero = h.nonzero;
        bound = omega (arith, h.bound);
        threads =
            threads_step s (link_object t x o v s) t (free_linked x o v) (inl (refl, refl))
              (λ u y other theirs. (
                theirs,
                update-ne s.next x y o
                    (pushing_kept x y u (pushing t) listed mine
                      (λ e. other (pushing_injective t u e)) theirs).1,
              ))
              (λ z. update-ne s.next x s.obj o (head_outside x (pushing t) mine (omega arith) z))
              refl (nz, mine, l, update_self s.next x o) h.threads;
      }

  pub caller_writes-IsSlab :
      (x link : ℕ) → s.owner x ≡ caller → IsSlab (n + 1) free (caller_writes x link s)
  unfolding caller_writes tag
  caller_writes-IsSlab x link mine = record {
    chain =
        Chain-frame s.next (update s.next x link) s.obj free
          (link_kept x caller mine (omega arith) link) h.chain;
    distinct = h.distinct;
    listed_all = h.listed_all;
    nonzero = h.nonzero;
    bound = omega (arith, h.bound);
    threads = λ u.
        IsThread_frame s (caller_writes x link s) u (s.pc u) (inl (refl, refl))
          (λ y theirs. (
            theirs,
            update-ne s.next x y link
                (pushing_kept x y u caller listed mine (λ e. omega (arith, ap tag e)) theirs).1,
          ))
          (λ z. update-ne s.next x s.obj link (head_outside x caller mine (omega arith) z))
          (h.threads u);
  }
