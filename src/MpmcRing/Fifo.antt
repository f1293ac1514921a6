-- ===== src/MpmcRing/Fifo.antt =====
-- The ring is a queue: what goes in comes out in the same order.
use oxbow.Prelude.{
  bit_and-mask, mod-ne, ℕ, zero, suc, ◌+◌, ◌-◌, ◌%◌, ◌^◌, ◌≤◌, ◌<◌, ◌≡◌, refl, sym, ap, ◌∙◌, ◌≢◌,
  ◌⊎◌, inl, inr, Bool, true, false, some, List, [], ◌∷◌, ◌++◌, arith, leb, ◌==◌, length, get_elem?,
  length-append, update, update_self, update-ne, add64, sub64,
}
use Prim.Native.Nat.{bit_and}
use oxbow.MpmcRing.{
  RingBufferMpmc, is_negative, claimed, refused, enqueue_loop, enqueue_at, dequeue_loop,
  RingMpmcSlot, some_exchange,
}

module _ {ℓ} {A : Type ℓ} where
  pub get_elem?-length : (q : List A) (i : ℕ) (x : A) → get_elem? q i ≡ some x → i < length q
  get_elem?-length [] i x e = absurd (ground arith)
  get_elem?-length (y ∷ q) zero x e = omega arith
  get_elem?-length (y ∷ q) (suc i) x e = omega (arith, get_elem?-length q i x e)

  get_elem?-append :
      (q : List A) (e : A) (i : ℕ) (x : A)
      → get_elem? (q ++ e ∷ []) i ≡ some x
      → (get_elem? q i ≡ some x) ⊎ ((i ≡ length q) × (e ≡ x))
  get_elem?-append [] e zero x h = inr (refl, ground (arith, h))
  get_elem?-append [] e (suc i) x h = absurd (ground (arith, h))
  get_elem?-append (y ∷ q) e zero x h = inl h
  get_elem?-append (y ∷ q) e (suc i) x h = elim (get_elem?-append q e i x h) [
    | inl old ↦ inl old
    | inr (at, same) ↦ inr (omega arith, same)
  ]

-- The slots from the dequeue position on hold the queue, each with the number behind its position; the
-- other slots of the round wait for their position.
pub record IsQueue (queue : List ℕ) (rb : RingBufferMpmc) : Type 0 where
  pub order : ℕ
  pub capacity_pow : rb.capacity ≡ 2 ^ order
  pub mask_pow : rb.mask ≡ 2 ^ order - 1
  pub some_size : 1 < rb.capacity
  pub small : rb.enqueue_pos + rb.capacity < 9223372036854775808
  pub counted : rb.enqueue_pos ≡ rb.dequeue_pos + length queue
  pub fits : length queue ≤ rb.capacity
  pub full :
      (i x : ℕ)
      → get_elem? queue i ≡ some x
      → rb.slots ((rb.dequeue_pos + i) % rb.capacity)
        ≡ record { sequence = rb.dequeue_pos + i + 1; value = x }
  pub vacant :
      (i : ℕ)
      → length queue ≤ i
      → i < rb.capacity
      → (rb.slots ((rb.dequeue_pos + i) % rb.capacity)).sequence ≡ rb.dequeue_pos + i

module _ (rb : RingBufferMpmc) where
  pub enqueue_loop-claimed :
      (tries : List Bool)
      → (rb.slots (bit_and rb.enqueue_pos rb.mask)).sequence ≡ rb.enqueue_pos
      → some_exchange tries ≡ true
      → enqueue_loop tries rb ≡ claimed rb.enqueue_pos
  unfolding enqueue_loop some_exchange
  enqueue_loop-claimed [] e one = absurd (ground arith)
  enqueue_loop-claimed (true ∷ more) e one =
      let d : (sub64 rb.enqueue_pos rb.enqueue_pos == 0) ≡ true = ground arith in rw e (rw d refl)
  enqueue_loop-claimed (false ∷ more) e one =
      let d : (sub64 rb.enqueue_pos rb.enqueue_pos == 0) ≡ true = ground arith in
      rw e (rw d (enqueue_loop-claimed more e one))

  pub enqueue_loop-refused :
      (b : Bool) (more : List Bool) (s : ℕ)
      → (rb.slots (bit_and rb.enqueue_pos rb.mask)).sequence ≡ s
      → s < rb.enqueue_pos
      → rb.enqueue_pos < 9223372036854775808
      → enqueue_loop (b ∷ more) rb ≡ refused
  unfolding enqueue_loop is_negative
  enqueue_loop-refused b more s e lt small =
      let d : (sub64 s rb.enqueue_pos == 0) ≡ false = ground arith in
      let n : leb 9223372036854775808 (sub64 s rb.enqueue_pos) ≡ true = ground arith in
      rw e (rw d (rw n refl))

  pub dequeue_loop-claimed :
      (tries : List Bool)
      → (rb.slots (bit_and rb.dequeue_pos rb.mask)).sequence ≡ rb.dequeue_pos + 1
      → rb.dequeue_pos < 9223372036854775808
      → some_exchange tries ≡ true
      → dequeue_loop tries rb ≡ claimed rb.dequeue_pos
  unfolding dequeue_loop some_exchange
  dequeue_loop-claimed [] e small one = absurd (ground arith)
  dequeue_loop-claimed (true ∷ more) e small one =
      let d : (sub64 (rb.dequeue_pos + 1) (add64 rb.dequeue_pos 1) == 0) ≡ true = ground arith in
      rw e (rw d refl)
  dequeue_loop-claimed (false ∷ more) e small one =
      let d : (sub64 (rb.dequeue_pos + 1) (add64 rb.dequeue_pos 1) == 0) ≡ true = ground arith in
      rw e (rw d (dequeue_loop-claimed more e small one))

  pub dequeue_loop-refused :
      (b : Bool) (more : List Bool)
      → (rb.slots (bit_and rb.dequeue_pos rb.mask)).sequence ≡ rb.dequeue_pos
      → rb.dequeue_pos < 9223372036854775808
      → dequeue_loop (b ∷ more) rb ≡ refused
  unfolding dequeue_loop is_negative
  dequeue_loop-refused b more e small =
      let d : (sub64 rb.dequeue_pos (add64 rb.dequeue_pos 1) == 0) ≡ false = ground arith in
      let n : leb 9223372036854775808 (sub64 rb.dequeue_pos (add64 rb.dequeue_pos 1)) ≡ true =
        ground arith in
      rw e (rw d (rw n refl))

module _ (queue : List ℕ) (rb : RingBufferMpmc) (h : IsQueue queue rb) where
  pub index : (p : ℕ) → bit_and p rb.mask ≡ p % rb.capacity
  index p = ap (bit_and p) h.mask_pow ∙ bit_and-mask p h.order ∙ ap (◌%◌ p) (sym h.capacity_pow)

  module _ (p : ℕ) (v : RingMpmcSlot) where
    unfoldable pub stored : ℕ → RingMpmcSlot
    stored = update rb.slots (bit_and p rb.mask) v

    pub stored_at : (q : ℕ) → q % rb.capacity ≡ p % rb.capacity → stored (q % rb.capacity) ≡ v
    unfolding stored
    stored_at q e = rw (index p, e) (update_self rb.slots (p % rb.capacity) v)

    pub stored_other :
        (q : ℕ)
        → p % rb.capacity ≢ q % rb.capacity
        → stored (q % rb.capacity) ≡ rb.slots (q % rb.capacity)
    unfolding stored
    stored_other q ne = rw (index p) (update-ne rb.slots _ _ v ne)

  enqueue_at-full :
      (elem i x : ℕ)
      → length queue < rb.capacity
      → get_elem? (queue ++ elem ∷ []) i ≡ some x
      → stored rb.enqueue_pos
          (record { sequence = rb.enqueue_pos + 1; value = elem })
          ((rb.dequeue_pos + i) % rb.capacity)
        ≡ record { sequence = rb.dequeue_pos + i + 1; value = x }
  enqueue_at-full elem i x room e = elim (get_elem?-append queue elem i x e) [
    | inl old ↦
        let inside = get_elem?-length queue i x old in
        stored_other _ _ (rb.dequeue_pos + i) (λ c.
          mod-ne rb.capacity (rb.dequeue_pos + i) (length queue - i) (omega (arith, inside))
            (omega (arith, inside, room))
            (sym c ∙ ap (λ k. k % rb.capacity) (omega (arith, inside, h.counted))))
        ∙ h.full i x old
    | inr (at, same) ↦
        let here : rb.enqueue_pos ≡ rb.dequeue_pos + i = omega (arith, at, h.counted) in
        stored_at _ _ (rb.dequeue_pos + i) (ap (λ k. k % rb.capacity) (sym here))
        ∙ rw (here, same) refl
  ]

  pub enqueue_at-IsQueue :
      (elem : ℕ)
      → length queue < rb.capacity
      → rb.enqueue_pos + rb.capacity + 1 < 9223372036854775808
      → IsQueue (queue ++ elem ∷ []) (enqueue_at rb rb.enqueue_pos elem)
  unfolding enqueue_at stored
  enqueue_at-IsQueue elem room small =
      let word : add64 rb.enqueue_pos 1 ≡ rb.enqueue_pos + 1 = omega arith in
      let longer = length-append queue (elem ∷ []) in
      record {
        order = h.order;
        capacity_pow = h.capacity_pow;
        mask_pow = h.mask_pow;
        some_size = h.some_size;
        small = omega (arith, small);
        counted = omega (arith, h.counted, longer);
        fits = omega (arith, longer, room);
        full = λ i x e. rw word (enqueue_at-full elem i x room e);
        vacant = λ i behind inside.
            ap (λ s. s.sequence)
              (stored_other _ _ (rb.dequeue_pos + i) (λ c.
                mod-ne rb.capacity rb.enqueue_pos (i - length queue) (omega (arith, longer, behind))
                  (omega (arith, longer, behind, inside))
                  (c ∙ ap (λ k. k % rb.capacity) (omega (arith, longer, behind, h.counted)))))
            ∙ h.vacant i (omega (arith, longer, behind)) inside;
      }
