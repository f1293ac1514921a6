-- ===== src/MpmcRing/Calls.antt =====
-- The calls of the ring, on every branch.
use oxbow.Prelude.{
  mod-ne, ℕ, suc, ◌+◌, ◌-◌, ◌%◌, ◌≤◌, ◌<◌, ◌≡◌, refl, sym, ap, ◌∙◌, inl, inr, Bool, true, Option,
  some, List, [], ◌∷◌, ◌++◌, arith, ltb, if◌then◌else◌, lt→ltb, List-cases, length, u64, add64,
  sub64,
}
use native.Mathlib.Decide.{dec_lt}
use native.Mathlib.Nat.{mod-eq_of_lt, le_refl, add-mod_right}
use Prim.Native.Nat.{bit_and}
use oxbow.MpmcRing.{
  RingBufferMpmc, dequeue_at, Status, success, eagain, RingMpmcSlot, is_power_of_two_size,
  enqueue_at, ring_buffer_mpmc_try_enqueue, ring_buffer_mpmc_try_dequeue, ring_buffer_mpmc_count,
  ring_buffer_mpmc_space, some_exchange, enqueue_loop, finish_enqueue, finish_dequeue,
}
use oxbow.MpmcRing.Fifo.{
  IsQueue, stored, stored_at, stored_other, enqueue_loop-claimed, enqueue_loop-refused,
  dequeue_loop-claimed, dequeue_loop-refused, index, enqueue_at-IsQueue, get_elem?-length,
}
use oxbow.MpmcRing.Mask.{is_power_of_two_size-pow}

module _ (y : ℕ) (rest : List ℕ) (rb : RingBufferMpmc) (h : IsQueue (y ∷ rest) rb) where
  dequeue_at-vacant :
      (i : ℕ)
      → length rest ≤ i
      → i < rb.capacity
      → (stored
          (y ∷ rest)
          rb
          h
          rb.dequeue_pos
          (record (rb.slots (bit_and rb.dequeue_pos rb.mask)) {
            sequence = rb.dequeue_pos + rb.capacity;
          })
          ((rb.dequeue_pos + 1 + i) % rb.capacity)).sequence
        ≡ rb.dequeue_pos + 1 + i
  dequeue_at-vacant i behind inside = elim (dec_lt (i + 1) rb.capacity) [
    | yes more ↦
        ap (λ s. s.sequence)
          (stored_other (y ∷ rest) rb h _ _ (rb.dequeue_pos + 1 + i) (λ c.
            mod-ne rb.capacity rb.dequeue_pos (1 + i) (omega arith) (omega (arith, more))
              (c ∙ ap (λ k. k % rb.capacity) (omega arith))))
        ∙ ap (λ k. (rb.slots (k % rb.capacity)).sequence) (omega arith)
        ∙ h.vacant (i + 1) (omega (arith, behind)) more
        ∙ omega arith
    | no last ↦
        let round : rb.dequeue_pos + 1 + i ≡ rb.dequeue_pos + rb.capacity =
          omega (arith, last, inside) in
        ap (λ s. s.sequence)
          (stored_at (y ∷ rest) rb h _ _ (rb.dequeue_pos + 1 + i)
            (ap (λ k. k % rb.capacity) round ∙ add-mod_right rb.dequeue_pos rb.capacity))
        ∙ sym round
  ]

  dequeue_at-IsQueue : IsQueue rest (dequeue_at rb rb.dequeue_pos)
  unfolding dequeue_at stored
  dequeue_at-IsQueue =
      let low : rb.dequeue_pos + rb.capacity < 9223372036854775808 =
        omega (arith, h.small, h.counted) in
      let word : add64 rb.dequeue_pos 1 ≡ rb.dequeue_pos + 1 = omega (arith, low, h.some_size) in
      let next : add64 rb.dequeue_pos rb.capacity ≡ rb.dequeue_pos + rb.capacity =
        omega (arith, low) in
      record {
        order = h.order;
        capacity_pow = h.capacity_pow;
        mask_pow = h.mask_pow;
        some_size = h.some_size;
        small = h.small;
        counted = omega (arith, h.counted, word);
        fits = omega (arith, h.fits);
        full = λ i x e.
            rw (word, next)
              (stored_other (y ∷ rest) rb h _ _ (rb.dequeue_pos + 1 + i) (λ c.
                  mod-ne rb.capacity rb.dequeue_pos (1 + i) (omega arith)
                    (omega (arith, h.fits, get_elem?-length rest i x e))
                    (c ∙ ap (λ k. k % rb.capacity) (omega arith)))
                ∙ ap (λ k. rb.slots (k % rb.capacity)) (omega arith)
                ∙ h.full (suc i) x e
                ∙ ap (λ k. record { sequence = k; value = x }) (omega arith));
        vacant = λ i behind inside. rw (word, next) (dequeue_at-vacant i behind inside);
      }

module _ (queue : List ℕ) (rb : RingBufferMpmc) (h : IsQueue queue rb) where
  enqueue_sequence :
      length queue < rb.capacity
      → (rb.slots (bit_and rb.enqueue_pos rb.mask)).sequence ≡ rb.enqueue_pos
  enqueue_sequence room =
      ap (λ k. (rb.slots k).sequence)
        (index queue rb h rb.enqueue_pos ∙ ap (λ k. k % rb.capacity) h.counted)
      ∙ h.vacant (length queue) (le_refl _) room
      ∙ sym h.counted

  full_sequence :
      length queue ≡ rb.capacity
      → (rb.slots (bit_and rb.enqueue_pos rb.mask)).sequence ≡ rb.dequeue_pos + 1
  full_sequence filled = elim (List-cases queue) [
    | inl empty ↦ absurd (omega (arith, filled, ap length empty, h.some_size))
    | inr (y, rest, e) ↦
        ap (λ k. (rb.slots k).sequence)
          (index queue rb h rb.enqueue_pos
            ∙ ap (λ k. k % rb.capacity) (omega (arith, h.counted, filled))
            ∙ add-mod_right (rb.dequeue_pos + 0) rb.capacity)
        ∙ ap (λ s. s.sequence) (h.full 0 y (rw e refl))
        ∙ omega arith
  ]

  -- A call of `ring_buffer_mpmc_try_enqueue` on a ring that holds a queue, with positions below
  -- 2^63: when there is room, it succeeds as soon as one of the weak exchanges does, and puts the
  -- element at the end of the queue; when the ring is full, it returns EAGAIN and changes nothing.
  pub try_enqueue-appends :
      (elem : ℕ) (tries : List Bool)
      → rb.enqueue_pos + rb.capacity + 1 < 9223372036854775808
      → some_exchange tries ≡ true
      → (length queue < rb.capacity
          → (rb' : RingBufferMpmc) × (ring_buffer_mpmc_try_enqueue tries (some rb) elem
              ≡ some (success, some rb'))
            × IsQueue (queue ++ elem ∷ []) rb')
        × (length queue ≡ rb.capacity
            → ring_buffer_mpmc_try_enqueue tries (some rb) elem ≡ some (eagain, some rb))
  unfolding ring_buffer_mpmc_try_enqueue finish_enqueue some_exchange
  try_enqueue-appends elem tries small one = (
    λ room.
        let c = enqueue_loop-claimed rb tries (enqueue_sequence room) one in
        (
          enqueue_at rb rb.enqueue_pos elem,
          ap (finish_enqueue rb elem) c,
          enqueue_at-IsQueue queue rb h elem room small,
        ),
    λ filled. elim (List-cases tries) [
      | inl none_left ↦ absurd (ground (arith, one, ap some_exchange none_left))
      | inr (b, more, e) ↦
          let c =
            enqueue_loop-refused rb b more (rb.dequeue_pos + 1) (full_sequence filled)
              (omega (arith, h.counted, filled, h.some_size)) (omega (arith, small)) in
          ap (λ t. finish_enqueue rb elem (enqueue_loop t rb)) e ∙ ap (finish_enqueue rb elem) c
    ],
  )

  -- On a ring that holds a queue, `ring_buffer_mpmc_count` is its length; `ring_buffer_mpmc_space` is one
  -- less than the number of free slots, and the largest 64-bit number when the ring is full.
  count_space :
      (ring_buffer_mpmc_count rb ≡ length queue)
      × (length queue < rb.capacity → ring_buffer_mpmc_space rb ≡ rb.capacity - length queue - 1)
      × (length queue ≡ rb.capacity → ring_buffer_mpmc_space rb ≡ u64 - 1)
  unfolding ring_buffer_mpmc_count ring_buffer_mpmc_space
  count_space =
      let n : sub64 rb.enqueue_pos rb.dequeue_pos ≡ length queue =
        omega (arith, h.counted, h.small) in
      (
        n,
        λ room. rw n (omega (arith, room, h.small)),
        λ filled. rw n (omega (arith, filled, h.small, h.some_size)),
      )

-- The result of a dequeue: the oldest element, or EAGAIN when there is none.
pub IsDequeued :
    List ℕ → RingBufferMpmc → ℕ → Option (Status × Option ℕ × Option RingBufferMpmc) → Type 0
IsDequeued [] rb old r = r ≡ some (eagain, some old, some rb)
IsDequeued (y ∷ rest) rb old r =
    (rb' : RingBufferMpmc) × (r ≡ some (success, some y, some rb')) × IsQueue rest rb'

-- A call of `ring_buffer_mpmc_try_dequeue` on a ring that holds a queue, when one of the weak exchanges
-- succeeds: it stores the oldest element through the pointer and leaves the rest of the queue; when the
-- queue is empty, it returns EAGAIN and changes nothing.
pub try_dequeue-IsDequeued :
    (queue : List ℕ) (rb : RingBufferMpmc) (old : ℕ) (tries : List Bool)
    → IsQueue queue rb
    → some_exchange tries ≡ true
    → IsDequeued queue rb old (ring_buffer_mpmc_try_dequeue tries (some rb) (some old))
unfolding ring_buffer_mpmc_try_dequeue finish_dequeue IsDequeued some_exchange
try_dequeue-IsDequeued [] rb old [] h one = absurd (ground arith)
try_dequeue-IsDequeued [] rb old (b ∷ more) h one =
    let s : (rb.slots (bit_and rb.dequeue_pos rb.mask)).sequence ≡ rb.dequeue_pos =
      ap (λ k. (rb.slots k).sequence)
        (index [] rb h rb.dequeue_pos ∙ ap (λ k. k % rb.capacity) (omega arith))
      ∙ h.vacant 0 (le_refl _) (omega (arith, h.some_size))
      ∙ omega arith in
    let c = dequeue_loop-refused rb b more s (omega (arith, h.counted, h.small)) in
    ap (finish_dequeue rb old) c
try_dequeue-IsDequeued (y ∷ rest) rb old tries h one =
    let s : rb.slots (bit_and rb.dequeue_pos rb.mask)
        ≡ record { sequence = rb.dequeue_pos + 0 + 1; value = y } =
      ap rb.slots (index (y ∷ rest) rb h rb.dequeue_pos ∙ ap (λ k. k % rb.capacity) (omega arith))
      ∙ h.full 0 y refl in
    let c =
      dequeue_loop-claimed rb tries (ap (λ k. k.sequence) s ∙ omega arith)
        (omega (arith, h.counted, h.small)) one in
    (
      dequeue_at rb rb.dequeue_pos,
      ap (finish_dequeue rb old) c
          ∙ ap (λ v. some (success, some (v.value), some (dequeue_at rb rb.dequeue_pos))) s,
      dequeue_at-IsQueue y rest rb h,
    )

created :
    (size : ℕ) (m : ℕ → RingMpmcSlot) (i : ℕ)
    → i < size
    → (if ltb (i % size) size
        then record { sequence = i % size; value = 0 }
        else m (i % size)).sequence
      ≡ i
created size m i inside =
    let u : ltb i size ≡ true = lt→ltb _ _ inside in rw (mod-eq_of_lt inside, u) refl

abbrev pub created_ring : ℕ → (ℕ → RingMpmcSlot) → RingBufferMpmc
created_ring size m = record {
  slots = λ i. if ltb i size then record { sequence = i; value = 0 } else m i;
  capacity = size;
  mask = sub64 size 1;
  enqueue_pos = 0;
  dequeue_pos = 0;
}

pub created-IsQueue :
    (size : ℕ) (m : ℕ → RingMpmcSlot)
    → size ≤ 4611686018427387904
    → is_power_of_two_size size ≡ true
    → IsQueue [] (created_ring size m)
created-IsQueue size m le good =
    let (large, (k, pow)) = is_power_of_two_size-pow size (omega arith) good in
    record {
      order = k;
      capacity_pow = pow;
      mask_pow = omega (arith, pow, large);
      some_size = large;
      small = omega arith;
      counted = refl;
      fits = omega arith;
      full = λ i x e. absurd (ground (arith, e));
      vacant = λ i behind inside. created size m (0 + i) (omega (arith, inside));
    }
