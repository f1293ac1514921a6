-- ===== src/Tests/Ring.antt =====
-- The ring at small sizes.
use oxbow.Prelude.{ℕ, ◌<◌, ◌≡◌, refl, true, false, some, [], ◌∷◌, arith}
use oxbow.MpmcRing.{
  success, eagain, RingBufferMpmc, is_power_of_two_size, some_exchange,
  ring_buffer_mpmc_try_enqueue, ring_buffer_mpmc_try_dequeue,
}
use oxbow.MpmcRing.Calls.{
  try_enqueue-appends, IsDequeued, try_dequeue-IsDequeued, created_ring, created-IsQueue,
}
use oxbow.MpmcRing.Fifo.{IsQueue}

abbrev blank : RingBufferMpmc
blank = record {
  slots = λ i. record { sequence = 9; value = 9 };
  capacity = 0;
  mask = 0;
  enqueue_pos = 0;
  dequeue_pos = 0;
}

abbrev ring2 : RingBufferMpmc
ring2 = created_ring 2 blank.slots

ring2-IsQueue : IsQueue [] ring2
unfolding is_power_of_two_size
ring2-IsQueue = created-IsQueue 2 blank.slots (omega arith) refl

try_enqueue-appends_example :
    (0 < 2
      → (rb' : RingBufferMpmc) × (ring_buffer_mpmc_try_enqueue (false ∷ true ∷ []) (some ring2) 7
          ≡ some (success, some rb'))
        × IsQueue (7 ∷ []) rb')
    × (◌≡◌ {A = ℕ} 0 2
        → ring_buffer_mpmc_try_enqueue (false ∷ true ∷ []) (some ring2) 7
          ≡ some (eagain, some ring2))
unfolding some_exchange
try_enqueue-appends_example =
    try_enqueue-appends [] ring2 ring2-IsQueue 7 (false ∷ true ∷ []) (omega arith) refl

ring2_lem :
    (rb' : RingBufferMpmc) × (ring_buffer_mpmc_try_enqueue (true ∷ []) (some ring2) 7
      ≡ some (success, some rb'))
    × IsQueue (7 ∷ []) rb'
unfolding some_exchange
ring2_lem =
    (try_enqueue-appends [] ring2 ring2-IsQueue 7 (true ∷ []) (omega arith) refl).0 (omega arith)

abbrev ring2_one : RingBufferMpmc
ring2_one = ring2_lem.0

try_dequeue-IsDequeued_example :
    IsDequeued
      (7 ∷ [])
      ring2_one
      0
      (ring_buffer_mpmc_try_dequeue (true ∷ []) (some ring2_one) (some 0))
unfolding some_exchange
try_dequeue-IsDequeued_example =
    try_dequeue-IsDequeued (7 ∷ []) ring2_one 0 (true ∷ []) (ring2_lem.2) refl
