-- ===== src/MpmcRing.antt =====
-- The bounded queue of many producers and consumers: oxbow/devfs/src/common/ring_buffer_mpmc.c and
-- oxbow/devfs/include/common/ring_buffer_mpmc.h. A pointer that may be null is an option. The memory of
-- the slots is a function from indices. A weak compare-and-exchange may fail without a reason: its
-- outcomes, one for each round of the loop, are a list of the caller, and a loop that has used them all
-- has no result yet. One call runs at a time.
pub mod Mask
pub mod Fifo
pub mod Calls
use oxbow.Prelude.{
  ℕ, Bool, false, ◌&&◌, ◌||◌, not, Option, none, some, List, [], ◌∷◌, ltb, leb, ◌==◌, if◌then◌else◌,
  update, add64, sub64,
}
use Prim.Native.Nat.{bit_and}

pub data Status : Type 0 where
  success einval enomem eagain : Status

pub record RingMpmcSlot : Type 0 where
  pub sequence : ℕ
  pub value : ℕ

pub record RingBufferMpmc : Type 0 where
  pub slots : ℕ → RingMpmcSlot
  pub capacity : ℕ
  pub mask : ℕ
  pub enqueue_pos : ℕ
  pub dequeue_pos : ℕ

unfoldable pub is_power_of_two_size : ℕ → Bool
is_power_of_two_size v = ltb 1 v && (bit_and v (sub64 v 1) == 0)

-- `slots` is the memory that `posix_memalign` returns, none when it fails.
pub ring_buffer_mpmc_create :
    Option (ℕ → RingMpmcSlot) → Option RingBufferMpmc → ℕ → Status × Option RingBufferMpmc
ring_buffer_mpmc_create mem none size = (einval, none)
ring_buffer_mpmc_create mem (some rb) size =
    if not (is_power_of_two_size size)
    then (einval, some rb)
    else (let rb' = record rb {
      capacity = size;
      mask = sub64 size 1;
      enqueue_pos = 0;
      dequeue_pos = 0;
    } in
        elim mem [
          | none ↦ (enomem, some rb')
          | some m ↦ (
            success,
            some (record rb' {
              slots = λ i. if ltb i size then record { sequence = i; value = 0 } else m i;
            }),
          )
        ])

-- A difference of `size_t` numbers as an `intptr_t`.
pub is_negative : ℕ → Bool
is_negative d = leb 9223372036854775808 d

pub data Claim : Type 0 where
  claimed : ℕ → Claim
  refused : Claim
  spinning : Claim

pub enqueue_loop : List Bool → RingBufferMpmc → Claim
enqueue_loop [] rb = spinning
enqueue_loop (exchanged ∷ more) rb =
    let again = enqueue_loop more rb in
    let diff = sub64 ((rb.slots (bit_and rb.enqueue_pos rb.mask)).sequence) rb.enqueue_pos in
    if diff == 0
    then if exchanged then claimed rb.enqueue_pos else again
    else if is_negative diff
    then refused
    else again

-- One of the weak exchanges succeeds.
unfoldable pub some_exchange : List Bool → Bool
some_exchange [] = false
some_exchange (b ∷ bs) = b || some_exchange bs

-- The store of the value and of the sequence number, behind the exchange of the position.
pub enqueue_at : RingBufferMpmc → ℕ → ℕ → RingBufferMpmc
enqueue_at rb p elem = record rb {
  enqueue_pos = add64 p 1;
  slots = update rb.slots (bit_and p rb.mask) (record { sequence = add64 p 1; value = elem });
}

pub finish_enqueue : RingBufferMpmc → ℕ → Claim → Option (Status × Option RingBufferMpmc)
finish_enqueue rb elem (claimed p) = some (success, some (enqueue_at rb p elem))
finish_enqueue rb elem refused = some (eagain, some rb)
finish_enqueue rb elem spinning = none

pub ring_buffer_mpmc_try_enqueue :
    List Bool → Option RingBufferMpmc → ℕ → Option (Status × Option RingBufferMpmc)
ring_buffer_mpmc_try_enqueue tries none elem = some (einval, none)
ring_buffer_mpmc_try_enqueue tries (some rb) elem = finish_enqueue rb elem (enqueue_loop tries rb)

pub dequeue_loop : List Bool → RingBufferMpmc → Claim
dequeue_loop [] rb = spinning
dequeue_loop (exchanged ∷ more) rb =
    let again = dequeue_loop more rb in
    let diff =
      sub64 ((rb.slots (bit_and rb.dequeue_pos rb.mask)).sequence) (add64 rb.dequeue_pos 1) in
    if diff == 0
    then if exchanged then claimed rb.dequeue_pos else again
    else if is_negative diff
    then refused
    else again

pub dequeue_at : RingBufferMpmc → ℕ → RingBufferMpmc
dequeue_at rb p = record rb {
  dequeue_pos = add64 p 1;
  slots =
      update rb.slots (bit_and p rb.mask)
        (record (rb.slots (bit_and p rb.mask)) { sequence = add64 p rb.capacity });
}

-- The second component of the result is the new content of `out`.
pub finish_dequeue : RingBufferMpmc → ℕ → Claim → Option (Status × Option ℕ × Option RingBufferMpmc)
finish_dequeue rb old (claimed p) =
    some (success, some ((rb.slots (bit_and p rb.mask)).value), some (dequeue_at rb p))
finish_dequeue rb old refused = some (eagain, some old, some rb)
finish_dequeue rb old spinning = none

pub ring_buffer_mpmc_try_dequeue :
    List Bool
    → Option RingBufferMpmc
    → Option ℕ
    → Option (Status × Option ℕ × Option RingBufferMpmc)
ring_buffer_mpmc_try_dequeue tries none out = some (einval, out, none)
ring_buffer_mpmc_try_dequeue tries (some rb) none = some (einval, none, some rb)
ring_buffer_mpmc_try_dequeue tries (some rb) (some old) =
    finish_dequeue rb old (dequeue_loop tries rb)

pub ring_buffer_mpmc_count : RingBufferMpmc → ℕ
ring_buffer_mpmc_count rb = sub64 rb.enqueue_pos rb.dequeue_pos

pub ring_buffer_mpmc_space : RingBufferMpmc → ℕ
ring_buffer_mpmc_space rb = sub64 (sub64 rb.capacity 1) (ring_buffer_mpmc_count rb)
