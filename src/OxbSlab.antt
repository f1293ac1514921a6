-- ===== src/OxbSlab.antt =====
-- The slab allocator: oxbow/devfs/src/common/oxb_slab.c and oxbow/devfs/include/common/oxb_slab.h. Any number
-- of threads call `oxb_slab_alloc` and `oxb_slab_free`; each atomic operation, each access to an object's
-- link and each write of a caller to an object it has is a step of its own, so that the list of steps is
-- an interleaving. The version counts exchanges, modulo 2^64. `owner` is not in the code: it says who may
-- use an object, and the steps that begin with a caller's choice take it as the caller's duty.
pub mod Invariant
pub mod Steps
pub mod Exchange
pub mod Runs
pub mod Sizes
use oxbow.Prelude.{ℕ, suc, ◌≡◌, ◌≢◌, Bool, ◌&&◌, ◌==◌, if◌then◌else◌, update, add64}

-- Who has an object: nobody yet, the free list, a caller, or a thread that is putting it on the list.
pub data Owner : Type 0 where
  unknown : Owner
  listed : Owner
  caller : Owner
  pushing : ℕ → Owner

-- Where a thread is: outside; in `oxb_slab_alloc` with the head loaded, and with the link of its object
-- read; in `oxb_slab_free` or `oxb_slab_grow` with an object, with the head loaded, with the link written.
pub data Place : Type 0 where
  idle : Place
  alloc_loaded : ℕ → ℕ → Place
  alloc_linked : ℕ → ℕ → ℕ → Place
  free_started : ℕ → Place
  free_loaded : ℕ → ℕ → ℕ → Place
  free_linked : ℕ → ℕ → ℕ → Place

-- The head of the free list, whose object 0 is NULL, the links of the objects, and the threads.
pub record SlabState : Type 0 where
  pub obj : ℕ
  pub version : ℕ
  pub next : ℕ → ℕ
  pub owner : ℕ → Owner
  pub pc : ℕ → Place

pub go_to : ℕ → Place → SlabState → SlabState
go_to t p s = record s { pc = update s.pc t p }

-- `oxb_slab_alloc`: an empty list sends the thread to `oxb_slab_grow`.
pub exchange_alloc : ℕ → Bool → ℕ → ℕ → ℕ → SlabState → SlabState
exchange_alloc t works o v n s =
    if works && (s.obj == o) && (s.version == v)
    then record (go_to t idle s) { obj = n; version = add64 v 1; owner = update s.owner o caller }
    else go_to t idle s

pub exchange_free : ℕ → Bool → ℕ → ℕ → ℕ → SlabState → SlabState
exchange_free t works x o v s =
    if works && (s.obj == o) && (s.version == v)
    then record (go_to t idle s) { obj = x; version = add64 v 1; owner = update s.owner x listed }
    else go_to t (free_started x) s

pub begin_push : ℕ → ℕ → SlabState → SlabState
begin_push t x s = record (go_to t (free_started x) s) { owner = update s.owner x (pushing t) }

pub link_object : ℕ → ℕ → ℕ → ℕ → SlabState → SlabState
link_object t x o v s = record (go_to t (free_linked x o v) s) { next = update s.next x o }

pub caller_writes : ℕ → ℕ → SlabState → SlabState
caller_writes x link s = record s { next = update s.next x link }

-- A step of thread `t`. A thread that finds the list empty goes to `oxb_slab_grow`, which pushes new
-- objects; the flag of an exchange is false when it fails without a reason.
pub data Step (t : ℕ) : SlabState → SlabState → Type 0 where
  alloc_load :
      {s : SlabState}
      → s.pc t ≡ idle
      → s.obj ≢ 0
      → Step t s (go_to t (alloc_loaded s.obj s.version) s)
  alloc_read :
      {s : SlabState} (o v : ℕ)
      → s.pc t ≡ alloc_loaded o v
      → Step t s (go_to t (alloc_linked o v (s.next o)) s)
  alloc_exchange :
      {s : SlabState} (works : Bool) (o v n : ℕ)
      → s.pc t ≡ alloc_linked o v n
      → Step t s (exchange_alloc t works o v n s)
  free_begin :
      {s : SlabState} (x : ℕ) → s.pc t ≡ idle → s.owner x ≡ caller → Step t s (begin_push t x s)
  new_object :
      {s : SlabState} (x : ℕ)
      → s.pc t ≡ idle
      → s.owner x ≡ unknown
      → x ≢ 0
      → Step t s (begin_push t x s)
  free_load :
      {s : SlabState} (x : ℕ)
      → s.pc t ≡ free_started x
      → Step t s (go_to t (free_loaded x s.obj s.version) s)
  free_link :
      {s : SlabState} (x o v : ℕ) → s.pc t ≡ free_loaded x o v → Step t s (link_object t x o v s)
  free_exchange :
      {s : SlabState} (works : Bool) (x o v : ℕ)
      → s.pc t ≡ free_linked x o v
      → Step t s (exchange_free t works x o v s)
  caller_write :
      {s : SlabState} (x link : ℕ) → s.owner x ≡ caller → Step t s (caller_writes x link s)

pub data Interleaving : ℕ → SlabState → SlabState → Type 0 where
  no_steps : {s : SlabState} → Interleaving 0 s s
  then_step :
      {n : ℕ} {s s' s'' : SlabState} (t : ℕ)
      → Interleaving n s s'
      → Step t s' s''
      → Interleaving (suc n) s s''
