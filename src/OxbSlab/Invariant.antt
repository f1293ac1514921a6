-- ===== src/OxbSlab/Invariant.antt =====
-- What holds of the free list and of the threads between two steps.
use oxbow.Prelude.{
  All, Distinct, ℕ, ◌≤◌, ◌<◌, ◌≡◌, sym, ap, ◌∙◌, ◌≢◌, ◌⊎◌, inl, inr, List, [], ◌∷◌, arith,
}
use oxbow.OxbSlab.{
  Owner, unknown, listed, caller, pushing, idle, alloc_loaded, alloc_linked, free_started,
  free_loaded, free_linked, SlabState, Place,
}

-- The links lead from the object through the list to NULL.
unfoldable pub Chain : (ℕ → ℕ) → ℕ → List ℕ → Type 0
Chain next o [] = o ≡ 0
Chain next o (x ∷ xs) = (o ≡ x) × (x ≢ 0) × Chain next (next x) xs

unfoldable pub IsLoaded : SlabState → ℕ → ℕ → Type 0
IsLoaded s o v = (v ≤ s.version) × (v ≡ s.version → s.obj ≡ o)

unfoldable pub IsThread : SlabState → ℕ → Place → Type 0
IsThread s t idle = Unit
IsThread s t (alloc_loaded o v) = (o ≢ 0) × IsLoaded s o v
IsThread s t (alloc_linked o v n) = (o ≢ 0) × IsLoaded s o v × (v ≡ s.version → s.next o ≡ n)
IsThread s t (free_started x) = (x ≢ 0) × (s.owner x ≡ pushing t)
IsThread s t (free_loaded x o v) = (x ≢ 0) × (s.owner x ≡ pushing t) × IsLoaded s o v
IsThread s t (free_linked x o v) =
    (x ≢ 0) × (s.owner x ≡ pushing t) × IsLoaded s o v × (s.next x ≡ o)

-- `free` is the free list, front first; `n` bounds the steps so far.
pub record IsSlab (n : ℕ) (free : List ℕ) (s : SlabState) : Type 0 where
  pub chain : Chain s.next s.obj free
  pub distinct : Distinct free
  pub listed_all : All (λ x. s.owner x ≡ listed) free
  pub nonzero : (x : ℕ) → s.owner x ≡ caller → x ≢ 0
  pub bound : s.version ≤ n
  pub threads : (t : ℕ) → IsThread s t (s.pc t)

thread_of : Owner → ℕ
thread_of (pushing t) = t
thread_of unknown = 0
thread_of listed = 0
thread_of caller = 0

pub pushing_injective : (t u : ℕ) → pushing t ≡ pushing u → t ≡ u
unfolding thread_of
pushing_injective t u e = ap thread_of e

-- The head stays, or the version grows.
abbrev pub IsLater : SlabState → SlabState → Type 0
IsLater s s' = ((s'.version ≡ s.version) × (s'.obj ≡ s.obj)) ⊎ (s.version < s'.version)

IsLoaded-frame : (s s' : SlabState) (o v : ℕ) → IsLater s s' → IsLoaded s o v → IsLoaded s' o v
unfolding IsLoaded
IsLoaded-frame s s' o v (inl (ev, eo)) (le, same) = (omega (arith, ev, le), λ e. eo ∙ same (e ∙ ev))
IsLoaded-frame s s' o v (inr lt) (le, same) =
    (omega (arith, lt, le), λ e. absurd (omega (arith, e, lt, le)))

IsLoaded-link :
    (s s' : SlabState) (o v n : ℕ)
    → o ≢ 0
    → IsLater s s'
    → (s.obj ≢ 0 → s'.next s.obj ≡ s.next s.obj)
    → IsLoaded s o v
    → (v ≡ s.version → s.next o ≡ n)
    → v ≡ s'.version
    → s'.next o ≡ n
unfolding IsLoaded
IsLoaded-link s s' o v n nz (inl (ev, eo)) hd (le, same) link e =
    let here = same (e ∙ ev) in
    ap s'.next (sym here) ∙ hd (λ z. nz (sym here ∙ z)) ∙ ap s.next here ∙ link (e ∙ ev)
IsLoaded-link s s' o v n nz (inr lt) hd (le, same) link e = absurd (omega (arith, e, lt, le))

-- A thread is not disturbed by a step that leaves the head, or raises the version, and keeps the thread's
-- objects and the link of the first object.
pub IsThread_frame :
    (s s' : SlabState) (u : ℕ) (p : Place)
    → IsLater s s'
    → ((x : ℕ) → s.owner x ≡ pushing u → (s'.owner x ≡ pushing u) × (s'.next x ≡ s.next x))
    → (s.obj ≢ 0 → s'.next s.obj ≡ s.next s.obj)
    → IsThread s u p
    → IsThread s' u p
unfolding IsThread
IsThread_frame s s' u idle ver own hd i = tt
IsThread_frame s s' u (alloc_loaded o v) ver own hd (nz, l) = (nz, IsLoaded-frame s s' o v ver l)
IsThread_frame s s' u (alloc_linked o v n) ver own hd (nz, l, link) =
    (nz, IsLoaded-frame s s' o v ver l, IsLoaded-link s s' o v n nz ver hd l link)
IsThread_frame s s' u (free_started x) ver own hd (nz, mine) = (nz, (own x mine).0)
IsThread_frame s s' u (free_loaded x o v) ver own hd (nz, mine, l) =
    (nz, (own x mine).0, IsLoaded-frame s s' o v ver l)
IsThread_frame s s' u (free_linked x o v) ver own hd (nz, mine, l, link) =
    (nz, (own x mine).0, IsLoaded-frame s s' o v ver l, (own x mine).1 ∙ link)
