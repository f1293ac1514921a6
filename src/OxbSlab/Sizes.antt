-- ===== src/OxbSlab/Sizes.antt =====
-- The sizes that `oxb_slab_init` chooses, and the growth of the array of slabs in `oxb_slab_grow`.
use oxbow.Prelude.{
  bit_and-align, ℕ, ◌+◌, ◌-◌, ◌*◌, ◌/◌, ◌%◌, ◌≤◌, ◌<◌, max, ◌≡◌, ◌≢◌, refl, ap, ◌∙◌, ◌⊎◌, inl, inr,
  Bool, true, false, Option, none, some, arith, ltb, leb, ◌==◌, if◌then◌else◌, ltb→lt, Bool-cases,
  update, u64, add64, sub64, mul64,
}
use native.Mathlib.Nat.{div_self, div-eq_of_lt}
use Prim.Native.Nat.{bit_and}

-- `~(alignment - 1)` is taken in 64 bits.
pub align_up : ℕ → ℕ → ℕ
align_up size alignment = bit_and (sub64 (add64 size alignment) 1) (u64 - 1 - sub64 alignment 1)

pub record SlabSizes : Type 0 where
  pub obj_size : ℕ
  pub objs_per_slab : ℕ
  pub slab_size : ℕ

-- The sizes for an aligned object size.
pub sizes_of : ℕ → Option SlabSizes
sizes_of aligned =
    let wanted = mul64 aligned 1 in
    let capped = if ltb 4096 wanted then 4096 else wanted in
    if capped / aligned == 0
    then some (record { obj_size = aligned; objs_per_slab = 1; slab_size = aligned })
    else some (record { obj_size = aligned; objs_per_slab = capped / aligned; slab_size = capped })

-- None is the result -1.
pub slab_sizes : ℕ → Option SlabSizes
slab_sizes size = if size == 0 then none else sizes_of (align_up (if ltb size 8 then 8 else size) 8)

-- The array of slab pointers.
pub record SlabArray : Type 0 where
  pub slabs : ℕ → ℕ
  pub num_slabs : ℕ
  pub slabs_capacity : ℕ

-- None when `realloc` is needed and fails.
pub resize_slabs : Bool → SlabArray → Option SlabArray
resize_slabs reallocs a =
    if leb a.slabs_capacity a.num_slabs
    then if reallocs then some (record a { slabs_capacity = mul64 a.slabs_capacity 2 }) else none
    else some a

pub add_slab : ℕ → SlabArray → Option SlabArray → Bool × Option ℕ × SlabArray
add_slab new_slab a none = (false, none, a)
add_slab new_slab a (some a') = if new_slab == 0 then (false, none, a') else (
  true,
  some new_slab,
  record a' { slabs = update a'.slabs a'.num_slabs new_slab; num_slabs = add64 a'.num_slabs 1 },
)

-- The part of `oxb_slab_grow` under the mutex: whether the list has an object by now, whether `realloc`
-- succeeds, and what `malloc` returns, 0 for NULL. The new slab is there only when one was needed.
pub grow_array : Bool → Bool → ℕ → SlabArray → Bool × Option ℕ × SlabArray
grow_array has_object reallocs new_slab a =
    if has_object then (true, none, a) else add_slab new_slab a (resize_slabs reallocs a)

aligned_lem : (size : ℕ) → size ≤ 9223372036854775808 → align_up size 8 ≡ (size + 7) / 8 * 8
unfolding align_up
aligned_lem size small =
    let e : (((size + 8) % u64) + u64 - 1) % u64 ≡ size + 7 = omega (arith, small) in
    ap (λ a. bit_and a 18446744073709551608) e ∙ bit_and-align (size + 7) (omega (arith, small))

sizes_of_lem :
    (aligned : ℕ)
    → 0 < aligned
    → aligned < u64
    → sizes_of aligned
      ≡ some (record { obj_size = aligned; objs_per_slab = 1; slab_size = aligned })
unfolding sizes_of
sizes_of_lem a some_ small =
    let word : a * 1 % u64 ≡ a = omega (arith, small) in
    rw word (elim (Bool-cases (ltb 4096 a)) [
      | inl large ↦ let z : 4096 / a ≡ 0 = div-eq_of_lt (ltb→lt _ _ large) in rw large (rw z refl)
      | inr fits ↦ let one : a / a ≡ 1 = div_self some_ in rw fits (rw one refl)
    ])

-- For an object size of 1 to 2^63, `oxb_slab_init` chooses a multiple of 8 that is large enough for the
-- object and for a link and exceeds the larger of the two by less than 8, and one object to a slab of
-- exactly that size.
slab_sizes-fits :
    (size : ℕ)
    → 0 < size
    → size ≤ 9223372036854775808
    → (r : SlabSizes) × (slab_sizes size ≡ some r)
      × (max size 8 ≤ r.obj_size)
      × (r.obj_size < max size 8 + 8)
      × (r.obj_size % 8 ≡ 0)
      × (r.slab_size ≡ r.objs_per_slab * r.obj_size)
      × (r.objs_per_slab ≡ 1)
unfolding slab_sizes
slab_sizes-fits size some_ small =
    let wide : (if ltb size 8 then 8 else size) ≡ max size 8 = ground arith in
    let z : (size == 0) ≡ false = ground (arith, some_) in
    let a = (max size 8 + 7) / 8 * 8 in
    let aligned : align_up (if ltb size 8 then 8 else size) 8 ≡ a =
      ap (λ k. align_up k 8) wide ∙ aligned_lem (max size 8) (omega (arith, small)) in
    (
      record { obj_size = a; objs_per_slab = 1; slab_size = a },
      rw (z, aligned) (sizes_of_lem a (omega arith) (omega (arith, small))),
      omega arith,
      omega arith,
      omega arith,
      omega arith,
      refl,
    )

-- The array behind a growth, and its result.
pub record IsGrown (has_object reallocs : Bool) (new_slab : ℕ) (a : SlabArray)
    (r : Bool × Option ℕ × SlabArray) : Type 0 where
  pub within : (r.2).num_slabs ≤ (r.2).slabs_capacity
  pub kept : (i : ℕ) → i < a.num_slabs → (r.2).slabs i ≡ a.slabs i
  pub added :
      ((has_object ≡ false)
        × (r.1 ≡ some new_slab)
        × ((r.2).num_slabs ≡ a.num_slabs + 1)
        × ((r.2).slabs a.num_slabs ≡ new_slab)
        × (r.0 ≡ true))
      ⊎ ((r.1 ≡ none)
          × ((r.2).num_slabs ≡ a.num_slabs)
          × (((has_object ≡ true) × (r.0 ≡ true))
              ⊎ ((has_object ≡ false)
                  × (r.0 ≡ false)
                  × (new_slab ≢ 0 → (reallocs ≡ false) × (a.num_slabs ≡ a.slabs_capacity)))))
