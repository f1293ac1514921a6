-- ===== src/ShmLayout/Bits.antt =====
-- Every page has bits of its own, in the shared memory.
use oxbow.Prelude.{ℕ, ◌+◌, ◌*◌, ◌/◌, ◌%◌, ◌<◌, ◌≡◌, refl, arith, u64}
use oxbow.ShmLayout.{
  BitType, dirtybit, lockbit, uptodatebit, skipread_bit, shm_size, start_index, get_page_bits,
  pdb_alloc_check_nr, pdb_dirty_group_nr,
}

-- For a 64-bit file size limit, the bit of a page that starts below it, for any state, lies in the
-- shared memory of the file.
get_page_bits-inside :
    (max_file_size pg_idx : ℕ) (t : BitType)
    → pg_idx * 4096 < max_file_size
    → max_file_size < u64
    → get_page_bits max_file_size pg_idx t < shm_size max_file_size
unfolding get_page_bits
get_page_bits-inside m p dirtybit h small = omega arith
get_page_bits-inside m p lockbit h small = omega arith
get_page_bits-inside m p uptodatebit h small = omega arith
get_page_bits-inside m p skipread_bit h small = omega arith

module _ (c p q i j : ℕ) (lt : i < 4) (lt' : j < 4)
    (e : (c + p / 8192) * 4096 + (p % 8192 / 8 + 1024 * i)
      ≡ (c + q / 8192) * 4096 + (q % 8192 / 8 + 1024 * j))
    (bit : p % 8 ≡ q % 8) where
  same_state : i ≡ j
  same_state = omega (arith, e, lt, lt')

  same_page : p ≡ q
  same_page = omega (arith, e, lt, lt', bit)

state_of : BitType → ℕ
state_of dirtybit = 0
state_of lockbit = 1
state_of uptodatebit = 2
state_of skipread_bit = 3

start_index-state_of : (t : BitType) → (start_index t ≡ 1024 * state_of t) × (state_of t < 4)
unfolding state_of
start_index-state_of dirtybit = (refl, omega arith)
start_index-state_of lockbit = (refl, omega arith)
start_index-state_of uptodatebit = (refl, omega arith)
start_index-state_of skipread_bit = (refl, omega arith)

same_type : (s t : BitType) → state_of s ≡ state_of t → s ≡ t
unfolding state_of
same_type dirtybit dirtybit e = refl
same_type dirtybit lockbit e = absurd (omega (arith, e))
same_type dirtybit uptodatebit e = absurd (omega (arith, e))
same_type dirtybit skipread_bit e = absurd (omega (arith, e))
same_type lockbit dirtybit e = absurd (omega (arith, e))
same_type lockbit lockbit e = refl
same_type lockbit uptodatebit e = absurd (omega (arith, e))
same_type lockbit skipread_bit e = absurd (omega (arith, e))
same_type uptodatebit dirtybit e = absurd (omega (arith, e))
same_type uptodatebit lockbit e = absurd (omega (arith, e))
same_type uptodatebit uptodatebit e = refl
same_type uptodatebit skipread_bit e = absurd (omega (arith, e))
same_type skipread_bit dirtybit e = absurd (omega (arith, e))
same_type skipread_bit lockbit e = absurd (omega (arith, e))
same_type skipread_bit uptodatebit e = absurd (omega (arith, e))
same_type skipread_bit skipread_bit e = refl

-- Two different pages or states never share a bit: where the byte of the shared memory and the bit in it
-- are the same, so are the page and the state, for pages whose byte offset in the file is a 64-bit number.
pub get_page_bits-injective :
    (max_file_size p q : ℕ) (s t : BitType)
    → p * 4096 < u64
    → q * 4096 < u64
    → get_page_bits max_file_size p s ≡ get_page_bits max_file_size q t
    → p % 8 ≡ q % 8
    → (p ≡ q) × (s ≡ t)
unfolding get_page_bits
get_page_bits-injective m p q s t small small' e bit =
    let c = pdb_dirty_group_nr m + pdb_alloc_check_nr m + 1 in
    let si = start_index-state_of s in
    let ti = start_index-state_of t in
    let same : (c + p / 8192) * 4096 + (p % 8192 / 8 + 1024 * state_of s)
        ≡ (c + q / 8192) * 4096 + (q % 8192 / 8 + 1024 * state_of t) =
      omega (arith, e, si.0, ti.0, small, small') in
    let states = same_state c p q (state_of s) (state_of t) si.1 ti.1 same bit in
    (same_page c p q (state_of s) (state_of t) si.1 ti.1 same bit, same_type s t states)
