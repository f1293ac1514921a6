-- ===== src/Libfs/PageBits.antt =====
-- The bits of a page in the shared memory: oxbow/libfs/src/filesystem/inode.c. `get_page_bits` never
-- returns NULL. The lock bit of a page that is held stays held, since one call runs at a time.
use oxbow.Prelude.{
  refl, ℕ, ◌*◌, ◌%◌, ◌<◌, ◌≡◌, ap, ◌≢◌, ◌⊎◌, inl, inr, Bool, true, false, Option, none, some,
  if◌then◌else◌, update, update_self, update-ne, u64,
}
use native.Mathlib.Decide.{ℕ_discrete}
use oxbow.ShmLayout.{
  BitType, dirtybit, lockbit, uptodatebit, skipread_bit, start_index, get_page_bits,
  unlock_page_bit, ShmFile,
}
use oxbow.DirtyMgmt.{Counters, increment_dirty_page_count}
use oxbow.ShmLayout.Bits.{get_page_bits-injective}

module _ (max_file_size : ℕ) where
  unfoldable pub put_bit : BitType → ℕ → Bool → ShmFile → ShmFile
  put_bit t pg_idx b h =
      let at = get_page_bits max_file_size pg_idx t in
      record h { bytes = update h.bytes at (update (h.bytes at) (pg_idx % 8) b) }

  -- The bit of a page.
  unfoldable pub bit_of : BitType → ℕ → ShmFile → Bool
  bit_of t pg_idx h = h.bytes (get_page_bits max_file_size pg_idx t) (pg_idx % 8)

  unfoldable pub lock_page_bit : ℕ → ShmFile → Option ShmFile
  lock_page_bit pg_idx h =
      if bit_of lockbit pg_idx h then none else some (put_bit lockbit pg_idx true h)

  pub unlock_page : ℕ → ShmFile → ShmFile
  unlock_page pg_idx h =
      let at = get_page_bits max_file_size pg_idx lockbit in
      record h { bytes = update h.bytes at (unlock_page_bit (h.bytes at) pg_idx) }

  unfoldable pub dirty_page_bit : ℕ → ShmFile → Counters → ShmFile × Counters
  dirty_page_bit pg_idx h counters = (
    put_bit dirtybit pg_idx true h,
    if bit_of dirtybit pg_idx h then counters else increment_dirty_page_count counters 1,
  )

  unfoldable pub uptodate_page_bit : ℕ → ShmFile → ShmFile
  uptodate_page_bit pg_idx h = put_bit uptodatebit pg_idx true h

  unfoldable pub set_skipread_bit : ℕ → ShmFile → ShmFile
  set_skipread_bit pg_idx h = put_bit skipread_bit pg_idx true h

  unfoldable pub clear_skipread_bit : ℕ → ShmFile → ShmFile
  clear_skipread_bit pg_idx h = put_bit skipread_bit pg_idx false h

  pub unlock_page-put_bit : (p : ℕ) (h : ShmFile) → unlock_page p h ≡ put_bit lockbit p false h
  unfolding unlock_page unlock_page_bit put_bit
  unlock_page-put_bit p h = refl

  pub bit_of-bytes :
      (t : BitType) (q : ℕ) (h h' : ShmFile) → h.bytes ≡ h'.bytes → bit_of t q h ≡ bit_of t q h'
  unfolding bit_of
  bit_of-bytes t q h h' e = ap (λ f. f (get_page_bits max_file_size q t) (q % 8)) e

  -- Reading a bit behind a write of one.
  pub bit_of-put_bit :
      (t : BitType) (p : ℕ) (b : Bool) (h : ShmFile) → bit_of t p (put_bit t p b h) ≡ b
  unfolding bit_of put_bit
  bit_of-put_bit t p b h =
      rw
        (update_self h.bytes (get_page_bits max_file_size p t)
          (update (h.bytes (get_page_bits max_file_size p t)) (p % 8) b))
        (update_self (h.bytes (get_page_bits max_file_size p t)) (p % 8) b)

  pub bit_of-put_other :
      (t s : BitType) (p q : ℕ) (b : Bool) (h : ShmFile)
      → p * 4096 < u64
      → q * 4096 < u64
      → (p ≢ q) ⊎ (start_index t ≢ start_index s)
      → bit_of s q (put_bit t p b h) ≡ bit_of s q h
  unfolding bit_of put_bit
  bit_of-put_other t s p q b h small small' ne =
      elim (ℕ_discrete (get_page_bits max_file_size p t) (get_page_bits max_file_size q s)) [
        | yes same ↦ elim (ℕ_discrete (p % 8) (q % 8)) [
          | yes bit ↦
              let both = get_page_bits-injective max_file_size p q t s small small' same bit in
              absurd (elim ne [ inl n ↦ n (both.0) | inr n ↦ n (ap start_index (both.1)) ])
          | no other ↦ rw same (
              rw
                (update_self h.bytes (get_page_bits max_file_size q s)
                  (update (h.bytes (get_page_bits max_file_size q s)) (p % 8) b))
                (update-ne (h.bytes (get_page_bits max_file_size q s)) (p % 8) (q % 8) b other))
        ]
        | no other ↦
            ap (λ byte. byte (q % 8))
              (update-ne h.bytes (get_page_bits max_file_size p t) (get_page_bits max_file_size q s)
                _ other)
      ]
