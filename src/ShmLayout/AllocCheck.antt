-- ===== src/ShmLayout/AllocCheck.antt =====
-- `shm_alloc_check` clears the block that `get_page_bits` uses.
use oxbow.Prelude.{
  ℕ, ◌+◌, ◌*◌, ◌/◌, ◌%◌, ◌≤◌, ◌<◌, ◌≡◌, refl, ◌≢◌, ◌⊎◌, inl, inr, Bool, true, false, arith, ltb,
  if◌then◌else◌, lt→ltb, Bool-cases, update, update_self, u32,
}
use oxbow.ShmLayout.{
  shm_page_set_bit, shm_page_check_bit, bmap_idx_of, ShmFile, to_int, BitType, dirtybit, lockbit,
  uptodatebit, skipread_bit, pdb_coverage, get_page_bits, memset_page, shm_alloc_check,
}

-- The bit of a page's block, in a page of the shared memory.
pub set_bit_of_block :
    (page : ℕ → Bool) (pg_idx : ℕ)
    → pg_idx < 268435456
    → shm_page_set_bit page (to_int (bmap_idx_of pg_idx)) ≡ update page (pg_idx / 8192) true
unfolding to_int shm_page_set_bit
set_bit_of_block page pg_idx small =
    let idx : bmap_idx_of pg_idx ≡ pg_idx / 8192 = omega arith in
    let low : ltb (pg_idx / 8192 % u32) 2147483648 ≡ true = lt→ltb _ _ (omega arith) in
    let word : pg_idx / 8192 % u32 ≡ pg_idx / 8192 = omega arith in
    let inside : ltb (pg_idx / 8192) 32768 ≡ true = lt→ltb _ _ (omega arith) in
    rw idx (rw low (rw word (rw inside refl)))

-- Only the bits change.
pub shm_alloc_check-kept :
    (locks : Bool) (h : ShmFile) (pi : ℕ)
    → (shm_alloc_check locks h pi).1 ≡ record h {
      alloc_check = ((shm_alloc_check locks h pi).1).alloc_check;
      bytes = ((shm_alloc_check locks h pi).1).bytes;
    }
unfolding shm_alloc_check
shm_alloc_check-kept locks h pi =
    elim (Bool-cases (shm_page_check_bit h.alloc_check (to_int (bmap_idx_of pi)))) [
      | inl there ↦ rw there refl
      | inr fresh ↦ rw fresh refl
    ]

module _ (header : ShmFile) (pg_idx : ℕ) (small : pg_idx < 268435456) where
  abbrev idx : ℕ
  idx = pg_idx / 8192

  idx_lem : (bmap_idx_of pg_idx ≡ idx) × (idx < 32768)
  idx_lem = (omega arith, omega arith)

  bit_set :
      shm_page_set_bit header.alloc_check (to_int (bmap_idx_of pg_idx))
      ≡ update header.alloc_check idx true
  bit_set = set_bit_of_block header.alloc_check pg_idx small

  bit_check :
      shm_page_check_bit header.alloc_check (to_int (bmap_idx_of pg_idx)) ≡ header.alloc_check idx
  unfolding to_int shm_page_check_bit
  bit_check =
      let low : ltb (idx % u32) 2147483648 ≡ true = lt→ltb _ _ (omega arith) in
      let word : idx % u32 ≡ idx = omega arith in
      let inside : ltb idx 32768 ≡ true = lt→ltb _ _ (omega arith) in
      rw (idx_lem.0) (rw low (rw word (rw inside refl)))

  abbrev checked : ShmFile
  checked = if header.alloc_check idx then header else record header {
    alloc_check = update header.alloc_check idx true;
    bytes = memset_page header.bytes (4096 + (idx + 2) * 4096);
  }

  pub shm_alloc_check-checked :
      (locks : Bool)
      → shm_alloc_check locks header pg_idx
        ≡ (if header.alloc_check idx then (true, checked) else (locks, checked))
  unfolding shm_alloc_check
  shm_alloc_check-checked locks = elim (Bool-cases (header.alloc_check idx)) [
    | inl there ↦ rw bit_check (rw there refl)
    | inr fresh ↦ rw bit_check (rw fresh (rw bit_set (rw (idx_lem.0) refl)))
  ]

  bytes_at :
      (max_file_size q : ℕ) (t : BitType)
      → 0 < max_file_size
      → max_file_size ≤ pdb_coverage
      → q < 268435456
      → (4096 + (q / 8192 + 2) * 4096 ≤ get_page_bits max_file_size q t)
        × (get_page_bits max_file_size q t < 4096 + (q / 8192 + 2) * 4096 + 4096)
  unfolding get_page_bits
  bytes_at m q dirtybit pos_ le lt = (omega arith, omega arith)
  bytes_at m q lockbit pos_ le lt = (omega arith, omega arith)
  bytes_at m q uptodatebit pos_ le lt = (omega arith, omega arith)
  bytes_at m q skipread_bit pos_ le lt = (omega arith, omega arith)

  memset_inside :
      (f : ℕ → ℕ → Bool) (at i b : ℕ) → at ≤ i → i < at + 4096 → memset_page f at i b ≡ false
  unfolding memset_page
  memset_inside f at i b lo hi = ground arith

  memset_outside :
      (f : ℕ → ℕ → Bool) (at i b : ℕ) → (i < at) ⊎ (at + 4096 ≤ i) → memset_page f at i b ≡ f i b
  unfolding memset_page
  memset_outside f at i b out = ground arith

  -- For a page below 1 TB of a file of at most 1 TB, the first `shm_alloc_check` of the page's block marks
  -- it and clears the bits of all states of its pages, and changes the bits of no page of another block;
  -- its result is that of `mlock`. When the block is marked already, nothing changes.
  pub shm_alloc_check-clears :
      (locks : Bool) (max_file_size : ℕ)
      → 0 < max_file_size
      → max_file_size ≤ pdb_coverage
      → let (ok, header') = shm_alloc_check locks header pg_idx in
        (header.alloc_check (pg_idx / 8192) ≡ true → (ok ≡ true) × (header' ≡ header))
        × (header.alloc_check (pg_idx / 8192) ≡ false
            → (ok ≡ locks)
              × (header'.alloc_check (pg_idx / 8192) ≡ true)
              × ((q : ℕ) (t : BitType) (b : ℕ)
                  → q / 8192 ≡ pg_idx / 8192
                  → header'.bytes (get_page_bits max_file_size q t) b ≡ false)
              × ((q : ℕ) (t : BitType) (b : ℕ)
                  → q < 268435456
                  → q / 8192 ≢ pg_idx / 8192
                  → header'.bytes (get_page_bits max_file_size q t) b
                    ≡ header.bytes (get_page_bits max_file_size q t) b))
  shm_alloc_check-clears locks m some_size le = rw (shm_alloc_check-checked locks) (
    λ there. rw there (refl, refl),
    λ fresh. rw fresh (
      refl,
      update_self header.alloc_check idx true,
      λ q t b same.
          let r = bytes_at m q t some_size le (omega (arith, same, small)) in
          memset_inside header.bytes (4096 + (idx + 2) * 4096) (get_page_bits m q t) b
            (omega (arith, r.0, same)) (omega (arith, r.1, same)),
      λ q t b low other.
          let r = bytes_at m q t some_size le low in
          memset_outside header.bytes (4096 + (idx + 2) * 4096) (get_page_bits m q t) b
            (omega (arith, r.0, r.1, other)),
    ),
  )
