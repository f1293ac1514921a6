-- ===== src/JournalLog/Bios/Wrap.antt =====
-- Requests that go round the log write the buffer to consecutive blocks of the circular area.
use oxbow.Prelude.{
  ℕ, ◌+◌, ◌-◌, ◌*◌, ◌%◌, ◌≤◌, ◌<◌, ◌≡◌, refl, sym, ap, ap₂, ◌∙◌, true, false, ◌≢◌, none, some, ◌==◌,
  List, [], ◌∷◌, ◌++◌, append_assoc, arith, ltb, lt→ltb, le→ltb, u64, u32, add64, sub64, sub32,
}
use native.Mathlib.Decide.{dec_le}
use native.Mathlib.Nat.{mod-add-mod, mod_self, zero-mod, add-mod_right}
use oxbow.JournalLog.{JournalLog, bytes_to_nblks, check_wrap_around_journal_tx}
use oxbow.JournalLog.Bios.{
  Bio, add_bio_to_bl, bios_considering_wrap, add_bios_considering_wrap, bio_of, wrapped_baddr,
  add_bio_considering_wrap,
}
use oxbow.JournalLog.Advance.{area}
use oxbow.JournalLog.Bios.Spans.{
  Write, span, writes, add_bio_to_bl_spans, writes-append, writes-bio_of,
}
use oxbow.JournalLog.Bios.RingSpan.{
  ring_span, ring_span-eq-span, ring_span-append, ring_span-mod, ring_span-size,
}

-- An area of blocks that leaves out block 0, the superblock, and fits 32-bit counters.
pub record IsArea (j : JournalLog) : Type 0 where
  pub positive : 0 < j.first
  pub ordered : j.first ≤ j.last
  pub counted : area j.first j.last < u32
  pub addressed : j.last + area j.first j.last < u64

-- The blocks that hold `n` blocks of a buffer, from address `start` on, round the log.
abbrev pub log_writes : JournalLog → ℕ → ℕ → ℕ → List Write
log_writes j start buf n = ring_span j.first (area j.first j.last) (start - j.first) buf n

-- `start` is a block of the log, or the one behind its last.
abbrev pub IsCursor : JournalLog → ℕ → Type 0
IsCursor j start = (j.first ≤ start) × (start ≤ j.last + 1)

module _ (j : JournalLog) (start buf n : ℕ) (a : IsArea j) (c : IsCursor j start) where
  pub straight : start + n ≤ j.last + 1 → log_writes j start buf n ≡ span start buf n
  straight h =
      ring_span-eq-span j.first (area j.first j.last) (start - j.first) buf n
        (omega (arith, a.ordered))
      ∙ ap (λ b. span b buf n) (omega arith)

  pub round :
      (n1 : ℕ)
      → n1 ≡ j.last + 1 - start
      → n1 ≤ n
      → n ≤ area j.first j.last
      → log_writes j start buf n ≡ span start buf n1 ++ span j.first (buf + 4096 * n1) (n - n1)
  round n1 e le fits =
      ap (log_writes j start buf) {y = n1 + (n - n1)} (omega arith)
      ∙ ring_span-append j.first (area j.first j.last) (start - j.first) buf n1 (n - n1)
      ∙ ap₂ ◌++◌
          (ring_span-eq-span j.first (area j.first j.last) (start - j.first) buf n1
              (omega (arith, a.ordered))
            ∙ ap (λ b. span b buf n1) (omega arith))
          (ap (λ o. ring_span j.first (area j.first j.last) o (buf + 4096 * n1) (n - n1))
              {y = area j.first j.last} (omega (arith, a.ordered))
            ∙ ring_span-size j.first (area j.first j.last) (buf + 4096 * n1) (n - n1) (omega arith)
                (omega arith))

abbrev pair : ℕ → ℕ → ℕ × ℕ
pair x y = (x, y)

module _ {j : JournalLog} (bl : List Bio) (start buf size : ℕ) (a : IsArea j) (c : IsCursor j start)
    (fits : bytes_to_nblks size ≤ area j.first j.last) where
  no_wrap_lem :
      start + bytes_to_nblks size ≤ j.last + 1
      → bios_considering_wrap j bl start buf size
        ≡ (add_bio_to_bl bl buf start (bytes_to_nblks size), start + bytes_to_nblks size)
  unfolding bios_considering_wrap check_wrap_around_journal_tx
  no_wrap_lem h =
      let stays : ltb j.last (sub64 (add64 start (bytes_to_nblks size)) 1) ≡ false =
        le→ltb _ _ (omega (arith, a.positive, a.addressed)) in
      rw stays (
        ap (λ k. (add_bio_to_bl bl buf start (bytes_to_nblks size), k))
          (omega (arith, a.addressed)))

  wrap_lem :
      (n1 : ℕ)
      → n1 ≡ j.last + 1 - start
      → j.last + 1 < start + bytes_to_nblks size
      → bios_considering_wrap j bl start buf size ≡ (
        add_bio_to_bl
            (add_bio_to_bl bl buf start n1)
            (buf + 4096 * n1)
            j.first
            (bytes_to_nblks size - n1),
        j.first + (bytes_to_nblks size - n1),
      )
  unfolding bios_considering_wrap check_wrap_around_journal_tx
  wrap_lem n1 e h =
      let goes_round : ltb j.last (sub64 (add64 start (bytes_to_nblks size)) 1) ≡ true =
        lt→ltb _ _ (omega (arith, a.positive, a.addressed)) in
      let k1 : add64 (sub64 j.last start) 1 % u32 ≡ n1 = omega (arith, a.addressed, a.counted) in
      let k2 : sub32 (bytes_to_nblks size) (add64 (sub64 j.last start) 1 % u32)
          ≡ bytes_to_nblks size - n1 =
        omega (arith, a.counted, k1) in
      rw goes_round (
        ap₂ (λ k m. (add_bio_to_bl (add_bio_to_bl bl buf start k.0) k.1 j.first m, add64 j.first m))
          (ap₂ (λ (x y : ℕ). pair x y) k1 (omega (arith, a.counted, k1))) k2
        ∙ ap
            (λ x. (
              add_bio_to_bl (add_bio_to_bl bl buf start n1) (buf + 4096 * n1) j.first
                  (bytes_to_nblks size - n1),
              x,
            ))
            (omega (arith, a.addressed)))

  -- The writes of the requests, and where the next block goes.
  abbrev Requested : List Bio × ℕ → Type 0
  Requested (bl', next) =
      (writes bl' ≡ writes bl ++ log_writes j start buf (bytes_to_nblks size))
      × IsCursor j next
      × ((next - j.first) % area j.first j.last
          ≡ (start - j.first + bytes_to_nblks size) % area j.first j.last)

  goes_round_lem :
      (n1 : ℕ)
      → n1 ≡ j.last + 1 - start
      → j.last + 1 < start + bytes_to_nblks size
      → Requested (bios_considering_wrap j bl start buf size)
  goes_round_lem n1 e h =
      let n2 = bytes_to_nblks size - n1 in
      let both =
        add_bio_to_bl_spans (add_bio_to_bl bl buf start n1) (buf + 4096 * n1) j.first n2
          (omega (arith, a.counted)) (omega (arith, a.addressed, a.counted)) in
      let one =
        add_bio_to_bl_spans bl buf start n1 (omega (arith, a.counted))
          (omega (arith, a.addressed)) in
      rw (wrap_lem n1 e h) (
        both
            ∙ ap (λ l. l ++ span j.first (buf + 4096 * n1) n2) one
            ∙ append_assoc (writes bl) (span start buf n1) (span j.first (buf + 4096 * n1) n2)
            ∙ ap (λ l. writes bl ++ l)
                (sym (round j start buf (bytes_to_nblks size) a c n1 e (omega arith) fits)),
        omega (arith, a.ordered),
        ap (λ k. k % area j.first j.last) {y = n2} (omega arith)
            ∙ sym (add-mod_right n2 (area j.first j.last))
            ∙ ap (λ k. k % area j.first j.last) (omega (arith, a.ordered)),
      )

  -- The requests for whole blocks.
  pub bios_considering_wrap_lem :
      let (bl', next) = bios_considering_wrap j bl start buf size in
      (writes bl' ≡ writes bl ++ log_writes j start buf (bytes_to_nblks size))
      × IsCursor j next
      × ((next - j.first) % area j.first j.last
          ≡ (start - j.first + bytes_to_nblks size) % area j.first j.last)
  bios_considering_wrap_lem = elim (dec_le (start + bytes_to_nblks size) (j.last + 1)) [
    | yes stays ↦ rw (no_wrap_lem stays) (
      add_bio_to_bl_spans bl buf start (bytes_to_nblks size) (omega (arith, a.counted))
            (omega (arith, a.addressed))
          ∙ ap (λ l. writes bl ++ l) (sym (straight j start buf (bytes_to_nblks size) a c stays)),
      omega arith,
      ap (λ k. k % area j.first j.last) (omega (arith, a.ordered)),
    )
    | no goes_round ↦ goes_round_lem (j.last + 1 - start) refl (omega arith)
  ]

  -- On a log that leaves out block 0, from a cursor of the log on, at most as many blocks as it
  -- has are requested from the buffer in order, going round its end, when the size is a multiple of the
  -- block size; the returned address is a cursor, that many blocks further round. For another size the
  -- function does not return.
  pub add_bios_considering_wrap_lem :
      (size % 4096 ≡ 0
        → (bl' : List Bio) × (next : ℕ) × (add_bios_considering_wrap j bl start buf size
            ≡ some (bl', next))
          × (writes bl' ≡ writes bl ++ log_writes j start buf (bytes_to_nblks size))
          × IsCursor j next
          × ((next - j.first) % area j.first j.last
              ≡ (start - j.first + bytes_to_nblks size) % area j.first j.last))
      × (size % 4096 ≢ 0 → add_bios_considering_wrap j bl start buf size ≡ none)
  unfolding add_bios_considering_wrap
  add_bios_considering_wrap_lem =
      let r = bios_considering_wrap j bl start buf size in
      let h = bios_considering_wrap_lem in
      (
        λ whole.
            let aligned : (size % 4096 == 0) ≡ true = ground (arith, whole) in
            (r.0, r.1, rw aligned refl, h.0, h.1, h.2),
        λ part. let stops : (size % 4096 == 0) ≡ false = ground (arith, part) in rw stops refl,
      )

-- The writes depend on the position of the cursor in the area only.
pub log_writes-mod :
    (j : JournalLog) (start off buf n : ℕ)
    → (start - j.first) % area j.first j.last ≡ off % area j.first j.last
    → log_writes j start buf n ≡ ring_span j.first (area j.first j.last) off buf n
log_writes-mod j start off buf n e =
    sym (ring_span-mod j.first (area j.first j.last) (start - j.first) buf n)
    ∙ ap (λ o. ring_span j.first (area j.first j.last) o buf n) e
    ∙ ring_span-mod j.first (area j.first j.last) off buf n

module _ {j : JournalLog} (bl : List Bio) (dst buf : ℕ) (a : IsArea j) (c : IsCursor j dst) where
  IsPlaced : ℕ → Type 0
  IsPlaced at =
      (add_bio_considering_wrap j bl dst buf ≡ (bl ++ (bio_of at buf 1 ∷ []), at + 1))
      × (j.first ≤ at)
      × (at ≤ j.last)
      × ((at - j.first) % area j.first j.last ≡ (dst - j.first) % area j.first j.last)

  add_bio_considering_wrap-IsPlaced : (at : ℕ) × IsPlaced at
  unfolding IsPlaced add_bio_considering_wrap check_wrap_around_journal_tx wrapped_baddr
  add_bio_considering_wrap-IsPlaced = elim (dec_le dst j.last) [
    | yes inside ↦
        let stays : ltb j.last (sub64 (add64 dst 1) 1) ≡ false =
          le→ltb _ _ (omega (arith, a.positive, a.addressed)) in
        (
          dst,
          (
            rw stays (ap (λ k. (bl ++ (bio_of dst buf 1 ∷ []), k)) (omega (arith, a.addressed))),
            c.0,
            inside,
            refl,
          ),
        )
    | no behind ↦
        let goes_round : ltb j.last (sub64 (add64 dst 1) 1) ≡ true =
          lt→ltb _ _ (omega (arith, a.positive, a.addressed)) in
        let lands : add64 j.first (sub64 (sub64 dst j.last) 1) ≡ j.first =
          omega (arith, a.addressed) in
        (
          j.first,
          (
            rw goes_round (
                ap₂ (λ k m. (bl ++ (bio_of k buf 1 ∷ []), m)) lands
                  (omega (arith, a.addressed, lands))),
            omega arith,
            a.ordered,
            ap (λ k. k % area j.first j.last) {y = 0} (omega arith)
                ∙ zero-mod (area j.first j.last)
                ∙ sym (mod_self (area j.first j.last))
                ∙ ap (λ k. k % area j.first j.last) (omega (arith, a.ordered)),
          ),
        )
  ]

  -- On a log that leaves out block 0, one block from a cursor of the log on is requested there, or
  -- at the first block of the log if the cursor is behind the last; the returned address is again
  -- a cursor, one block further round.
  pub add_bio_considering_wrap_lem :
      let (bl', next) = add_bio_considering_wrap j bl dst buf in
      (writes bl' ≡ writes bl ++ log_writes j dst buf 1)
      × IsCursor j next
      × ((next - j.first) % area j.first j.last ≡ (dst - j.first + 1) % area j.first j.last)
  unfolding IsPlaced ring_span
  add_bio_considering_wrap_lem =
      let at = add_bio_considering_wrap-IsPlaced.0 in
      let p = add_bio_considering_wrap-IsPlaced.1 in
      let e = p.0 in
      let lo = p.1 in
      let hi = p.2 in
      let m = p.3 in
      let A = area j.first j.last in
      rw e (
        writes-append bl _
            ∙ ap (λ l. writes bl ++ l)
                (writes-bio_of at buf 1 (omega arith)
                  ∙ sym (
                      ring_span-eq-span j.first A (at - j.first) buf 1 (omega (arith, a.ordered))
                      ∙ ap (λ b. span b buf 1) (omega arith))
                  ∙ log_writes-mod j at (dst - j.first) buf 1 m),
        omega arith,
        ap (λ k. k % A) {y = at - j.first + 1} (omega arith)
            ∙ sym (mod-add-mod (at - j.first) A 1)
            ∙ ap (λ k. (k + 1) % A) m
            ∙ mod-add-mod (dst - j.first) A 1,
      )
