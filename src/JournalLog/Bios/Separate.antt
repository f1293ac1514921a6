-- ===== src/JournalLog/Bios/Separate.antt =====
-- The two lists of a data chunk, one for each part of the log that it goes to.
use oxbow.Prelude.{
  ℕ, zero, suc, ◌∷◌, ◌+◌, ◌-◌, ◌*◌, ◌%◌, ◌≤◌, ◌<◌, ◌≡◌, refl, sym, ap, ap₂, ◌∙◌, true, false,
  Option, none, some, List, [], ◌++◌, append-nil, arith, ltb, lt→ltb, le→ltb, u32, add64, sub64,
  sub32,
}
use native.Mathlib.Decide.{dec_le}
use oxbow.JournalLog.{JournalLog, nblks_to_bytes, bytes_to_nblks, check_wrap_around_journal_tx}
use oxbow.JournalLog.Advance.{area}
use oxbow.JournalLog.Bios.{Bio, is_empty, add_bio_to_bl, separate_bls}
use oxbow.JournalLog.Bios.Spans.{writes, span, add_bio_to_bl_spans}
use oxbow.JournalLog.Bios.Wrap.{IsArea, log_writes, IsCursor, straight, round}

requests_some :
    (bl : List Bio) (start buf n : ℕ)
    → 0 < n
    → writes bl ≡ writes [] ++ span start buf n
    → is_empty bl ≡ false
unfolding writes span is_empty
requests_some (b ∷ bl) start buf n some_ e = refl
requests_some [] start buf zero some_ e = absurd (omega arith)
requests_some [] start buf (suc n) some_ e = absurd (ground (arith, e))

module _ (j : JournalLog) (start buf size : ℕ) (a : IsArea j) (c : IsCursor j start)
    (fits : bytes_to_nblks size ≤ area j.first j.last) where
  abbrev lists : List Bio × List Bio × Option ℕ
  lists = separate_bls j [] [] start buf size

  one_list :
      start + bytes_to_nblks size ≤ j.last + 1
      → lists ≡ (add_bio_to_bl [] buf start (bytes_to_nblks size), [], none)
  unfolding separate_bls check_wrap_around_journal_tx
  one_list h =
      let stays : ltb j.last (sub64 (add64 start (bytes_to_nblks size)) 1) ≡ false =
        le→ltb _ _ (omega (arith, a.positive, a.addressed)) in
      rw stays refl

  two_lists :
      (n1 : ℕ)
      → n1 ≡ j.last + 1 - start
      → j.last + 1 < start + bytes_to_nblks size
      → lists ≡ (
        add_bio_to_bl [] buf start n1,
        add_bio_to_bl [] (buf + 4096 * n1) j.first (bytes_to_nblks size - n1),
        some (buf + 4096 * n1),
      )
  unfolding separate_bls check_wrap_around_journal_tx
  two_lists n1 e h =
      let goes_round : ltb j.last (sub64 (add64 start (bytes_to_nblks size)) 1) ≡ true =
        lt→ltb _ _ (omega (arith, a.positive, a.addressed)) in
      let m1 = add64 (sub64 j.last start) 1 % u32 in
      let k1 : m1 ≡ n1 = omega (arith, a.addressed, a.counted) in
      let k2 : buf + nblks_to_bytes m1 ≡ buf + 4096 * n1 = omega (arith, a.counted, k1) in
      let k3 : sub32 (bytes_to_nblks size) m1 ≡ bytes_to_nblks size - n1 =
        omega (arith, a.counted, k1) in
      rw goes_round (
        ap₂
          (λ m b. (
            add_bio_to_bl [] buf start m,
            add_bio_to_bl [] b j.first (sub32 (bytes_to_nblks size) m1),
            some b,
          ))
          k1 k2
        ∙ ap
            (λ m. (
              add_bio_to_bl [] buf start n1,
              add_bio_to_bl [] (buf + 4096 * n1) j.first m,
              some (buf + 4096 * n1),
            ))
            k3)

  -- On a log that leaves out block 0, from a cursor of the log on, the two lists together request
  -- the blocks of a chunk that is no larger than the log, in order and round the log.
  pub separate_lists_lem :
      writes lists.0 ++ writes lists.1 ≡ log_writes j start buf (bytes_to_nblks size)
  unfolding writes
  separate_lists_lem = elim (dec_le (start + bytes_to_nblks size) (j.last + 1)) [
    | yes stays ↦ rw (one_list stays) (
        append-nil _
        ∙ add_bio_to_bl_spans [] buf start (bytes_to_nblks size) (omega (arith, a.counted))
            (omega (arith, a.addressed))
        ∙ sym (straight j start buf (bytes_to_nblks size) a c stays))
    | no behind ↦
        let n1 = j.last + 1 - start in
        rw (two_lists n1 refl (omega arith)) (
          ap₂ ◌++◌
            (add_bio_to_bl_spans [] buf start n1 (omega (arith, a.counted))
              (omega (arith, a.addressed)))
            (add_bio_to_bl_spans [] (buf + 4096 * n1) j.first (bytes_to_nblks size - n1)
              (omega (arith, a.counted)) (omega (arith, a.addressed, a.counted)))
          ∙ sym (round j start buf (bytes_to_nblks size) a c n1 refl (omega arith) fits))
  ]

  -- From a block of the log on, the first list of a chunk that is not empty is not empty.
  pub separate_lists-first : 0 < bytes_to_nblks size → start ≤ j.last → is_empty lists.0 ≡ false
  separate_lists-first some_ inside = elim (dec_le (start + bytes_to_nblks size) (j.last + 1)) [
    | yes stays ↦
        ap (λ l. is_empty l.0) (one_list stays)
        ∙ requests_some _ start buf (bytes_to_nblks size) some_ (
            add_bio_to_bl_spans [] buf start (bytes_to_nblks size) (omega (arith, a.counted))
              (omega (arith, a.addressed)))
    | no behind ↦
        let n1 = j.last + 1 - start in
        ap (λ l. is_empty l.0) (two_lists n1 refl (omega arith))
        ∙ requests_some _ start buf n1 (omega (arith, inside)) (
            add_bio_to_bl_spans [] buf start n1 (omega (arith, a.counted))
              (omega (arith, a.addressed)))
  ]
