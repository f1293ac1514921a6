-- ===== src/Checkpoint/Cut.antt =====
-- The rest of an old tag, for each way in which a later one can overlap it.
use oxbow.Prelude.{
  ℕ, ◌+◌, ◌≤◌, ◌<◌, ◌≡◌, ◌≢◌, ◌⊎◌, inl, inr, refl, true, ◌&&◌, ◌||◌, some, List, [], ◌∷◌, ltb, leb,
  ◌==◌, Bool-cases, add64, arith,
}
use oxbow.Checkpoint.{
  TagListNode, invalid_start, new_node, shortened, cut_inside, cut_front, cut_back, cut_overlap,
  cut,
}
use oxbow.Checkpoint.View.{IsNode, IsRest}

module _ (start n : ℕ) (r : TagListNode) (fits : start + n < invalid_start) (w : IsNode r) where
  untouched :
      r.start ≡ invalid_start ⊎ (r.start + r.cnt ≤ start ⊎ start + n ≤ r.start)
      → IsRest start n r (r ∷ [])
  untouched h = record {
    nodes = (w, tt);
    group = ((refl, refl), tt);
    length_kept = omega arith;
    uncovered = λ d. ground (arith, h);
    sources = λ qs d h. refl;
  }

  covered :
      start ≤ r.start
      → r.start + r.cnt ≤ start + n
      → IsRest start n r (record r { start = invalid_start } ∷ [])
  covered lo hi = record {
    nodes = (record { addressed = inl refl; counted = w.counted }, tt);
    group = ((refl, refl), tt);
    length_kept = omega arith;
    uncovered = λ d. ground (arith, w.addressed);
    sources = λ qs d h. ground (arith, w.addressed);
  }

  inside :
      r.start ≢ invalid_start
      → r.start ≤ start
      → start + n ≤ r.start + r.cnt
      → IsRest start n r (cut_inside start n r)
  unfolding cut_inside new_node shortened
  inside valid lo hi = record {
    nodes = ground (arith, w.addressed, w.counted);
    group = ground arith;
    length_kept = ground (arith, w.addressed, w.counted);
    uncovered = λ d. ground (arith, w.addressed, w.counted);
    sources = λ qs d h. ground (arith, w.addressed, w.counted);
  }

  front :
      r.start ≢ invalid_start
      → start < r.start
      → r.start < start + n
      → start + n < r.start + r.cnt
      → IsRest start n r (cut_front start n r)
  unfolding cut_front new_node
  front valid lo meet hi = record {
    nodes = ground (arith, w.addressed, w.counted);
    group = ground arith;
    length_kept = ground (arith, w.addressed, w.counted);
    uncovered = λ d. ground (arith, w.addressed, w.counted);
    sources = λ qs d h. ground (arith, w.addressed, w.counted);
  }

  back :
      r.start ≢ invalid_start
      → r.start < start
      → start < r.start + r.cnt
      → r.start + r.cnt < start + n
      → IsRest start n r (cut_back start n r)
  unfolding cut_back new_node shortened
  back valid lo meet hi = record {
    nodes = ground (arith, w.addressed, w.counted);
    group = ground arith;
    length_kept = ground (arith, w.addressed, w.counted);
    uncovered = λ d. ground (arith, w.addressed, w.counted);
    sources = λ qs d h. ground (arith, w.addressed, w.counted);
  }

  cut_overlap-IsRest :
      r.start ≢ invalid_start
      → start < r.start + r.cnt
      → r.start < start + n
      → (ps : List TagListNode) × (cut_overlap start n r ≡ some ps) × IsRest start n r ps
  unfolding cut_overlap
  cut_overlap-IsRest valid meet meet' =
      let end : add64 start n ≡ start + n = omega arith in
      let end_r : add64 r.start r.cnt ≡ r.start + r.cnt = omega (arith, w.addressed, valid) in
      elim (Bool-cases ((start == r.start) && (n == r.cnt))) [
        | inl a ↦ (_, rw a refl, covered (ground arith) (ground arith))
        | inr a ↦ elim (Bool-cases (leb r.start start && leb (start + n) (r.start + r.cnt))) [
          | inl b ↦
              (_, rw end (rw end_r (rw a (rw b refl))), inside valid (ground arith) (ground arith))
          | inr b ↦ elim (Bool-cases (leb start r.start && leb (r.start + r.cnt) (start + n))) [
            | inl c ↦ (
              _,
              rw end (rw end_r (rw a (rw b (rw c refl)))),
              covered (ground arith) (ground arith),
            )
            | inr c ↦ elim (Bool-cases (ltb start r.start && ltb (start + n) (r.start + r.cnt))) [
              | inl d ↦ (
                _,
                rw end (rw end_r (rw a (rw b (rw c (rw d refl))))),
                front valid (ground arith) meet' (ground arith),
              )
              | inr d ↦
                  let e : (ltb r.start start && ltb (r.start + r.cnt) (start + n)) ≡ true =
                    ground arith in
                  (
                    _,
                    rw end (rw end_r (rw a (rw b (rw c (rw d (rw e refl)))))),
                    back valid (ground arith) meet (ground arith),
                  )
            ]
          ]
        ]
      ]

  -- Whatever way a later tag, which has addresses, overlaps an older node, the abort at the end of the
  -- cases is not reached, and the nodes that take the place of the older one have its blocks of the log, in
  -- its group and in their order, and write each of its blocks that the later tag does not write, once, from
  -- the same block of the log as before.
  pub cut-IsRest : (ps : List TagListNode) × (cut start n r ≡ some ps) × IsRest start n r ps
  unfolding cut
  cut-IsRest = elim (Bool-cases (r.start == invalid_start)) [
    | inl a ↦ (r ∷ [], rw a refl, untouched (inl (ground arith)))
    | inr a ↦
        let valid : r.start ≢ invalid_start = ground arith in
        elim (Bool-cases (leb (add64 r.start r.cnt) start || leb (add64 start n) r.start)) [
          | inl b ↦
              let apart : r.start + r.cnt ≤ start ⊎ start + n ≤ r.start =
                ground (arith, w.addressed) in
              (r ∷ [], rw a (rw b refl), untouched (inr apart))
          | inr b ↦
              let (ps, run, rest) =
                cut_overlap-IsRest valid (ground (arith, w.addressed))
                  (ground (arith, w.addressed)) in
              (ps, rw a (rw b run), rest)
        ]
  ]
