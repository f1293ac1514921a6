-- ===== src/JournalLog/Bios/Spans.antt =====
-- Which blocks the requests write, and from where in the buffer.
use oxbow.Prelude.{
  ℕ, zero, suc, ◌+◌, ◌-◌, ◌*◌, ◌/◌, ◌≤◌, ◌<◌, min, ◌≡◌, refl, sym, ap, ap₂, ◌∙◌, ◌⊎◌, true, false,
  List, [], ◌∷◌, ◌++◌, append-nil, append_assoc, arith, ltb, lt→ltb, le→ltb, u64, u32, add64,
}
use oxbow.JournalLog.Bios.{Bio, bio_of, add_bio_loop, bio_max_bio_size, add_bio_to_bl}
use oxbow.JournalLog.Window.{suc-add}
use oxbow.JournalLog.{nblks_to_bytes, bytes_to_nblks}

-- A write of one block: its address, and the place in the buffer.
abbrev pub Write : Type 0
Write = ℕ × ℕ

-- `n` blocks from address `blk` on, from byte `buf` of the buffer on.
unfoldable pub span : ℕ → ℕ → ℕ → List Write
span blk buf zero = []
span blk buf (suc n) = (blk, buf) ∷ span (blk + 1) (buf + 4096) n

unfoldable pub writes : List Bio → List Write
writes [] = []
writes (b ∷ bl) = span b.bi_blk_no b.bv_buf (b.bv_len / 4096) ++ writes bl

pub span-append :
    (blk buf n m : ℕ) → span blk buf (n + m) ≡ span blk buf n ++ span (blk + n) (buf + 4096 * n) m
unfolding span
span-append blk buf zero m = cong₃ (omega arith) (omega arith) (omega arith)
  where
    cong₃ : {a b c d e f : ℕ} → a ≡ b → c ≡ d → e ≡ f → span a c e ≡ span b d f
    cong₃ p q r = cc
span-append blk buf (suc n) m =
    ap (span blk buf) (suc-add n m)
    ∙ ap (λ l. (blk, buf) ∷ l)
        (span-append (blk + 1) (buf + 4096) n m
          ∙ ap₂ (λ b p. span (blk + 1) (buf + 4096) n ++ span b p m) (omega arith) (omega arith))

pub writes-append : (bl bm : List Bio) → writes (bl ++ bm) ≡ writes bl ++ writes bm
unfolding writes
writes-append [] bm = refl
writes-append (b ∷ bl) bm =
    ap (λ l. span b.bi_blk_no b.bv_buf (b.bv_len / 4096) ++ l) (writes-append bl bm)
    ∙ sym (append_assoc (span b.bi_blk_no b.bv_buf (b.bv_len / 4096)) (writes bl) (writes bm))

pub writes-bio_of : (blk buf n : ℕ) → n < u32 → writes (bio_of blk buf n ∷ []) ≡ span blk buf n
unfolding writes bio_of
writes-bio_of blk buf n h = append-nil _ ∙ ap (span blk buf) (omega arith)

-- From a list `bl`, `r` blocks more are requested in order, with fuel above `r`.
loop_spans :
    (fuel r : ℕ) (bl : List Bio) (buf cur copied total : ℕ)
    → r < fuel
    → r < u32
    → cur + r < u64
    → (total ≡ copied + 4096 * r) ⊎ ((r ≡ 0) × (total ≤ copied))
    → writes (add_bio_loop fuel bl buf cur copied total) ≡ writes bl ++ span cur buf r
unfolding add_bio_loop span
loop_spans zero r bl buf cur copied total lt small fits left = absurd (omega arith)
loop_spans (suc fuel) zero bl buf cur copied total lt small fits left =
    let stops : ltb copied total ≡ false = le→ltb copied total (omega arith) in
    rw stops (sym (append-nil _))
loop_spans (suc fuel) (suc r) bl buf cur copied total lt small fits left =
    let k = min (suc r) 8192 in
    let m = suc r - k in
    let size_to_copy = min (total - copied) bio_max_bio_size in
    let n = bytes_to_nblks size_to_copy in
    let goes_on : ltb copied total ≡ true = lt→ltb copied total (omega arith) in
    let copies : size_to_copy ≡ 4096 * k = omega arith in
    let counts : n ≡ k = omega arith in
    let rest =
      loop_spans fuel m (bl ++ (bio_of cur buf n ∷ [])) (buf + size_to_copy) (add64 cur n)
        (copied + bio_max_bio_size) total (omega arith) (omega arith) (omega arith) (omega arith) in
    rw goes_on (
      rest
      ∙ ap₂ (λ l o. l ++ o)
          (writes-append bl _
            ∙ ap (λ l. writes bl ++ l)
                (writes-bio_of cur buf n (omega arith) ∙ ap (span cur buf) counts))
          (ap₂ (λ c b. span c b m) (omega arith) (omega arith))
      ∙ append_assoc (writes bl) (span cur buf k) (span (cur + k) (buf + 4096 * k) m)
      ∙ ap (λ l. writes bl ++ l)
          (sym (span-append cur buf k m) ∙ ap (span cur buf) {y = suc r} (omega arith)))

-- With fewer than 2 ^ 32 blocks at 64-bit addresses, the loop of `add_bio_to_bl` comes to its end
-- and has requested the `n` contiguous blocks, in order, behind those of the list.
pub add_bio_to_bl_spans :
    (bl : List Bio) (buf start n : ℕ)
    → n < u32
    → start + n < u64
    → writes (add_bio_to_bl bl buf start n) ≡ writes bl ++ span start buf n
unfolding add_bio_to_bl
add_bio_to_bl_spans bl buf start n small fits =
    loop_spans (n + 1) n bl buf start 0 (nblks_to_bytes n) (omega arith) small fits (omega arith)
