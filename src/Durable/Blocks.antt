-- ===== src/Durable/Blocks.antt =====
-- The blocks of the tags of a transaction, and where the checkpoint takes them from.
use oxbow.Prelude.{
  ℕ, zero, suc, ◌+◌, ◌-◌, ◌≤◌, ◌<◌, ◌≡◌, ◌≢◌, refl, sym, ap, ◌∙◌, inl, inr, ◌⊎◌, false, Option,
  none, some, List, [], ◌∷◌, ◌++◌, map, get_elem?, length, length-append, leb, All, ltb, Bool-cases,
  arith,
}
use mathlib.Core.Option
use oxbow.TagBlocks.{Etag}
use oxbow.Checkpoint.{TagListNode, behind}
use oxbow.Checkpoint.View.{hits, total, source_of}
use oxbow.Checkpoint.Transfer.{Logs}
use oxbow.Checkpoint.Transfer.Address.{IsLogs}
use oxbow.Checkpoint.Journal.{journal_node, is_log, IsExtent, IsOutside}
use oxbow.FileData.Pages.{run, length-run, blocks_of}
use oxbow.FileData.Tag.{IsPlaced}

get_elem?-run : (s n : ℕ) (l : List ℕ) (i : ℕ) → i < n → get_elem? (run s n ++ l) i ≡ some (s + i)
unfolding run
get_elem?-run s zero l i lt = absurd (omega (arith, lt))
get_elem?-run s (suc n) l zero lt = ap some (omega arith)
get_elem?-run s (suc n) l (suc i) lt =
    get_elem?-run (s + 1) n l i (omega (arith, lt)) ∙ ap some (omega arith)

get_elem?-behind :
    (s n : ℕ) (l : List ℕ) (i : ℕ) → n ≤ i → get_elem? (run s n ++ l) i ≡ get_elem? l (i - n)
unfolding run
get_elem?-behind s zero l i le = ap (get_elem? l) (omega arith)
get_elem?-behind s (suc n) l zero le = absurd (omega (arith, le))
get_elem?-behind s (suc n) l (suc i) le =
    get_elem?-behind (s + 1) n l i (omega (arith, le)) ∙ ap (get_elem? l) (omega arith)

pub get_elem?-map :
    (f : ℕ → ℕ) (l : List ℕ) (i : ℕ) → get_elem? (map f l) i ≡ Option.map f (get_elem? l i)
get_elem?-map f [] i = refl
get_elem?-map f (x ∷ l) zero = refl
get_elem?-map f (x ∷ l) (suc i) = get_elem?-map f l i

pub some-injective : (x y : ℕ) → some x ≡ some y → x ≡ y
some-injective x y e = ground arith

pub none-ne-some : {x : ℕ} → ◌≡◌ {A = Option ℕ} none (some x) → ⊥
none-ne-some h = cc

module _ (j_start_baddr : ℕ) where
  unfoldable pub nodes : List Etag → List TagListNode
  nodes es = map (journal_node j_start_baddr) es

  -- The block of the log that a block of the file system comes from is one of the tags' blocks.
  pub source_of-blocks_of :
      (es : List Etag) (ms : List TagListNode) (d p : ℕ)
      → All IsExtent es
      → source_of (behind (nodes es) ms) d ≡ some p
      → ((k : ℕ) × (p ≡ total ms + k) × (get_elem? (blocks_of es) k ≡ some d))
        ⊎ (source_of ms d ≡ some p)
  unfolding nodes journal_node blocks_of
  source_of-blocks_of [] ms d p ok e = inr e
  source_of-blocks_of (x ∷ es) ms d p (w, ok) e =
      let n = journal_node j_start_baddr x in
      elim (source_of-blocks_of es (n ∷ ms) d p ok e) [
        | inl (k, at, found) ↦
            let k' : x.cnt + k - x.cnt ≡ k = omega arith in
            inl (
              x.cnt + k,
              omega (arith, at),
              get_elem?-behind x.start x.cnt (blocks_of es) (x.cnt + k) (omega arith)
                  ∙ ap (get_elem? (blocks_of es)) k'
                  ∙ found,
            )
        | inr f ↦ elim (Bool-cases (hits n d)) [
          | inl q ↦
              let lo : x.start ≤ d = ground (arith, q) in
              let hi : d < x.start + x.cnt = ground (arith, q) in
              inl (
                d - x.start,
                ground (arith, q, f),
                get_elem?-run x.start x.cnt (blocks_of es) (d - x.start) (omega (arith, lo, hi))
                    ∙ ap some (omega (arith, lo)),
              )
          | inr q ↦ inr (ground (arith, q, f))
        ]
      ]

  -- A block without a source is none of the tags' blocks.
  pub no_source :
      (es : List Etag) (ms : List TagListNode) (d : ℕ)
      → All IsExtent es
      → source_of (behind (nodes es) ms) d ≡ none
      → (source_of ms d ≡ none) × ((k : ℕ) → get_elem? (blocks_of es) k ≢ some d)
  unfolding nodes journal_node blocks_of
  no_source [] ms d ok e = (e, λ k h. none-ne-some h)
  no_source (x ∷ es) ms d (w, ok) e =
      let n = journal_node j_start_baddr x in
      let (f, unseen) = no_source es (n ∷ ms) d ok e in
      elim (Bool-cases (hits n d)) [
        | inl q ↦ absurd (ground (arith, q, f))
        | inr q ↦ (
          ground (arith, q, f),
          λ k h. elim (Bool-cases (ltb k x.cnt)) [
            | inl r ↦
                let lt : k < x.cnt = ground (arith, r) in
                let at =
                  some-injective _ _ (sym (get_elem?-run x.start x.cnt (blocks_of es) k lt) ∙ h) in
                absurd (ground (arith, q, at, lt, w.addressed))
            | inr r ↦
                unseen (k - x.cnt)
                  (sym (get_elem?-behind x.start x.cnt (blocks_of es) k (ground (arith, r))) ∙ h)
          ],
        )
      ]

  pub length-blocks_of : (es : List Etag) → total (nodes es) ≡ length (blocks_of es)
  unfolding nodes journal_node blocks_of
  length-blocks_of [] = omega arith
  length-blocks_of (x ∷ es) = omega (
    arith,
    length-blocks_of es,
    length-append (run x.start x.cnt) (blocks_of es),
    length-run x.start x.cnt,
  )

pub length_le-blocks_of : (es : List Etag) → All IsPlaced es → length es ≤ length (blocks_of es)
unfolding blocks_of
length_le-blocks_of [] ok = omega arith
length_le-blocks_of (x ∷ es) (w, ok) = omega (
  arith,
  length_le-blocks_of es ok,
  length-append (run x.start x.cnt) (blocks_of es),
  length-run x.start x.cnt,
  w.positive,
)

pub IsPlaced-IsExtent : (es : List Etag) → All IsPlaced es → All IsExtent es
IsPlaced-IsExtent [] ok = tt
IsPlaced-IsExtent (x ∷ es) (w, ok) =
    (record { addressed = w.addressed; counted = w.counted }, IsPlaced-IsExtent es ok)

pub length-map : (f : ℕ → ℕ) (l : List ℕ) → length (map f l) ≡ length l
length-map f [] = refl
length-map f (x ∷ l) = omega (arith, length-map f l)

pub some_tags : (es : List Etag) → 0 < length (blocks_of es) → 0 < length es
unfolding blocks_of
some_tags [] h = absurd (omega (arith, h))
some_tags (x ∷ es) h = omega arith

module _ (logs : Logs) (w : IsLogs logs) where
  -- An extent whose blocks are outside the log.
  pub IsPlaced-IsOutside :
      (es : List Etag)
      → All IsPlaced es
      → ((k d : ℕ) → get_elem? (blocks_of es) k ≡ some d → is_log logs d ≡ false)
      → All (IsOutside logs) es
  unfolding blocks_of
  IsPlaced-IsOutside [] ok out = tt
  IsPlaced-IsOutside (x ∷ es) (v, ok) out = (
    elim (Bool-cases (leb (x.start + x.cnt) (logs.first_blk false))) [
      | inl q ↦ inl (ground (arith, q))
      | inr q ↦ elim (Bool-cases (ltb (logs.last_blk false) x.start)) [
        | inl r ↦ inr (ground (arith, r))
        | inr r ↦
            let i = logs.first_blk false - x.start in
            let below : x.start ≤ logs.last_blk false = ground (arith, r) in
            let above : logs.first_blk false < x.start + x.cnt = ground (arith, q) in
            let here =
              out i (x.start + i)
                (get_elem?-run x.start x.cnt (blocks_of es) i (omega (arith, above, v.positive))) in
            absurd (ground (arith, here, below, above, w.ordered false))
      ]
    ],
    IsPlaced-IsOutside es ok (λ k d e.
        let k' : x.cnt + k - x.cnt ≡ k = omega arith in
        out (x.cnt + k) d (
          get_elem?-behind x.start x.cnt (blocks_of es) (x.cnt + k) (omega arith)
          ∙ ap (get_elem? (blocks_of es)) k'
          ∙ e)),
  )
