-- ===== src/RangeDirty/Add.antt =====
-- Adding a range to a chain puts it behind all others.
use oxbow.Prelude.{
  ℕ, zero, suc, ◌≤◌, ◌<◌, ◌≡◌, refl, sym, ap, ◌∙◌, true, Option, none, some, List, [], ◌∷◌, ◌++◌,
  append_assoc, arith, length, take, drop, length-append,
}
use oxbow.RangeDirty.{RangeDirty, Ird, DirtyList, put_range, start_at, put_at, add_range}
use oxbow.RangeDirty.Chain.{ranges, IsChain, Appended, cons-IsChain, get_next_ird_lem}

-- The chain is well formed, and the cached pointer is null or in it.
pub record IsList (d : DirtyList) : Type 0 where
  pub chain : IsChain d.nodes
  pub cached : (i : ℕ) → d.tail ≡ some i → i < length d.nodes

take-drop : (i : ℕ) (l : List Ird) → take i l ++ drop i l ≡ l
take-drop zero l = refl
take-drop (suc i) [] = refl
take-drop (suc i) (x ∷ l) = ap (λ k. x ∷ k) (take-drop i l)

length-take : (i : ℕ) (l : List Ird) → i ≤ length l → length (take i l) ≡ i
length-take zero l h = refl
length-take (suc i) [] h = absurd (omega arith)
length-take (suc i) (x ∷ l) h = omega (arith, length-take i l (omega arith))

length-put_range : (l : List Ird) (i : ℕ) (rd : RangeDirty) → length (put_range l i rd) ≡ length l
unfolding put_range
length-put_range [] i rd = refl
length-put_range (x ∷ l) zero rd = refl
length-put_range (x ∷ l) (suc i) rd = ap suc (length-put_range l i rd)

-- The nodes from a position of the chain on are a chain.
IsChain-drop : (i : ℕ) (l : List Ird) → i < length l → IsChain l → IsChain (drop i l)
unfolding IsChain
IsChain-drop zero l lt h = h
IsChain-drop (suc i) [] lt h = absurd h
IsChain-drop (suc i) (x ∷ []) lt h = absurd (omega arith)
IsChain-drop (suc i) (x ∷ y ∷ l) lt h = IsChain-drop i (y ∷ l) (omega arith) h.2

-- A chain in place of those nodes leaves a chain, with the ranges of the nodes before in front.
rejoined :
    (i : ℕ) (l k : List Ird)
    → i < length l
    → IsChain l
    → IsChain k
    → IsChain (take i l ++ k) × (ranges (take i l ++ k) ≡ ranges (take i l) ++ ranges k)
unfolding IsChain ranges
rejoined zero l k lt h hk = (hk, refl)
rejoined (suc i) [] k lt h hk = absurd h
rejoined (suc i) (x ∷ []) k lt h hk = absurd (omega arith)
rejoined (suc i) (x ∷ y ∷ l) k lt h hk =
    let rest = rejoined i (y ∷ l) k (omega arith) h.2 hk in
    (
      cons-IsChain x (take i (y ∷ l) ++ k) h.0 h.1 rest.0,
      ap (λ r. x.dirty_pages ++ r) rest.1
          ∙ sym (append_assoc x.dirty_pages (ranges (take i (y ∷ l))) (ranges k)),
    )

ranges-append : (k l : List Ird) → ranges (k ++ l) ≡ ranges k ++ ranges l
unfolding ranges
ranges-append [] l = refl
ranges-append (x ∷ k) l =
    ap (λ r. x.dirty_pages ++ r) (ranges-append k l)
    ∙ sym (append_assoc x.dirty_pages (ranges k) (ranges l))

-- What an addition leaves: the ranges with one more, in a well-formed list.
pub Added : DirtyList → RangeDirty → Option DirtyList → Type 0
Added d rd none = ⊥
Added d rd (some d') = (ranges d'.nodes ≡ ranges d.nodes ++ (rd ∷ [])) × IsList d'

put_at-Added :
    (d : DirtyList) (rd : RangeDirty) (i : ℕ)
    → IsList d
    → i < length d.nodes
    → (o : Option (List Ird × ℕ)) → Appended (drop i d.nodes) rd o
    → Added d rd (put_at i (take i d.nodes) rd o)
unfolding Added Appended put_at
put_at-Added d rd i v lt none h = h
put_at-Added d rd i v lt (some (k, m)) h =
    let joined = rejoined i d.nodes (put_range k m rd) lt v.chain h.1 in
    (
      joined.1
          ∙ ap (λ r. ranges (take i d.nodes) ++ r) h.0
          ∙ sym (append_assoc (ranges (take i d.nodes)) (ranges (drop i d.nodes)) (rd ∷ []))
          ∙ ap (λ r. r ++ (rd ∷ []))
              (sym (ranges-append (take i d.nodes) (drop i d.nodes))
                ∙ ap ranges (take-drop i d.nodes)),
      record {
        chain = joined.0;
        cached = λ n e. omega (
          arith,
          length-append (take i d.nodes) (put_range k m rd),
          length-take i d.nodes (omega arith),
          length-put_range k m rd,
          h.2,
          some_inj e,
        );
      },
    )
  where
    some_inj : {a b : ℕ} → some a ≡ some b → a ≡ b
    some_inj e = cc

start_in :
    (l : List Ird) (o : Option ℕ)
    → IsChain l
    → ((i : ℕ) → o ≡ some i → i < length l)
    → start_at o < length l
unfolding start_at IsChain
start_in [] none chain cached = absurd chain
start_in (x ∷ l) none chain cached = omega arith
start_in l (some i) chain cached = cached i refl

-- With a node left in the slab, a well-formed list takes a range behind all others, and stays well formed,
-- whether or not the last node is full and whether or not a node is cached.
pub add_range-appends :
    (d : DirtyList) (rd : RangeDirty) → IsList d → Added d rd (add_range true d rd)
unfolding add_range
add_range-appends d rd v =
    let i = start_at d.tail in
    let lt = start_in d.nodes d.tail v.chain v.cached in
    put_at-Added d rd i v lt _
      (get_next_ird_lem (drop i d.nodes) rd (IsChain-drop i d.nodes lt v.chain))

pub Added-some :
    (d : DirtyList) (rd : RangeDirty) (o : Option DirtyList)
    → Added d rd o
    → (d' : DirtyList) × ((o ≡ some d')
        × (ranges d'.nodes ≡ ranges d.nodes ++ (rd ∷ []))
        × IsList d')
unfolding Added
Added-some d rd none h = absurd h
Added-some d rd (some d') h = (d', (refl, h.0, h.1))
