-- ===== src/RangeDirty/Chain.antt =====
-- Chains in which only the last node may have room.
use oxbow.Prelude.{
  ℕ, ◌+◌, ◌%◌, ◌≤◌, ◌<◌, ◌≡◌, sym, ap, ◌∙◌, inl, inr, true, Option, none, some, List, [], ◌∷◌, ◌++◌,
  append_assoc, arith, ◌==◌, Bool-cases, length, length-append, u32, add32,
}
use oxbow.RangeDirty.{
  RangeDirty, Ird, ird_count, alloc_next_ird, shifted, at_second, get_next_ird, put_range,
}

unfoldable pub ranges : List Ird → List RangeDirty
ranges [] = []
ranges (ird ∷ l) = ird.dirty_pages ++ ranges l

unfoldable pub blocks : List RangeDirty → ℕ
blocks [] = 0
blocks (rd ∷ l) = rd.nr + blocks l

-- A node's counter is the number of blocks of its ranges, which are not too many for it.
abbrev pub IsNode : Ird → Type 0
IsNode ird = (length ird.dirty_pages ≤ 340) × (ird.dirty_blk_nr ≡ blocks ird.dirty_pages % u32)

unfoldable pub IsChain : List Ird → Type 0
IsChain [] = ⊥
IsChain (ird ∷ []) = IsNode ird
IsChain (ird ∷ next ∷ l) = IsNode ird × (length ird.dirty_pages ≡ 340) × IsChain (next ∷ l)

pub blocks-append : (k l : List RangeDirty) → blocks (k ++ l) ≡ blocks k + blocks l
unfolding blocks
blocks-append [] l = omega arith
blocks-append (rd ∷ k) l = omega (arith, blocks-append k l)

IsNode-with :
    (ird : Ird) (rd : RangeDirty)
    → IsNode ird
    → length ird.dirty_pages < 340
    → IsNode (record {
      dirty_pages = ird.dirty_pages ++ (rd ∷ []);
      dirty_blk_nr = add32 ird.dirty_blk_nr rd.nr;
    })
unfolding blocks
IsNode-with ird rd h room = (
  omega (arith, length-append ird.dirty_pages (rd ∷ [])),
  omega (arith, h.1, blocks-append ird.dirty_pages (rd ∷ [])),
)

-- What the search and the write find: the ranges with one more, in a chain, at a position of it.
unfoldable pub Appended : List Ird → RangeDirty → Option (List Ird × ℕ) → Type 0
Appended l rd none = ⊥
Appended l rd (some (k, i)) =
    (ranges (put_range k i rd) ≡ ranges l ++ (rd ∷ []))
    × IsChain (put_range k i rd)
    × (i < length k)

pub cons-IsChain :
    (ird : Ird) (l : List Ird)
    → IsNode ird
    → length ird.dirty_pages ≡ 340
    → IsChain l
    → IsChain (ird ∷ l)
unfolding IsChain
cons-IsChain ird [] node full h = node
cons-IsChain ird (next ∷ l) node full h = (node, full, h)

behind :
    (ird : Ird) (l : List Ird) (rd : RangeDirty)
    → IsNode ird
    → length ird.dirty_pages ≡ 340
    → (o : Option (List Ird × ℕ)) → Appended l rd o
    → Appended (ird ∷ l) rd (shifted ird o)
unfolding Appended shifted ranges put_range
behind ird l rd node full none h = h
behind ird l rd node full (some (k, i)) h = (
  ap (λ x. ird.dirty_pages ++ x) h.0 ∙ sym (append_assoc ird.dirty_pages (ranges l) (rd ∷ [])),
  cons-IsChain ird (put_range k i rd) node full h.1,
  omega (arith, h.2),
)

pub get_next_ird_lem :
    (l : List Ird) (rd : RangeDirty) → IsChain l → Appended l rd (get_next_ird true l)
unfolding get_next_ird alloc_next_ird at_second shifted Appended ranges put_range IsChain blocks
get_next_ird_lem [] rd h = absurd h
get_next_ird_lem (ird ∷ []) rd h = elim (Bool-cases (ird_count ird == 340)) [
  | inl full ↦ rw full (
    sym (append_assoc ird.dirty_pages [] _),
    (h, ground (arith, full), (omega arith, omega arith)),
    omega arith,
  )
  | inr room ↦ rw room (
    append_assoc ird.dirty_pages (rd ∷ []) [] ∙ sym (append_assoc ird.dirty_pages [] (rd ∷ [])),
    IsNode-with ird rd h (ground (arith, room, h.0)),
    omega arith,
  )
]
get_next_ird_lem (ird ∷ next ∷ l) rd (node, full, rest) =
    let e : (ird_count ird == 340) ≡ true = ground (arith, full) in
    rw e (
      behind ird (next ∷ l) rd node full (get_next_ird true (next ∷ l))
        (get_next_ird_lem (next ∷ l) rd rest))
