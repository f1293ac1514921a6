-- ===== src/JournalLog/Alloc.antt =====
-- Allocation and release of journal space refine a queue of block addresses.
use oxbow.Prelude.{
  Distinct, ℕ, ◌+◌, ◌-◌, ◌%◌, ◌≤◌, ◌<◌, ◌≡◌, sym, ap, ◌∙◌, none, some, List, ◌++◌, arith, u64, u32,
  add64, sub64,
}
use native.Mathlib.Nat.{mod-add-mod, add_assoc}
use oxbow.JournalLog.{JournalLog, bytes_to_nblks, advance, alloc_journal_space}
use oxbow.JournalLog.Window.{window, window-Distinct, window-append, window-mod}
use oxbow.JournalLog.Advance.{area, advance_lem, advance_in_area}

abbrev pub size_of : JournalLog → ℕ
size_of j = area j.first j.last

abbrev pub used_of : JournalLog → ℕ
used_of j = size_of j - j.n_free_blks

-- The pointers lie in the area, and the head is the tail advanced by the blocks in use. The
-- area is small enough for the 32-bit counter and for 64-bit addresses.
pub record IsValid (j : JournalLog) : Type 0 where
  pub ordered : j.first ≤ j.last
  pub head_in : (j.first ≤ j.head) × (j.head ≤ j.last)
  pub tail_in : (j.first ≤ j.tail) × (j.tail ≤ j.last)
  pub free_in : j.n_free_blks ≤ size_of j
  pub counted : size_of j < u32
  pub addressed : j.last + size_of j < u64
  pub linked : j.head - j.first ≡ (j.tail - j.first + used_of j) % size_of j

-- The blocks in use, oldest first.
abbrev pub live : JournalLog → List ℕ
live j = window j.first (size_of j) (j.tail - j.first) (used_of j)

-- The blocks from address `start` on, round the area.
abbrev pub blocks_from : JournalLog → ℕ → ℕ → List ℕ
blocks_from j start n = window j.first (size_of j) (start - j.first) n

pub live-Distinct : {j : JournalLog} → IsValid j → Distinct (live j)
live-Distinct {j} v =
    window-Distinct j.first (size_of j) (j.tail - j.first) (used_of j) (omega arith)

-- Taking `n` free blocks from the head, what `alloc_journal_space` and `update_log_state` do.
abbrev pub taken : JournalLog → ℕ → JournalLog
taken j n = record j { head = advance j.first j.last j.head n; n_free_blks = sub64 j.n_free_blks n }

module _ {j : JournalLog} (n : ℕ) (v : IsValid j) (fits : n ≤ j.n_free_blks) where
  pub free-taken : (taken j n).n_free_blks ≡ j.n_free_blks - n
  free-taken = omega arith

  pub head-advanced : (taken j n).head - j.first ≡ (j.head - j.first + n) % size_of j
  head-advanced = omega (
    arith,
    advance_lem j.first j.last j.head n v.head_in.0 v.head_in.1 (omega arith) (omega arith),
  )

  pub head-taken : (taken j n).head - j.first ≡ (j.tail - j.first + (used_of j + n)) % size_of j
  head-taken =
      head-advanced
      ∙ ap (λ k. (k + n) % size_of j) v.linked
      ∙ mod-add-mod (j.tail - j.first + used_of j) (size_of j) n
      ∙ ap (λ k. k % size_of j) (add_assoc (j.tail - j.first) (used_of j) n)

  pub taken-IsValid : IsValid (taken j n)
  taken-IsValid = record {
    ordered = v.ordered;
    head_in =
        advance_in_area j.first j.last j.head n v.head_in.0 v.head_in.1 (omega arith) (omega arith);
    tail_in = v.tail_in;
    free_in = omega (arith, free-taken);
    counted = v.counted;
    addressed = v.addressed;
    linked = head-taken ∙ ap (λ k. (j.tail - j.first + k) % size_of j) (omega arith);
  }

  pub live-taken : live (taken j n) ≡ live j ++ blocks_from j j.head n
  live-taken =
      ap (λ k. window j.first (size_of j) (j.tail - j.first) k) (omega arith)
      ∙ window-append j.first (size_of j) (j.tail - j.first) (used_of j) n
      ∙ ap (λ l. live j ++ l)
          (sym (window-mod j.first (size_of j) (j.tail - j.first + used_of j) n)
            ∙ ap (λ o. window j.first (size_of j) o n) (sym v.linked))

-- What `free_journal_space` does to a log that has at least `n` blocks in use.
abbrev pub released : JournalLog → ℕ → JournalLog
released j n = record j {
  tail = advance j.first j.last j.tail n;
  n_free_blks = add64 j.n_free_blks n;
}

module _ {j : JournalLog} (n : ℕ) (v : IsValid j) (held : n ≤ used_of j) where
  pub tail-released : (released j n).tail - j.first ≡ (j.tail - j.first + n) % size_of j
  tail-released = omega (
    arith,
    advance_lem j.first j.last j.tail n v.tail_in.0 v.tail_in.1 (omega arith) (omega arith),
  )

  pub used-released : used_of (released j n) ≡ used_of j - n
  used-released = omega arith

  pub released-IsValid : IsValid (released j n)
  released-IsValid = record {
    ordered = v.ordered;
    head_in = v.head_in;
    tail_in =
        advance_in_area j.first j.last j.tail n v.tail_in.0 v.tail_in.1 (omega arith) (omega arith);
    free_in = omega arith;
    counted = v.counted;
    addressed = v.addressed;
    linked =
        v.linked
        ∙ ap (λ k. k % size_of j) (omega (arith, used-released))
        ∙ sym (mod-add-mod (j.tail - j.first + n) (size_of j) (used_of (released j n)))
        ∙ ap (λ k. (k + used_of (released j n)) % size_of j) (sym tail-released);
  }

  pub live-released : live j ≡ blocks_from j j.tail n ++ live (released j n)
  live-released =
      ap (λ k. window j.first (size_of j) (j.tail - j.first) k) (omega (arith, used-released))
      ∙ window-append j.first (size_of j) (j.tail - j.first) n (used_of (released j n))
      ∙ ap (λ l. blocks_from j j.tail n ++ l)
          (sym (window-mod j.first (size_of j) (j.tail - j.first + n) (used_of (released j n)))
            ∙ ap (λ o. window j.first (size_of j) o (used_of (released j n))) (sym tail-released))

module _ (j : JournalLog) (size : ℕ) where
  pub alloc-some :
      size % 4096 ≡ 0
      → bytes_to_nblks size ≤ j.n_free_blks
      → size_of j < u32
      → j.n_free_blks ≤ size_of j
      → alloc_journal_space j size ≡ some (j.head, taken j (bytes_to_nblks size))
  unfolding alloc_journal_space
  alloc-some aligned room counted free = ground arith

  pub alloc-none : j.n_free_blks < bytes_to_nblks size → alloc_journal_space j size ≡ none
  unfolding alloc_journal_space
  alloc-none h = ground arith
