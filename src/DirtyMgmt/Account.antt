-- ===== src/DirtyMgmt/Account.antt =====
-- What a process adds to the shared counter, and takes back.
use oxbow.Prelude.{
  ℕ, ◌+◌, ◌*◌, ◌/◌, ◌%◌, ◌≤◌, ◌<◌, ◌≡◌, refl, inl, inr, List, [], ◌∷◌, leb, if◌then◌else◌,
  Bool-cases, u64, add64, sub64,
}
use oxbow.DirtyMgmt.{Counters, increment_dirty_page_count}

pub increment-count :
    (c : Counters) (n : ℕ) → (increment_dirty_page_count c n).proc.count ≡ (c.proc.count + n) % u64
unfolding increment_dirty_page_count
increment-count c n =
    let cur = add64 c.proc.count n in
    let prev = c.proc.prev_count in
    elim (Bool-cases (leb 1024 (if leb prev cur then sub64 cur prev else 0))) [
      | inl enough ↦ rw enough refl
      | inr few ↦ rw few refl
    ]

-- One call of `increment_dirty_page_count` for each element.
pub run : Counters → List ℕ → Counters
run c [] = c
run c (n ∷ ns) = run (increment_dirty_page_count c n) ns

unfoldable pub total : List ℕ → ℕ
total [] = 0
total (n ∷ ns) = n + total ns

-- Fewer than 1024 pages were counted since the last update, and the shared counter exceeds the `g` pages
-- of others by at most the multiples of 1024 in the count at that update, and by at least half of it.
pub record IsAccounted (g : ℕ) (c : Counters) : Type 0 where
  pub behind : c.proc.prev_count ≤ c.proc.count
  pub close : c.proc.count < c.proc.prev_count + 1024
  pub from : g ≤ c.global.count
  pub half : g + g + c.proc.prev_count ≤ c.global.count + c.global.count
  pub upto : c.global.count ≤ g + c.proc.prev_count / 1024 * 1024
