-- ===== src/Gather/Groups/Gathered.antt =====
-- The groups that are gathered so far, and their pages.
use oxbow.Prelude.{
  ℕ, zero, suc, ◌+◌, ◌*◌, ◌≤◌, ◌<◌, ◌≡◌, ap, ◌∙◌, Bool, true, false, List, [], ◌++◌, append-nil,
  arith, if◌then◌else◌,
}
use oxbow.Gather.Groups.{FileBits}
use oxbow.Gather.Progress.{dirty_below}
use oxbow.Gather.Groups.Pages.{AreLists, journal_pages, waiting_pages}

-- The dirty pages of the dirty groups below `q`, in order.
unfoldable pub group_pages : (ℕ → Bool) → (ℕ → ℕ → Bool) → ℕ → List ℕ
group_pages groups dirty zero = []
group_pages groups dirty (suc q) =
    group_pages groups dirty q ++ (if groups q then dirty_below (q * 8192) (dirty q) 8192 else [])

-- The groups below `q` are gathered, those from `q` on are as they were in file `f0`.
pub record GatheredUpTo (df_id : ℕ) (f0 : FileBits) (q : ℕ) (f : FileBits) : Type 0 where
  pub lists : AreLists df_id f.inode
  pub journal : journal_pages f.inode ≡ journal_pages f0.inode ++ group_pages f0.dg_bmap f0.dirty q
  pub waiting :
      waiting_pages df_id f.inode
      ≡ waiting_pages df_id f0.inode ++ group_pages f0.dg_bmap f0.dirty q
  pub done_before : (r : ℕ) → r < q → f.dg_bmap r ≡ false
  pub clean_before : (r p : ℕ) → r < q → f0.dg_bmap r ≡ true → p < 8192 → f.dirty r p ≡ false
  pub groups_later : (r : ℕ) → q ≤ r → f.dg_bmap r ≡ f0.dg_bmap r
  pub dirty_later : (r : ℕ) → q ≤ r → f.dirty r ≡ f0.dirty r
  pub lock_later : (r : ℕ) → q ≤ r → f.lock r ≡ f0.lock r

pub group_pages-clean :
    (g : ℕ → Bool) (d : ℕ → ℕ → Bool) (q : ℕ)
    → g q ≡ false
    → group_pages g d (q + 1) ≡ group_pages g d q
unfolding group_pages
group_pages-clean g d q clean =
    ap (group_pages g d) {x = q + 1} {y = suc q} (omega arith)
    ∙ ap (λ b. group_pages g d q ++ (if b then dirty_below (q * 8192) (d q) 8192 else [])) clean
    ∙ append-nil _

pub group_pages-dirty :
    (g : ℕ → Bool) (d : ℕ → ℕ → Bool) (q : ℕ)
    → g q ≡ true
    → group_pages g d (q + 1) ≡ group_pages g d q ++ dirty_below (q * 8192) (d q) 8192
unfolding group_pages
group_pages-dirty g d q dirty =
    ap (group_pages g d) {x = q + 1} {y = suc q} (omega arith)
    ∙ ap (λ b. group_pages g d q ++ (if b then dirty_below (q * 8192) (d q) 8192 else [])) dirty
