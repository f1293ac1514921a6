-- ===== src/Commit/Tiles.antt =====
-- The entries of the checkpoint list lie in the log one behind the other, from its tail to its head.
use oxbow.Prelude.{
  ℕ, ◌+◌, ◌-◌, ◌*◌, ◌%◌, ◌≤◌, ◌<◌, ◌≡◌, ◌≢◌, refl, sym, ap, ◌∙◌, Bool, true, not, some, List, [],
  ◌∷◌, ◌++◌, arith, ◌==◌, update, update_self, update-ne, u32,
}
use native.Mathlib.Nat.{mod-eq_of_lt, mod-add-mod, mod-mod}
use mathlib.Core.Path.{subst}
use oxbow.Commit.{
  done, and_then, CkptEntry, Server, PendingTx, CommitReq, prepare_tx, increase_journal_sb_tx_id,
  asserted, release_entry, synced_start,
}
use oxbow.JournalLog.{JournalLog, bytes_to_nblks, free_journal_space}
use oxbow.JournalLog.Refine.{free_journal_space-released}
use oxbow.JournalLog.Alloc.{
  size_of, used_of, IsValid, live, blocks_from, released, tail-released, used-released,
  released-IsValid, live-released,
}
use oxbow.Commit.Prepare.{LaidOut, prepare_tx_lays_out}
use oxbow.Commit.Layout.{tx_blks, IsRequest, Fetched}

-- The entries cover `used` blocks from position `off` on, in order and without gaps.
unfoldable pub TilesFrom : ℕ → ℕ → ℕ → List CkptEntry → ℕ → Type 0
TilesFrom first size off [] used = used ≡ 0
TilesFrom first size off (ce ∷ l) used =
    let n = bytes_to_nblks ce.total_tx_size in
    (ce.j_start_baddr ≡ first + off % size)
    × (ce.total_tx_size % 4096 ≡ 0)
    × (n ≤ used)
    × TilesFrom first size (off + n) l (used - n)

-- The entries of one log are all that is in use.
unfoldable pub Tiled : JournalLog → List CkptEntry → Type 0
Tiled j l = TilesFrom j.first (size_of j) (j.tail - j.first) l (used_of j)

module _ (first size : ℕ) where
  TilesFrom-mod :
      (l : List CkptEntry) (off off' used : ℕ)
      → off % size ≡ off' % size
      → TilesFrom first size off l used
      → TilesFrom first size off' l used
  unfolding TilesFrom
  TilesFrom-mod [] off off' used e h = h
  TilesFrom-mod (ce ∷ l) off off' used e h =
      let n = bytes_to_nblks ce.total_tx_size in
      let later : (off + n) % size ≡ (off' + n) % size =
        sym (mod-add-mod off size n) ∙ ap (λ k. (k + n) % size) e ∙ mod-add-mod off' size n in
      (
        h.0 ∙ ap (λ k. first + k) e,
        h.1,
        h.2,
        TilesFrom-mod l (off + n) (off' + n) (used - n) later h.3,
      )

  TilesFrom-append :
      (l : List CkptEntry) (off used n : ℕ) (ce : CkptEntry)
      → TilesFrom first size off l used
      → ce.j_start_baddr ≡ first + (off + used) % size
      → ce.total_tx_size ≡ 4096 * n
      → n < u32
      → TilesFrom first size off (l ++ (ce ∷ [])) (used + n)
  unfolding TilesFrom
  TilesFrom-append [] off used n ce h at bytes small = (
    at ∙ ap (λ k. first + k % size) {y = off} (omega arith),
    omega arith,
    omega arith,
    omega arith,
  )
  TilesFrom-append (c ∷ l) off used n ce h at bytes small =
      let m = bytes_to_nblks c.total_tx_size in
      let le = h.2 in
      (
        h.0,
        h.1,
        omega arith,
        subst (λ k. TilesFrom first size (off + m) (l ++ (ce ∷ [])) k) (omega arith)
            (TilesFrom-append l (off + m) (used - m) n ce h.3
              (at ∙ ap (λ k. first + k % size) (omega arith)) bytes small),
      )

LaidOut-Tiled :
    {s : Server} {r : CommitReq} {s' : Server} {p : PendingTx} (l : List CkptEntry)
    → IsValid (s.logs r.df_id)
    → LaidOut s r s' p
    → Tiled (s.logs r.df_id) l
    → Tiled (s'.logs r.df_id) (l ++ (p.ce ∷ []))
unfolding Tiled
LaidOut-Tiled {s} {r} {s'} {p} l v laid h =
    let j = s.logs r.df_id in
    let (f, e, t) = laid.unmoved in
    let here =
      TilesFrom-append j.first (size_of j) l (j.tail - j.first) (used_of j) (tx_blks r) p.ce h
        (laid.entry_start ∙ omega (arith, v.linked, v.head_in.0)) laid.entry_size laid.entry_blks in
    rw laid.used (rw f (rw e (rw t here)))

-- On a valid log that leaves out block 0 and whose blocks in use are tiled by the entries `l`, with room for
-- the whole transaction of a request that has a buffer and metadata and whose sizes are whole blocks, its data
-- written and memory for its checkpoint entry, `persist_meta_and_commit` reaches the gate with the blocks in use, those of the transaction among them, tiled by `l` and the
-- transaction's entry.
pub prepare_tx-Tiled :
    (s : Server) (r : CommitReq) (l : List CkptEntry)
    → IsValid (s.logs r.df_id)
    → 0 < (s.logs r.df_id).first
    → IsRequest (s.logs r.df_id) r
    → Fetched (s.logs r.df_id) (s.g_fetch_ctx r.df_id) r
    → r.ce_allocated ≡ true
    → Tiled (s.logs r.df_id) l
    → (s' : Server) × (p : PendingTx) × (prepare_tx s r ≡ done (s', some p))
      × IsValid (s'.logs r.df_id)
      × (used_of (s'.logs r.df_id) ≡ used_of (s.logs r.df_id) + tx_blks r)
      × Tiled (s'.logs r.df_id) (l ++ (p.ce ∷ []))
prepare_tx-Tiled s r l v positive q fetched gets_entry h =
    let (s', p, e, laid) = prepare_tx_lays_out s r v positive q fetched gets_entry in
    (s', p, e, laid.valid, laid.used, LaidOut-Tiled l v laid h)

-- The end of the checkpoint of an entry that lies first in its log, which is valid and tiled by it and `l`,
-- releases exactly the entry's blocks: those in use are its blocks and then what stays in use, and the log
-- stays valid and tiled by `l`. The superblock names the transaction behind the entry's and the new tail; the
-- checkpoint list and the other logs stay.
pub release_entry-releases :
    (s : Server) (ce : CkptEntry) (l : List CkptEntry)
    → IsValid (s.logs ce.df_id)
    → Tiled (s.logs ce.df_id) (ce ∷ l)
    → (s' : Server) × (warned : Bool) × (release_entry s ce ≡ done (s', warned, ce))
      × (live (s.logs ce.df_id)
          ≡ blocks_from (s.logs ce.df_id) ce.j_start_baddr (bytes_to_nblks ce.total_tx_size)
            ++ live (s'.logs ce.df_id))
      × IsValid (s'.logs ce.df_id)
      × Tiled (s'.logs ce.df_id) l
      × (s'.sb_start ≡ (s'.logs ce.df_id).tail)
      × (s'.sb_tx_id ≡ (ce.tx_id + 1) % u32)
      × (s'.g_ckpt_list ≡ s.g_ckpt_list)
      × ((k : ℕ) → ce.df_id ≢ k → s'.logs k ≡ s.logs k)
unfolding Tiled TilesFrom release_entry asserted synced_start increase_journal_sb_tx_id and_then
release_entry-releases s ce l v h =
    let j = s.logs ce.df_id in
    let n = bytes_to_nblks ce.total_tx_size in
    let (at, aligned, held, rest) = h in
    let oldest : ce.j_start_baddr ≡ j.tail =
      at
      ∙ ap (λ k. j.first + k)
          (mod-eq_of_lt {n = j.tail - j.first} (omega (arith, v.tail_in.0, v.tail_in.1)))
      ∙ omega (arith, v.tail_in.0) in
    let freed =
      ap (λ b. free_journal_space j b ce.total_tx_size true) oldest
      ∙ free_journal_space-released j ce.total_tx_size aligned in
    let here = update_self s.logs ce.df_id (released j n) in
    let tiled =
      TilesFrom-mod j.first (size_of j) l (j.tail - j.first + n) ((released j n).tail - j.first)
        (used_of j - n)
        (sym (mod-mod _ (size_of j)) ∙ ap (λ k. k % size_of j) (sym (tail-released n v held)))
        rest in
    (
      record s {
        logs = update s.logs ce.df_id (released j n);
        sb_tx_id = (ce.tx_id + 1) % u32;
        sb_start = (released j n).tail;
      },
      not (s.sb_tx_id == ce.tx_id),
      rw freed refl,
      live-released n v held ∙ rw oldest (rw here refl),
      rw here (released-IsValid n v held),
      rw here (rw (used-released n v held) tiled),
      rw here refl,
      refl,
      refl,
      λ k other. update-ne s.logs ce.df_id k (released j n) other,
    )
