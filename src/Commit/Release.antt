-- ===== src/Commit/Release.antt =====
-- The end of a checkpoint among the steps of the other threads: `increase_journal_sb_tx_id` and
-- `free_journal_space` at the end of `do_checkpoint` in oxbow/devfs/src/journal.c.
use oxbow.Prelude.{◌+◌, ◌%◌, ◌≡◌, ap, ◌∙◌, false, some, List, ◌∷◌, u32}
use mathlib.Core.Path.{subst}
use oxbow.Commit.{Always, done, CkptEntry, Server, release_entry}
use oxbow.JournalLog.Alloc.{IsValid}
use oxbow.Commit.Order.{IsOrdered, IsRunning, TakesFirst, release_entry-TakesFirst}
use oxbow.Commit.Tiles.{Tiled, release_entry-releases}

-- When the transactions are in order, that of the entry which is being checkpointed in front, and the entry
-- lies first in its log, which is valid and tiled by it and `l`, the end of the checkpoint comes about: it
-- finds the entry's transaction in the superblock, so that the mismatch is not logged, and leaves the
-- transactions in order, with the superblock at the next one, whatever other threads did since the entry was
-- taken off the list.
pub release_entry_in_turn :
    (s : Server) (ce : CkptEntry) (l : List CkptEntry)
    → IsRunning s (some ce)
    → IsValid (s.logs ce.df_id)
    → Tiled (s.logs ce.df_id) (ce ∷ l)
    → (s' : Server) × (release_entry s ce ≡ done (s', false, ce))
      × IsOrdered s'
      × (ce.tx_id ≡ s.sb_tx_id)
      × (s'.sb_tx_id ≡ (s.sb_tx_id + 1) % u32)
release_entry_in_turn s ce l running v h =
    let r = release_entry-releases s ce l v h in
    let first =
      subst (Always (TakesFirst (record s { g_ckpt_list = ce ∷ s.g_ckpt_list }))) (r.2)
        (release_entry-TakesFirst s ce running) in
    (
      r.0,
      r.2 ∙ ap (λ b. done (r.0, b, ce)) (first.1),
      first.0,
      first.2,
      r.7 ∙ ap (λ t. (t + 1) % u32) (first.2),
    )
