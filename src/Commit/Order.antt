-- ===== src/Commit/Order.antt =====
-- Commits and checkpoints happen in the order of the transaction ids, whatever the threads do.
use oxbow.Prelude.{
  ℕ, ◌+◌, ◌%◌, ◌≤◌, ◌<◌, ◌≡◌, refl, sym, ap, ap₂, ◌∙◌, ◌≢◌, ◌⊎◌, inl, inr, Bool, true, false, ◌||◌,
  not, Option, none, some, List, [], ◌∷◌, ◌++◌, arith, ltb, ◌==◌, if◌then◌else◌, Bool-cases, update,
  u32,
}
use mathlib.Core.Path.{subst}
use mathlib.Core.Option.{some-injective}
use oxbow.Commit.{
  Outcome, blocked, aborted, done, and_then, Always, CkptEntry, Server, PendingTx,
  ckpt_list_enqueue, commit_turn, mark_ready, ckpt_list_dequeue, prepare_ckpt,
  increase_journal_sb_tx_id, CommitReq, prepare_tx, release_entry, synced_start,
}
use oxbow.JournalLog.{journal_free_percent, JournalLog}

none-ne-some : {x : CkptEntry} → ◌≡◌ {A = Option CkptEntry} none (some x) → ⊥
none-ne-some h = cc

and_then-Always :
    {A B : Type 0} (P : B → Type 0) (o : Outcome A) (k : A → Outcome B)
    → ((a : A) → Always P (k a))
    → Always P (and_then o k)
unfolding and_then
and_then-Always P blocked k h = tt
and_then-Always P aborted k h = tt
and_then-Always P (done a) k h = h a

-- The entries are those of the transactions `t`, `t + 1`, …, `n`, in this order.
unfoldable pub Consecutive : ℕ → List CkptEntry → ℕ → Type 0
Consecutive t [] n = t ≡ n + 1
Consecutive t (ce ∷ l) n = (ce.tx_id ≡ t) × Consecutive (t + 1) l n

-- Nothing is committed yet, or the checkpoint list holds the transactions from that of the superblock
-- to the last committed one.
unfoldable pub IsOrdered : Server → Type 0
IsOrdered s =
    ((s.g_tx_seqn ≡ 0) × (s.sb_tx_id ≡ 0) × (s.g_ckpt_list ≡ []))
    ⊎ ((0 < s.g_tx_seqn)
        × (s.g_tx_seqn + 1 < u32)
        × (0 < s.sb_tx_id)
        × Consecutive s.sb_tx_id s.g_ckpt_list s.g_tx_seqn)

Consecutive-append :
    (l : List CkptEntry) (t n : ℕ) (ce : CkptEntry)
    → Consecutive t l n
    → ce.tx_id ≡ n + 1
    → Consecutive t (l ++ (ce ∷ [])) (n + 1)
unfolding Consecutive
Consecutive-append [] t n ce h e = (omega arith, omega arith)
Consecutive-append (c ∷ l) t n ce h e = (h.0, Consecutive-append l (t + 1) n ce h.1 e)

Consecutive-mark_ready :
    (l : List CkptEntry) (t n id : ℕ) → Consecutive t l n → Consecutive t (mark_ready id l) n
unfolding Consecutive mark_ready
Consecutive-mark_ready [] t n id h = h
Consecutive-mark_ready (ce ∷ l) t n id h =
    (kept (ce.tx_id == id), Consecutive-mark_ready l (t + 1) n id h.1)
  where
    kept : (b : Bool) → (if b then record ce { ready = true } else ce).tx_id ≡ t
    kept true = h.0
    kept false = h.0

-- The id of a transaction is positive and 32-bit, and so is its successor.
abbrev pub IsTxId : ℕ → Type 0
IsTxId n = (0 < n) × (n + 1 < u32)

-- Whatever the state of the other threads, a commit keeps the transactions in order.
pub commit_turn-IsOrdered :
    (s : Server) (p : PendingTx)
    → IsTxId p.ce.tx_id
    → IsOrdered s
    → Always IsOrdered (commit_turn s p)
unfolding IsOrdered commit_turn ckpt_list_enqueue Consecutive
commit_turn-IsOrdered s p id (inl (e, z, l)) =
    rw e (rw z (rw l (inr (id.0, id.1, id.0, (refl, refl)))))
commit_turn-IsOrdered s p id (inr (pos, small, sb, c)) =
    let started : (s.g_tx_seqn == 0) ≡ false = ground arith in
    let numbered : (s.sb_tx_id == 0) ≡ false = ground arith in
    elim (Bool-cases (p.ce.tx_id == (s.g_tx_seqn + 1) % u32)) [
      | inl turn ↦
          let next : p.ce.tx_id ≡ s.g_tx_seqn + 1 = ground arith in
          rw started (
            rw turn (
              rw numbered (
                inr (
                  id.0,
                  id.1,
                  sb,
                  subst (λ n. Consecutive s.sb_tx_id (s.g_ckpt_list ++ (p.ce ∷ [])) n) (sym next)
                      (Consecutive-append s.g_ckpt_list s.sb_tx_id s.g_tx_seqn p.ce c next),
                ))))
      | inr wait ↦ rw started (rw wait tt)
    ]

-- A finished preparation keeps the transactions in order.
pub prepare_ckpt-IsOrdered :
    (s : Server) (ce : CkptEntry) → IsOrdered s → Always IsOrdered (prepare_ckpt s ce)
unfolding IsOrdered prepare_ckpt mark_ready
prepare_ckpt-IsOrdered s ce h = elim (Bool-cases (ltb (journal_free_percent (s.logs ce.df_id)) 2)) [
  | inl low ↦ rw low tt
  | inr enough ↦ rw enough (elim h [
    | inl (e, z, l) ↦ inl (e, z, ap (mark_ready ce.tx_id) l)
    | inr (pos, small, sb, c) ↦
        inr (pos, small, sb, Consecutive-mark_ready s.g_ckpt_list s.sb_tx_id s.g_tx_seqn ce.tx_id c)
  ])
]

Consecutive-le : (l : List CkptEntry) (t n : ℕ) → Consecutive t l n → t ≤ n + 1
unfolding Consecutive
Consecutive-le [] t n h = omega arith
Consecutive-le (ce ∷ l) t n h = omega (arith, Consecutive-le l (t + 1) n h.1)

-- The transactions are in order, no mismatch was logged, and the entry is that of the superblock.
abbrev pub TakesFirst : Server → Server × Bool × CkptEntry → Type 0
TakesFirst s (s', warned, ce) = IsOrdered s' × (warned ≡ false) × (ce.tx_id ≡ s.sb_tx_id)

module _ (s : Server) (ce : CkptEntry) (l : List CkptEntry) where
  abbrev taken_off : Server
  taken_off = record s { g_ckpt_list = l }

  release_entry-Always :
      ce.tx_id ≡ s.sb_tx_id
      → IsOrdered (record taken_off { sb_tx_id = (ce.tx_id + 1) % u32 })
      → Always (TakesFirst s) (release_entry taken_off ce)
  unfolding IsOrdered release_entry increase_journal_sb_tx_id
  release_entry-Always first ordered =
      let matches : (s.sb_tx_id == ce.tx_id) ≡ true = ground (arith, first) in
      let next = (ce.tx_id + 1) % u32 in
      let kept : (r : Option ℕ × JournalLog)
          → TakesFirst s (
            record taken_off {
              logs = update s.logs ce.df_id r.1;
              sb_tx_id = next;
              sb_start = synced_start s.sb_start r.0;
            },
            not (s.sb_tx_id == ce.tx_id),
            ce,
          ) =
        λ r. (ordered, ap not matches, first) in
      and_then-Always (TakesFirst s) _ _ kept

  -- The first entry is released behind the others' steps.
  release_entry-IsOrdered :
      IsOrdered (record s { g_ckpt_list = ce ∷ l })
      → Always (TakesFirst s) (release_entry taken_off ce)
  unfolding IsOrdered Consecutive
  release_entry-IsOrdered (inl (e, z, empty)) = absurd (ground (arith, empty))
  release_entry-IsOrdered (inr (pos, small, sb, (first, later))) =
      let next : s.sb_tx_id + 1 ≡ (ce.tx_id + 1) % u32 =
        omega (arith, first, Consecutive-le l (s.sb_tx_id + 1) s.g_tx_seqn later) in
      release_entry-Always first (
        inr (
          pos,
          small,
          omega (arith, next),
          subst (λ t. Consecutive t l s.g_tx_seqn) (omega (arith, next)) later,
        ))

-- After the first commit, the waiting thread whose turn it is goes on: the transaction behind the
-- last committed one is never blocked, and any other is.
commit_turn-turn :
    (s : Server) (p : PendingTx)
    → 0 < s.g_tx_seqn
    → s.g_tx_seqn + 1 < u32
    → (p.ce.tx_id ≡ s.g_tx_seqn + 1
        → (s' : Server) × (commit_turn s p ≡ done s') × (s'.g_tx_seqn ≡ s.g_tx_seqn + 1))
      × (p.ce.tx_id ≢ s.g_tx_seqn + 1 → commit_turn s p ≡ blocked)
unfolding commit_turn
commit_turn-turn s p pos small =
    let started : (s.g_tx_seqn == 0) ≡ false = ground arith in
    (
      λ next.
          let turn : (p.ce.tx_id == (s.g_tx_seqn + 1) % u32) ≡ true = ground arith in
          rw started (rw turn (_, refl, next)),
      λ other.
          let wait : (p.ce.tx_id == (s.g_tx_seqn + 1) % u32) ≡ false = ground arith in
          rw started (rw wait refl),
    )

-- The list with the entry that the checkpoint thread has taken off it.
abbrev with_taken : Option CkptEntry → List CkptEntry → List CkptEntry
with_taken none l = l
with_taken (some ce) l = ce ∷ l

-- The transactions are in order, that of the entry which is being checkpointed in front.
abbrev pub IsRunning : Server → Option CkptEntry → Type 0
IsRunning s o = IsOrdered (record s { g_ckpt_list = with_taken o s.g_ckpt_list })

keeps_order :
    (s : Server) (o : Option CkptEntry) (r : CommitReq)
    → IsRunning s o
    → Always (λ (s', p). IsRunning s' o) (prepare_tx s r)
unfolding prepare_tx IsOrdered
keeps_order s o r h = elim (Bool-cases (r.md_size == 0 || r.rdma_buf == 0)) [
  | inl empty ↦ rw empty tt
  | inr full ↦ rw full (
      and_then-Always (λ (s', p). IsRunning s' o) _ _
        (λ d.
          and_then-Always (λ (s', p). IsRunning s' o) _ _
            (λ a. and_then-Always (λ (s', p). IsRunning s' o) _ _ (λ b. h))))
]

done_if :
    {A : Type 0} (P Q : A → Type 0) (b : Bool) (x y : A)
    → (P x → Q y)
    → Always P (if b then done x else blocked)
    → Always Q (if b then done y else blocked)
done_if P Q true x y k h = k h
done_if P Q false x y k h = tt

commit_turn-IsRunning :
    (s : Server) (o : Option CkptEntry) (p : PendingTx)
    → IsTxId p.ce.tx_id
    → IsRunning s o
    → Always (λ s'. IsRunning s' o) (commit_turn s p)
unfolding commit_turn ckpt_list_enqueue
commit_turn-IsRunning s none p id h = commit_turn-IsOrdered s p id h
commit_turn-IsRunning s (some ce) p id h =
    done_if IsOrdered (λ s'. IsRunning s' (some ce)) _ _ _ (λ k. k)
      (commit_turn-IsOrdered (record s { g_ckpt_list = ce ∷ s.g_ckpt_list }) p id h)

prepare_ckpt-IsRunning :
    (s : Server) (o : Option CkptEntry) (ce : CkptEntry)
    → IsRunning s o
    → Always (λ s'. IsRunning s' o) (prepare_ckpt s ce)
unfolding prepare_ckpt IsOrdered Consecutive
prepare_ckpt-IsRunning s none ce h = prepare_ckpt-IsOrdered s ce h
prepare_ckpt-IsRunning s (some c) ce h =
    elim (Bool-cases (ltb (journal_free_percent (s.logs ce.df_id)) 2)) [
      | inl low ↦ rw low tt
      | inr enough ↦ rw enough (elim h [
        | inl (e, z, l) ↦ absurd (ground (arith, l))
        | inr (pos, small, sb, (first, later)) ↦ inr (
          pos,
          small,
          sb,
          (first, Consecutive-mark_ready s.g_ckpt_list (s.sb_tx_id + 1) s.g_tx_seqn ce.tx_id later),
        )
      ])
    ]

-- What the end of a checkpoint returns keeps the order.
pub release_entry-TakesFirst :
    (s : Server) (ce : CkptEntry)
    → IsRunning s (some ce)
    → Always (TakesFirst (record s { g_ckpt_list = ce ∷ s.g_ckpt_list })) (release_entry s ce)
release_entry-TakesFirst s ce h =
    release_entry-IsOrdered (record s { g_ckpt_list = ce ∷ s.g_ckpt_list }) ce s.g_ckpt_list h

ckpt_list_dequeue-some :
    (k l : List CkptEntry) (ce : CkptEntry) → ckpt_list_dequeue k ≡ (some ce, l) → k ≡ ce ∷ l
unfolding ckpt_list_dequeue
ckpt_list_dequeue-some [] l ce e = absurd (none-ne-some (ap (λ q. q.0) e))
ckpt_list_dequeue-some (c ∷ k) l ce e = elim (Bool-cases c.ready) [
  | inr wait ↦ absurd (
      none-ne-some
        (ap (λ q. q.0) (sym (ap (λ b. if b then (some c, k) else (none, c ∷ k)) wait) ∙ e)))
  | inl ready ↦
      let same = sym (ap (λ b. if b then (some c, k) else (none, c ∷ k)) ready) ∙ e in
      ap₂ (λ x y. x ∷ y) (some-injective _ _ (ap (λ q. q.0) same)) (ap (λ q. q.1) same)
]

-- One step of a thread, with the entry that the checkpoint thread has taken off the list: a request reaches
-- the gate, a transaction commits, an entry becomes ready, the checkpoint thread takes the oldest entry, or
-- it releases the one that it has taken, whose data is in place by then.
pub data Step : Server → Option CkptEntry → Server → Option CkptEntry → Type 0 where
  prepares :
      {s s' : Server} {o : Option CkptEntry} (r : CommitReq) (p : Option PendingTx)
      → prepare_tx s r ≡ done (s', p)
      → Step s o s' o
  commits :
      {s s' : Server} {o : Option CkptEntry} (p : PendingTx)
      → IsTxId p.ce.tx_id
      → commit_turn s p ≡ done s'
      → Step s o s' o
  readies :
      {s s' : Server} {o : Option CkptEntry} (ce : CkptEntry)
      → prepare_ckpt s ce ≡ done s'
      → Step s o s' o
  takes :
      {s : Server} (ce : CkptEntry) (l : List CkptEntry)
      → ckpt_list_dequeue s.g_ckpt_list ≡ (some ce, l)
      → Step s none (record s { g_ckpt_list = l }) (some ce)
  releases :
      {s s' : Server} (warned : Bool) (ce ce' : CkptEntry)
      → release_entry s ce ≡ done (s', warned, ce')
      → Step s (some ce) s' none

pub data Steps : Server → Option CkptEntry → Server → Option CkptEntry → Type 0 where
  stop : {s : Server} {o : Option CkptEntry} → Steps s o s o
  step :
      {s s' s'' : Server} {o o' o'' : Option CkptEntry}
      → Steps s o s' o'
      → Step s' o' s'' o''
      → Steps s o s'' o''

Step-IsRunning :
    {s s' : Server} {o o' : Option CkptEntry} → Step s o s' o' → IsRunning s o → IsRunning s' o'
Step-IsRunning (prepares {s} {s'} {o} r p e) h =
    subst (Always (λ (t, q). IsRunning t o)) e (keeps_order s o r h)
Step-IsRunning (commits {s} {s'} {o} p id e) h =
    subst (Always (λ t. IsRunning t o)) e (commit_turn-IsRunning s o p id h)
Step-IsRunning (readies {s} {s'} {o} ce e) h =
    subst (Always (λ t. IsRunning t o)) e (prepare_ckpt-IsRunning s o ce h)
Step-IsRunning (takes {s} ce l e) h =
    subst (λ k. IsOrdered (record s { g_ckpt_list = k })) (ckpt_list_dequeue-some _ l ce e) h
Step-IsRunning (releases {s} {s'} warned ce ce' e) h =
    (subst (Always (TakesFirst (record s { g_ckpt_list = ce ∷ s.g_ckpt_list }))) e
      (release_entry-TakesFirst s ce h)).0

-- However these steps interleave, from a server whose transactions are in order they stay so, when all
-- transaction ids are positive and below 2 ^ 32 - 1: nothing is committed yet, or the entry that is being
-- checkpointed, if there is one, and the checkpoint list behind it hold the transactions from that of the
-- superblock to the last committed one, in the order of their ids.
pub Steps-IsOrdered :
    {s s' : Server} {o o' : Option CkptEntry} → Steps s o s' o' → IsRunning s o → IsRunning s' o'
Steps-IsOrdered stop h = h
Steps-IsOrdered (step steps one) h = Step-IsRunning one (Steps-IsOrdered steps h)
