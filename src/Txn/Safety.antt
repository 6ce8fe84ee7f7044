-- ===== src/Txn/Safety.antt =====
-- Histories of events and the counts of sway/desktop/transaction.c: the freeing of nodes.
use swirl.Prelude.{
  ℕ, ◌<◌, ◌≡◌, arith, Bool, true, false, some, List, [], ◌∷◌, inl, inr, Option-cases, List-cases,
  Bool-cases,
}
use swirl.Prelude.Members.{occurrences}
use swirl.Txn.State.{Instruction, Transaction, Server, Env, node_set_dirty}
use swirl.Txn.Add.{has_node, transaction_create}
use swirl.Txn.Commit.{
  queue, transaction_progress, transaction_commit_pending, transaction_commit_dirty, collect_dirty,
  pending_or_new,
}
use swirl.Txn.Events.{
  Event, changed, dirtied, destroyed, committed, acked_serial, acked_geometry, timed_out, notify,
  notify_by_serial, notify_by_geometry, set_instruction_ready, count_ready, mark_ready, expire,
  handle_timeout, begin_destroy, change, step, run, node_instruction,
}
use swirl.Txn.Refs.{CountedAt, AllCounted, instructions_of, node_set_dirty-Counted}
use swirl.Txn.Counting.{add_nodes-Counted, queued-add_nodes, has_node-refs}
use swirl.Txn.Balance.{progress-AllCounted, queue-AllCounted}

module _ {D : Type 0} where
  commit_pending-AllCounted :
      (env : Env D) (s : Server D) → AllCounted s → AllCounted (transaction_commit_pending env s)
  unfolding transaction_commit_pending transaction_progress
  commit_pending-AllCounted env s v = elim (Option-cases s.queued_transaction) [
    | inr (t, e) ↦ rw (e, transaction_commit_pending) v
    | inl e ↦ elim (Option-cases s.pending_transaction) [
      | inl p ↦ rw (e, p, transaction_commit_pending) v
      | inr (t, p) ↦
          rw (e, p, transaction_commit_pending)
            (progress-AllCounted env 2 (queue env t s) (queue-AllCounted env t s e p v))
    ]
  ]

  collect_dirty-AllCounted :
      (env : Env D) (request : Bool) (t : Transaction D) (s : Server D)
      → env.alloc ≡ true
      → pending_or_new env s ≡ some t
      → AllCounted s
      → AllCounted (collect_dirty env request t s)
  unfolding collect_dirty transaction_create
  collect_dirty-AllCounted env request t s a e v i =
      rw (queued-add_nodes env request s.dirty_nodes t s) (
        add_nodes-Counted env request i s.dirty_nodes (instructions_of s.queued_transaction) t s a
          (rw same at (v i)))
    where
      same : instructions_of s.pending_transaction ≡ t.instructions
      same = ground arith

  commit_dirty-AllCounted :
      (env : Env D) (request : Bool) (s : Server D)
      → env.alloc ≡ true
      → AllCounted s
      → AllCounted (transaction_commit_dirty env request s)
  unfolding transaction_commit_dirty
  commit_dirty-AllCounted env request s a v = elim (List-cases s.dirty_nodes) [
    | inl e ↦ rw (e, transaction_commit_dirty) v
    | inr (k, ks, e) ↦ elim (Option-cases (pending_or_new env s)) [
      | inl p ↦ rw (e, p, transaction_commit_dirty) v
      | inr (t, p) ↦
          rw (e, p, transaction_commit_dirty)
            (commit_pending-AllCounted env (collect_dirty env request t s)
              (collect_dirty-AllCounted env request t s a p v))
    ]
  ]

  mark_ready-AllCounted :
      (t : Transaction D) (ins : Instruction D) (s : Server D)
      → s.queued_transaction ≡ some t
      → AllCounted s
      → AllCounted (mark_ready t ins s)
  unfolding mark_ready count_ready
  mark_ready-AllCounted t ins s e v i = ground (arith, v i)

  handle_timeout-AllCounted :
      (env : Env D) (s : Server D) → AllCounted s → AllCounted (handle_timeout env s)
  unfolding handle_timeout transaction_progress
  handle_timeout-AllCounted env s v = elim (Option-cases s.queued_transaction) [
    | inl e ↦ rw (e, handle_timeout) v
    | inr (t, e) ↦
        rw (e, handle_timeout) (progress-AllCounted env 2 (expire t s) (λ i. rw e at (v i)))
  ]

  -- The instruction that a node points to is one of the queued transaction.
  pub node_instruction-queued :
      (i : ℕ) (s : Server D) {t : Transaction D} {ins : Instruction D}
      → node_instruction i s ≡ some (t, ins)
      → s.queued_transaction ≡ some t
  node_instruction-queued i s e = ground arith

  notify-AllCounted :
      (env : Env D) (i : ℕ) (test : Instruction D → Bool) (s : Server D)
      → AllCounted s
      → AllCounted (notify env i test s).1
  unfolding notify set_instruction_ready transaction_progress
  notify-AllCounted env i test s v = elim (Option-cases (node_instruction i s)) [
    | inl e ↦ rw (e, notify) v
    | inr ((t, ins), e) ↦ elim (Bool-cases (test ins)) [
      | inl accepted ↦
          rw (e, accepted, notify)
            (progress-AllCounted env 2 (mark_ready t ins s)
              (mark_ready-AllCounted t ins s (node_instruction-queued i s e) v))
      | inr refused ↦ rw (e, refused, notify) v
    ]
  ]

  pub node_set_dirty-transactions :
      (k : ℕ) (s : Server D)
      → ((node_set_dirty k s).queued_transaction ≡ s.queued_transaction)
        × ((node_set_dirty k s).pending_transaction ≡ s.pending_transaction)
  unfolding node_set_dirty
  node_set_dirty-transactions k s = ground arith

  begin_destroy-Counted :
      (k i : ℕ) (s : Server D) (q p : List (Instruction D))
      → CountedAt i s.dirty_nodes q p s
      → CountedAt i (begin_destroy k s).dirty_nodes q p (begin_destroy k s)
  unfolding begin_destroy node_set_dirty
  begin_destroy-Counted k i s q p v = ground (arith, node_set_dirty-Counted k i s q p v)

  node_set_dirty-AllCounted :
      (k : ℕ) (s : Server D) → AllCounted s → AllCounted (node_set_dirty k s)
  node_set_dirty-AllCounted k s v i =
      let (q, p) = node_set_dirty-transactions k s in
      rw (q, p) (node_set_dirty-Counted k i s _ _ (v i))

  begin_destroy-AllCounted : (k : ℕ) (s : Server D) → AllCounted s → AllCounted (begin_destroy k s)
  unfolding begin_destroy
  begin_destroy-AllCounted k s v i =
      let (q, p) = node_set_dirty-transactions k s in
      rw (q, p) (begin_destroy-Counted k i s _ _ (v i))

  -- The event's allocations succeed.
  abbrev pub Allocates : Event D → Type 0
  Allocates (committed env request) = env.alloc ≡ true
  Allocates _ = Unit

  step-AllCounted :
      (e : Event D) (s : Server D) → Allocates e → AllCounted s → AllCounted (step e s)
  unfolding step change notify_by_serial notify_by_geometry
  step-AllCounted (changed k thing) s a v = λ i. ground (arith, v i)
  step-AllCounted (dirtied k) s a v = node_set_dirty-AllCounted k s v
  step-AllCounted (destroyed k) s a v = begin_destroy-AllCounted k s v
  step-AllCounted (committed env request) s a v = commit_dirty-AllCounted env request s a v
  step-AllCounted (acked_serial env i serial) s a v = notify-AllCounted env i _ s v
  step-AllCounted (acked_geometry env i x y width height) s a v = notify-AllCounted env i _ s v
  step-AllCounted (timed_out env) s a v = handle_timeout-AllCounted env s v

  abbrev pub AllAllocate : List (Event D) → Type 0
  AllAllocate [] = Unit
  AllAllocate (e ∷ es) = Allocates e × AllAllocate es

  -- If every count of a server is right and no allocation fails, every count is right after any
  -- history of events: `ntxnrefs` of each node is the number of its instructions, of which either
  -- transaction has one at most, a node is in the list of dirty nodes once if it is marked dirty
  -- and not at all otherwise, and a node has been freed once if it is being destroyed, is not dirty
  -- and has no reference, and never otherwise.
  pub run-AllCounted :
      (es : List (Event D)) (s : Server D) → AllAllocate es → AllCounted s → AllCounted (run es s)
  unfolding run
  run-AllCounted [] s a v = v
  run-AllCounted (e ∷ es) s a v = run-AllCounted es (step e s) a.1 (step-AllCounted e s a.0 v)

  -- After any history from a server whose counts are right, no allocation failing, a node that has
  -- been freed has no instruction in the queued or the pending transaction, is not in the list of
  -- dirty nodes, and was freed only once.
  pub freed-unreferenced :
      (es : List (Event D)) (s : Server D) (i : ℕ)
      → AllAllocate es
      → AllCounted s
      → 0 < occurrences i (run es s).freed
      → (has_node i (instructions_of (run es s).queued_transaction) ≡ false)
        × (has_node i (instructions_of (run es s).pending_transaction) ≡ false)
        × (occurrences i (run es s).dirty_nodes ≡ 0)
        × (occurrences i (run es s).freed ≡ 1)
  freed-unreferenced es s i a v h = ground (
    arith,
    run-AllCounted es s a v i,
    has_node-refs i (instructions_of (run es s).queued_transaction),
    has_node-refs i (instructions_of (run es s).pending_transaction),
  )
