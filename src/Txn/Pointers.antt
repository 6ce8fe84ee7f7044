-- ===== src/Txn/Pointers.antt =====
-- The pointers from nodes to instructions of sway/desktop/transaction.c (`node->instruction`), between
-- events.
use swirl.Prelude.{
  ℕ, ◌≡◌, arith, Bool, true, false, ◌||◌, none, some, List, [], ◌∷◌, inl, inr, Option-cases,
  List-cases, Bool-cases,
}
use swirl.Tree.Types.{Thing}
use swirl.Txn.State.{Instruction, Transaction, Server, Env, node_set_dirty}
use swirl.Txn.Commit.{
  transaction_commit, start_timer, finish, queue, progress, transaction_progress,
  transaction_commit_pending, collect_dirty, pending_or_new, transaction_commit_dirty,
}
use swirl.Txn.Refs.{instructions_of}
use swirl.Txn.Counting.{queued-add_nodes}
use swirl.Txn.Safety.{node_instruction-queued}
use swirl.Txn.Events.{
  Event, changed, dirtied, destroyed, committed, acked_serial, acked_geometry, timed_out,
  count_ready, mark_ready, set_instruction_ready, node_instruction, notify, expire,
  notify_by_serial, notify_by_geometry, handle_timeout, begin_destroy, change, step, run,
}
use swirl.Txn.Balance.{progress_rule}
use swirl.Txn.Held.{is_held, finish-is_held, add_nodes-is_held, commit-is_held}

or-false : (b : Bool) → (b || false) ≡ true → b ≡ true
or-false b h = ground arith

module _ {D : Type 0} where
  -- A node with a pointer to an instruction has an instruction in the queued transaction.
  abbrev pub AllHeld : Server D → Type 0
  AllHeld s = (i : ℕ) → is_held i (instructions_of s.queued_transaction) s ≡ true

  -- No node has a pointer to an instruction.
  abbrev NonePoints : Server D → Type 0
  NonePoints s = (i : ℕ) → is_held i [] s ≡ true

  start_timer-instructions :
      (env : Env D) (w : ℕ) (t : Transaction D)
      → (start_timer env w t).instructions ≡ t.instructions
  unfolding start_timer
  start_timer-instructions env w t = ground arith

  queue-AllHeld :
      (env : Env D) (t : Transaction D) (s : Server D) → NonePoints s → AllHeld (queue env t s)
  unfolding queue transaction_commit
  queue-AllHeld env t s v i =
      let s0 = record s { pending_transaction = none } in
      let held = commit-is_held env i t.instructions s0 false (v i) in
      rw (start_timer-instructions env _ _) (or-false _ held)

  progress-AllHeld :
      (env : Env D) (rounds : ℕ) (s : Server D) → AllHeld s → AllHeld (progress env rounds s)
  unfolding finish
  progress-AllHeld env =
      progress_rule AllHeld env (λ t s e w v i. finish-is_held env i t s (rw e at (v i)))
        (λ t s e p v. queue-AllHeld env t s (λ i. rw e at (v i)))

  commit_pending-AllHeld :
      (env : Env D) (s : Server D) → AllHeld s → AllHeld (transaction_commit_pending env s)
  unfolding transaction_commit_pending transaction_progress
  commit_pending-AllHeld env s v = elim (Option-cases s.queued_transaction) [
    | inr (t, e) ↦ rw (e, transaction_commit_pending) v
    | inl e ↦ elim (Option-cases s.pending_transaction) [
      | inl p ↦ rw (e, p, transaction_commit_pending) v
      | inr (t, p) ↦
          rw (e, p, transaction_commit_pending)
            (progress-AllHeld env 2 (queue env t s) (queue-AllHeld env t s (λ i. rw e at (v i))))
    ]
  ]

  commit_dirty-AllHeld :
      (env : Env D) (request : Bool) (s : Server D)
      → AllHeld s
      → AllHeld (transaction_commit_dirty env request s)
  unfolding transaction_commit_dirty collect_dirty
  commit_dirty-AllHeld env request s v = elim (List-cases s.dirty_nodes) [
    | inl e ↦ rw (e, transaction_commit_dirty) v
    | inr (k, ks, e) ↦ elim (Option-cases (pending_or_new env s)) [
      | inl p ↦ rw (e, p, transaction_commit_dirty) v
      | inr (t, p) ↦
          rw (e, p, transaction_commit_dirty)
            (commit_pending-AllHeld env (collect_dirty env request t s) (λ i.
              rw (queued-add_nodes env request s.dirty_nodes t s) (
                add_nodes-is_held env request i s.dirty_nodes (instructions_of s.queued_transaction)
                  t s (v i))))
    ]
  ]

  instructions-count_ready :
      (ins : Instruction D) (t : Transaction D) → (count_ready ins t).instructions ≡ t.instructions
  unfolding count_ready
  instructions-count_ready ins t = ground arith

  mark_ready-AllHeld :
      (t : Transaction D) (ins : Instruction D) (s : Server D)
      → s.queued_transaction ≡ some t
      → AllHeld s
      → AllHeld (mark_ready t ins s)
  unfolding mark_ready
  mark_ready-AllHeld t ins s e v i =
      let h = rw e at (v i) in ground (arith, instructions-count_ready ins t)

  notify-AllHeld :
      (env : Env D) (i : ℕ) (test : Instruction D → Bool) (s : Server D)
      → AllHeld s
      → AllHeld (notify env i test s).1
  unfolding notify set_instruction_ready transaction_progress
  notify-AllHeld env i test s v = elim (Option-cases (node_instruction i s)) [
    | inl e ↦ rw (e, notify) v
    | inr ((t, ins), e) ↦ elim (Bool-cases (test ins)) [
      | inl accepted ↦
          rw (e, accepted, notify)
            (progress-AllHeld env 2 (mark_ready t ins s)
              (mark_ready-AllHeld t ins s (node_instruction-queued i s e) v))
      | inr refused ↦ rw (e, refused, notify) v
    ]
  ]

  handle_timeout-AllHeld : (env : Env D) (s : Server D) → AllHeld s → AllHeld (handle_timeout env s)
  unfolding handle_timeout transaction_progress
  handle_timeout-AllHeld env s v = elim (Option-cases s.queued_transaction) [
    | inl e ↦ rw (e, handle_timeout) v
    | inr (t, e) ↦ rw (e, handle_timeout) (progress-AllHeld env 2 (expire t s) (λ i. rw e at (v i)))
  ]

  node_set_dirty-AllHeld : (k : ℕ) (s : Server D) → AllHeld s → AllHeld (node_set_dirty k s)
  unfolding node_set_dirty
  node_set_dirty-AllHeld k s v i = let h = v i in ground arith

  begin_destroy-AllHeld : (k : ℕ) (s : Server D) → AllHeld s → AllHeld (begin_destroy k s)
  unfolding begin_destroy
  begin_destroy-AllHeld k s v i = let h = node_set_dirty-AllHeld k s v i in ground arith

  change-AllHeld : (k : ℕ) (thing : Thing D) (s : Server D) → AllHeld s → AllHeld (change k thing s)
  unfolding change
  change-AllHeld k thing s v i = let h = v i in ground arith

  step-AllHeld : (e : Event D) (s : Server D) → AllHeld s → AllHeld (step e s)
  unfolding step notify_by_serial notify_by_geometry
  step-AllHeld (changed k thing) s v = change-AllHeld k thing s v
  step-AllHeld (dirtied k) s v = node_set_dirty-AllHeld k s v
  step-AllHeld (destroyed k) s v = begin_destroy-AllHeld k s v
  step-AllHeld (committed env request) s v = commit_dirty-AllHeld env request s v
  step-AllHeld (acked_serial env i serial) s v = notify-AllHeld env i _ s v
  step-AllHeld (acked_geometry env i x y width height) s v = notify-AllHeld env i _ s v
  step-AllHeld (timed_out env) s v = handle_timeout-AllHeld env s v

  -- After any history of events from a state in which every node with a pointer to an instruction has
  -- an instruction in the queued transaction, this is still so; with nothing queued no node points
  -- to an instruction.
  pub run-AllHeld : (es : List (Event D)) (s : Server D) → AllHeld s → AllHeld (run es s)
  unfolding run
  run-AllHeld [] s v = v
  run-AllHeld (e ∷ es) s v = run-AllHeld es (step e s) (step-AllHeld e s v)
