-- ===== src/Txn/Liveness.antt =====
-- The waiting of the transactions of sway/desktop/transaction.c, and the rounds of
-- transaction_progress.
use swirl.Prelude.{
  ℕ, suc, ◌<◌, ◌≡◌, sym, ◌∙◌, arith, Bool, Option, none, some, List, [], ◌∷◌, inl, inr,
  Option-cases, List-cases, Bool-cases, ℕ-cases,
}
use swirl.Txn.State.{Instruction, Transaction, armed, Server, Env, node_set_dirty}
use swirl.Txn.Commit.{
  start_timer, adjust_waiting, commit_instructions, transaction_commit, finish, queue, progress,
  transaction_progress, transaction_commit_pending, transaction_commit_dirty, collect_dirty,
  pending_or_new,
}
use swirl.Txn.Events.{
  Event, changed, dirtied, destroyed, committed, acked_serial, acked_geometry, timed_out, notify,
  notify_by_serial, notify_by_geometry, set_instruction_ready, mark_ready, count_ready, expire,
  handle_timeout, begin_destroy, change, step, run, node_instruction,
}
use swirl.Txn.Counting.{queued-add_nodes}
use swirl.Txn.Balance.{pending-finish, queued-finish, pending-queue}
use swirl.Txn.Safety.{node_instruction-queued, node_set_dirty-transactions}

module _ {D : Type 0} where
  -- A transaction that waits for a view has an armed timer.
  abbrev Timed : Option (Transaction D) → Type 0
  Timed none = Unit
  Timed (some t) = 0 < t.num_waiting → t.timer ≡ armed

  -- Between events: what is queued waits, with an armed timer, and what is pending waits for it.
  abbrev SettledTransactions : Option (Transaction D) → Option (Transaction D) → Type 0
  SettledTransactions none pending = pending ≡ none
  SettledTransactions (some t) pending = (0 < t.num_waiting) × (t.timer ≡ armed)

  abbrev pub Settled : Server D → Type 0
  Settled s = SettledTransactions s.queued_transaction s.pending_transaction

  start_timer-Timed : (env : Env D) (w : ℕ) (t : Transaction D) → Timed (some (start_timer env w t))
  unfolding start_timer
  start_timer-Timed env w t = ground arith

  queue-Timed :
      (env : Env D) (t : Transaction D) (s : Server D) → Timed (queue env t s).queued_transaction
  unfolding queue transaction_commit
  queue-Timed env t s =
      let (ins, w, s') =
        commit_instructions env t.instructions (record s { pending_transaction = none }) in
      start_timer-Timed env (adjust_waiting env w)
        (record t { instructions = ins; num_configures = w })

  -- With nothing pending one round is enough.
  progress_once :
      (env : Env D) (rounds : ℕ) (s : Server D)
      → Timed s.queued_transaction
      → s.pending_transaction ≡ none
      → Settled (progress env (suc rounds) s)
  unfolding progress
  progress_once env rounds s h p = elim (Option-cases s.queued_transaction) [
    | inl e ↦ rw (e, progress) (rw e p)
    | inr (t, e) ↦ elim (ℕ-cases t.num_waiting) [
      | inr (k, w) ↦
          (let waits : 0 < t.num_waiting = omega arith in
            rw (e, w, progress) (rw e (waits, (rw e at h) waits)))
      | inl w ↦
          (let p' = pending-finish env t s ∙ p in
            rw (e, w, p', progress) (rw (queued-finish env t s) p'))
    ]
  ]

  -- Two rounds are enough in any case.
  progress-Settled :
      (env : Env D) (rounds : ℕ) (s : Server D)
      → Timed s.queued_transaction
      → (s.queued_transaction ≡ none → s.pending_transaction ≡ none)
      → Settled (progress env (suc (suc rounds)) s)
  unfolding progress
  progress-Settled env rounds s h p = elim (Option-cases s.queued_transaction) [
    | inl e ↦ rw (e, progress) (rw e (p e))
    | inr (t, e) ↦ elim (ℕ-cases t.num_waiting) [
      | inr (k, w) ↦
          (let waits : 0 < t.num_waiting = omega arith in
            rw (e, w, progress) (rw e (waits, (rw e at h) waits)))
      | inl w ↦
          (let after = finish env t s in
            elim (Option-cases after.pending_transaction) [
              | inl p' ↦ rw (e, w, p', progress) (rw (queued-finish env t s) p')
              | inr (u, p') ↦
                  rw (e, w, p', progress)
                    (progress_once env rounds (queue env u after) (queue-Timed env u after)
                      (pending-queue env u after))
            ])
    ]
  ]

  progress_once-eq :
      (env : Env D) (rounds : ℕ) (s : Server D)
      → s.pending_transaction ≡ none
      → progress env (suc rounds) s ≡ progress env 1 s
  unfolding progress
  progress_once-eq env rounds s p = elim (Option-cases s.queued_transaction) [
    | inl e ↦ rw (e, progress)
    | inr (t, e) ↦ elim (ℕ-cases t.num_waiting) [
      | inr (k, w) ↦ rw (e, w, progress)
      | inl w ↦ rw (e, w, pending-finish env t s ∙ p, progress)
    ]
  ]

  -- `transaction_progress` and `transaction_commit_pending` call one another twice at most: more
  -- rounds change nothing.
  pub progress_rounds :
      (env : Env D) (rounds : ℕ) (s : Server D)
      → progress env (suc (suc rounds)) s ≡ transaction_progress env s
  unfolding progress transaction_progress
  progress_rounds env rounds s = elim (Option-cases s.queued_transaction) [
    | inl e ↦ rw (e, progress)
    | inr (t, e) ↦ elim (ℕ-cases t.num_waiting) [
      | inr (k, w) ↦ rw (e, w, progress)
      | inl w ↦
          (let after = finish env t s in
            elim (Option-cases after.pending_transaction) [
              | inl p' ↦ rw (e, w, p', progress)
              | inr (u, p') ↦
                  rw (e, w, p', progress)
                    (progress_once-eq env rounds (queue env u after) (pending-queue env u after))
            ])
    ]
  ]

  commit_pending-Settled :
      (env : Env D) (s : Server D)
      → Timed s.queued_transaction
      → ((t : Transaction D) → s.queued_transaction ≡ some t → Settled s)
      → Settled (transaction_commit_pending env s)
  unfolding transaction_commit_pending transaction_progress
  commit_pending-Settled env s h k = elim (Option-cases s.queued_transaction) [
    | inr (t, e) ↦ rw (e, transaction_commit_pending) (k t e)
    | inl e ↦ elim (Option-cases s.pending_transaction) [
      | inl p ↦ rw (e, p, transaction_commit_pending) (rw e p)
      | inr (t, p) ↦
          rw (e, p, transaction_commit_pending)
            (progress-Settled env 0 (queue env t s) (queue-Timed env t s)
              (λ _. pending-queue env t s))
    ]
  ]

  Timed-of_Settled : (s : Server D) → Settled s → Timed s.queued_transaction
  Timed-of_Settled s v = elim (Option-cases s.queued_transaction) [
    | inl e ↦ rw e tt
    | inr (t, e) ↦ rw e (λ _. (rw e at v).1)
  ]

  commit_dirty-Settled :
      (env : Env D) (request : Bool) (s : Server D)
      → Settled s
      → Settled (transaction_commit_dirty env request s)
  unfolding transaction_commit_dirty collect_dirty
  commit_dirty-Settled env request s v = elim (List-cases s.dirty_nodes) [
    | inl e ↦ rw (e, transaction_commit_dirty) v
    | inr (k, ks, e) ↦ elim (Option-cases (pending_or_new env s)) [
      | inl p ↦ rw (e, p, transaction_commit_dirty) v
      | inr (t, p) ↦
          rw (e, p, transaction_commit_dirty)
            (commit_pending-Settled env (collect_dirty env request t s)
              (rw (queued-add_nodes env request s.dirty_nodes t s) (Timed-of_Settled s v))
              (λ u q.
                let q' : s.queued_transaction ≡ some u =
                  sym (queued-add_nodes env request s.dirty_nodes t s) ∙ q in
                rw q (rw q' at v)))
    ]
  ]

  mark_ready-Timed :
      (t : Transaction D) (ins : Instruction D) (s : Server D)
      → t.timer ≡ armed
      → Timed (mark_ready t ins s).queued_transaction
  unfolding mark_ready count_ready
  mark_ready-Timed t ins s e = ground arith

  handle_timeout-Settled : (env : Env D) (s : Server D) → Settled s → Settled (handle_timeout env s)
  unfolding handle_timeout transaction_progress
  handle_timeout-Settled env s v = elim (Option-cases s.queued_transaction) [
    | inl e ↦ rw (e, handle_timeout) v
    | inr (t, e) ↦
        rw (e, handle_timeout)
          (progress-Settled env 0 (expire t s) (λ h. absurd (omega arith)) (λ h. absurd (cc h)))
  ]

  notify-Settled :
      (env : Env D) (i : ℕ) (test : Instruction D → Bool) (s : Server D)
      → Settled s
      → Settled (notify env i test s).1
  unfolding notify set_instruction_ready transaction_progress mark_ready
  notify-Settled env i test s v = elim (Option-cases (node_instruction i s)) [
    | inl e ↦ rw (e, notify) v
    | inr ((t, ins), e) ↦ elim (Bool-cases (test ins)) [
      | inl accepted ↦
          rw (e, accepted, notify)
            (progress-Settled env 0 (mark_ready t ins s)
              (mark_ready-Timed t ins s (rw (node_instruction-queued i s e) at v).1)
              (λ h. absurd (cc h)))
      | inr refused ↦ rw (e, refused, notify) v
    ]
  ]

  node_set_dirty-Settled : (k : ℕ) (s : Server D) → Settled s → Settled (node_set_dirty k s)
  node_set_dirty-Settled k s v = let (q, p) = node_set_dirty-transactions k s in rw (q, p) v

  -- After any event that follows a settled state, the state is settled: a queued transaction waits
  -- for some view and has an armed timer, and nothing is pending unless something is queued.
  pub step-Settled : (e : Event D) (s : Server D) → Settled s → Settled (step e s)
  unfolding step change begin_destroy notify_by_serial notify_by_geometry
  step-Settled (changed k thing) s v = v
  step-Settled (dirtied k) s v = node_set_dirty-Settled k s v
  step-Settled (destroyed k) s v = node_set_dirty-Settled k s v
  step-Settled (committed env request) s v = commit_dirty-Settled env request s v
  step-Settled (acked_serial env i serial) s v = notify-Settled env i _ s v
  step-Settled (acked_geometry env i x y width height) s v = notify-Settled env i _ s v
  step-Settled (timed_out env) s v = handle_timeout-Settled env s v

  -- After any history from a settled state a queued transaction waits with an armed timer, and
  -- nothing is pending unless something is queued.
  pub run-Settled : (es : List (Event D)) (s : Server D) → Settled s → Settled (run es s)
  unfolding run
  run-Settled [] s v = v
  run-Settled (e ∷ es) s v = run-Settled es (step e s) (step-Settled e s v)
