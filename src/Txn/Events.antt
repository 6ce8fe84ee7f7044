-- ===== src/Txn/Events.antt =====
-- What happens to the transactions from outside: the answers of views and the timer
-- (set_instruction_ready, transaction_notify_view_ready_by_serial,
-- transaction_notify_view_ready_by_geometry and handle_timeout of
-- sway/desktop/transaction.c), the commits, changes of the tree, and the mark that
-- container_begin_destroy, workspace_begin_destroy and output_begin_destroy put on a node.
use swirl.Prelude.{
  ℕ, ◌-◌, ◌==◌, ltb, Bool, true, false, ◌&&◌, Option, none, some, List, [], ◌∷◌, if◌then◌else◌,
}
use swirl.Prelude.Int.{ℤ, int_eq}
use swirl.Tree.Types.{Thing}
use swirl.Txn.State.{
  Copied, container_state, Instruction, Transaction, disarmed, Server, Env, update_node,
  node_set_dirty,
}
use swirl.Txn.Commit.{transaction_progress, transaction_commit_dirty}

pub data Event (D : Type 0) : Type 0 where
  changed : ℕ → Thing D → Event D
  dirtied : ℕ → Event D
  destroyed : ℕ → Event D
  committed : Env D → Bool → Event D
  acked_serial : Env D → ℕ → ℕ → Event D
  acked_geometry : Env D → ℕ → D → D → ℤ → ℤ → Event D
  timed_out : Env D → Event D

module _ {D : Type 0} where
  -- The instruction at an address.
  abbrev pub find_instruction : ℕ → List (Instruction D) → Option (Instruction D)
  find_instruction a [] = none
  find_instruction a (ins ∷ rest) = if ins.addr == a then some ins else find_instruction a rest

  -- The count of `set_instruction_ready`: one view less, and at none the timer is disarmed.
  unfoldable pub count_ready : Instruction D → Transaction D → Transaction D
  count_ready ins t =
      if ins.waiting && ltb 0 t.num_waiting
      then if t.num_waiting == 1
        then record t { num_waiting = 0; timer = disarmed }
        else record t { num_waiting = t.num_waiting - 1 }
      else t

  -- The server when `set_instruction_ready` calls `transaction_progress`, for an instruction of the
  -- queued transaction `t`.
  unfoldable pub mark_ready : Transaction D → Instruction D → Server D → Server D
  unfolding count_ready
  mark_ready t ins s = record (update_node ins.node (λ n. record n { instruction = none }) s) {
    queued_transaction = some (count_ready ins t);
  }

  unfoldable pub set_instruction_ready : Env D → Transaction D → Instruction D → Server D → Server D
  unfolding mark_ready transaction_progress
  set_instruction_ready env t ins s = transaction_progress env (mark_ready t ins s)

  -- The instruction that `view->container->node.instruction` points to, with its transaction. A
  -- node points into the queued transaction only.
  abbrev pub node_instruction : ℕ → Server D → Option (Transaction D × Instruction D)
  node_instruction i s = elim (s.nodes i).instruction [
    | none ↦ none
    | some a ↦ elim s.queued_transaction [
      | none ↦ none
      | some t ↦ elim (find_instruction a t.instructions) [ none ↦ none | some ins ↦ some (t, ins) ]
    ]
  ]

  -- Both `transaction_notify_view_ready` functions, over their test.
  unfoldable pub notify : Env D → ℕ → (Instruction D → Bool) → Server D → Bool × Server D
  unfolding set_instruction_ready
  notify env i test s = elim (node_instruction i s) [
    | none ↦ (false, s)
    | some (t, ins) ↦ if test ins then (true, set_instruction_ready env t ins s) else (false, s)
  ]

  -- `transaction_notify_view_ready_by_serial`, for the view of the container `i`.
  unfoldable pub notify_by_serial : Env D → ℕ → ℕ → Server D → Bool × Server D
  unfolding notify
  notify_by_serial env i serial s = notify env i (λ ins. ins.serial == serial) s

  -- The test of `transaction_notify_view_ready_by_geometry`.
  unfoldable pub has_geometry : Env D → D → D → ℤ → ℤ → Copied D → Bool
  has_geometry env x y width height (container_state c) =
      int_eq (to_int c.content_x) (to_int x)
      && int_eq (to_int c.content_y) (to_int y)
      && double_eq c.content_width (of_int width)
      && double_eq c.content_height (of_int height)
    where
      open env use {doubles.{to_int, double_eq, of_int}}
  has_geometry env x y width height other = false

  -- `transaction_notify_view_ready_by_geometry`
  unfoldable pub notify_by_geometry : Env D → ℕ → D → D → ℤ → ℤ → Server D → Bool × Server D
  unfolding notify has_geometry
  notify_by_geometry env i x y width height s =
      notify env i (λ ins. has_geometry env x y width height ins.state) s

  -- The server when `handle_timeout` calls `transaction_progress`.
  abbrev pub expire : Transaction D → Server D → Server D
  expire t s = record s { queued_transaction = some (record t { num_waiting = 0 }) }

  -- `handle_timeout`, which the timer of the queued transaction calls.
  unfoldable pub handle_timeout : Env D → Server D → Server D
  unfolding transaction_progress
  handle_timeout env s = elim s.queued_transaction [
    | none ↦ s
    | some t ↦ transaction_progress env (expire t s)
  ]

  -- `node_set_dirty(node); node->destroying = true;`
  unfoldable pub begin_destroy : ℕ → Server D → Server D
  unfolding node_set_dirty
  begin_destroy i s = update_node i (λ n. record n { destroying = true }) (node_set_dirty i s)

  -- A change of a node's pending state.
  unfoldable pub change : ℕ → Thing D → Server D → Server D
  change i thing s = update_node i (λ n. record n { thing = thing }) s

  unfoldable pub step : Event D → Server D → Server D
  unfolding change begin_destroy notify_by_serial notify_by_geometry handle_timeout
      transaction_commit_dirty node_set_dirty
  step (changed i thing) s = change i thing s
  step (dirtied i) s = node_set_dirty i s
  step (destroyed i) s = begin_destroy i s
  step (committed env server_request) s = transaction_commit_dirty env server_request s
  step (acked_serial env i serial) s = (notify_by_serial env i serial s).1
  step (acked_geometry env i x y width height) s = (notify_by_geometry env i x y width height s).1
  step (timed_out env) s = handle_timeout env s

  unfoldable pub run : List (Event D) → Server D → Server D
  unfolding step
  run [] s = s
  run (e ∷ es) s = run es (step e s)
