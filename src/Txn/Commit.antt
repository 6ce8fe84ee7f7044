-- ===== src/Txn/Commit.antt =====
-- Committing and finishing transactions: should_configure, transaction_commit,
-- transaction_commit_pending, transaction_progress, handle_timeout, set_instruction_ready, the two
-- transaction_notify_view_ready functions and transaction_commit_dirty of
-- sway/desktop/transaction.c.
use swirl.Prelude.{
  ℕ, zero, suc, ◌+◌, ◌==◌, Bool, true, false, not, ◌&&◌, ◌||◌, Option, none, some, List, [], ◌∷◌,
  if◌then◌else◌,
}
use swirl.Prelude.Int.{int_eq}
use swirl.Tree.Types.{ContainerState, Thing, n_container, Node}
use swirl.Txn.State.{
  Copied, container_state, Instruction, Transaction, armed, Server, Doubles, Env, update_node,
  node_is_view, set_dirty_all,
}
use swirl.Txn.Add.{transaction_create, add_nodes}
use swirl.Txn.Apply.{apply_instructions, release_all}

module _ {D : Type 0} where
  -- The end of `should_configure`, on the two container states.
  unfoldable pub size_differs : Doubles D → Bool → ContainerState D → ContainerState D → Bool
  size_differs fp is_xwayland cstate istate =
      if is_xwayland
        && (not (int_eq (fp.to_int cstate.content_x) (fp.to_int istate.content_x))
            || not (int_eq (fp.to_int cstate.content_y) (fp.to_int istate.content_y)))
      then true
      else not (
          fp.double_eq cstate.content_width istate.content_width
          && fp.double_eq cstate.content_height istate.content_height)

  view_differs : Doubles D → Thing D → Copied D → Bool
  unfolding size_differs
  view_differs fp (n_container c) (container_state i) = elim c.view [
    | none ↦ false
    | some v ↦ size_differs fp v.is_xwayland c.current i
  ]
  view_differs fp thing copied = false

  unfoldable pub should_configure : Env D → Node D → Instruction D → Bool
  unfolding view_differs
  should_configure env n ins =
      node_is_view n
      && not n.destroying
      && ins.server_request
      && view_differs env.doubles n.thing ins.state

  -- `view_configure` with the content box of the instruction.
  configure_serial : Env D → Instruction D → ℕ
  configure_serial env ins = elim ins.state [
    | container_state c ↦ env.view_configure ins.node c
    | other ↦ 0
  ]

  -- `view_save_buffer`, unless the view has a saved buffer.
  abbrev save_buffer : Bool → Thing D → Thing D
  save_buffer created (n_container c) = n_container (record c {
    view = elim c.view [
      | none ↦ none
      | some v ↦ some (record v { saved_surface_tree = v.saved_surface_tree || created })
    ];
  })
  save_buffer created thing = thing

  unfoldable pub is_hidden : Env D → ℕ → Node D → Bool
  is_hidden env i n = node_is_view n && not n.destroying && not (env.view_is_visible i)

  -- The instruction after its round of the loop of `transaction_commit`.
  unfoldable pub configure : Env D → Node D → Instruction D → Instruction D
  unfolding should_configure configure_serial is_hidden
  configure env n ins =
      if should_configure env n ins
      then record ins {
        serial = configure_serial env ins;
        waiting = not (is_hidden env ins.node n) || ins.waiting;
      }
      else ins

  -- The node after that round.
  unfoldable pub attach : Env D → Instruction D → Node D → Node D
  unfolding is_hidden
  attach env ins n = record n {
    thing = if is_hidden env ins.node n then n.thing else save_buffer env.tree_created n.thing;
    instruction = some ins.addr;
  }

  -- Whether that round counts the instruction in `num_waiting`.
  unfoldable pub counts : Env D → Node D → Instruction D → Bool
  unfolding should_configure is_hidden
  counts env n ins = should_configure env n ins && not (is_hidden env ins.node n)

  -- The loop of `transaction_commit`: the instructions, their `num_waiting`, and the server.
  unfoldable pub commit_instructions :
      Env D → List (Instruction D) → Server D → List (Instruction D) × ℕ × Server D
  unfolding configure attach counts
  commit_instructions env [] s = ([], 0, s)
  commit_instructions env (ins ∷ rest) s =
      let n = s.nodes ins.node in
      let (rest', waiting, s') =
        commit_instructions env rest (update_node ins.node (attach env ins) s) in
      (configure env n ins ∷ rest', (if counts env n ins then suc waiting else waiting), s')

  -- `num_waiting` after the debugging switches.
  unfoldable pub adjust_waiting : Env D → ℕ → ℕ
  adjust_waiting env waiting =
      if env.noatomic then 0 else if env.txn_wait then waiting + 1000000 else waiting

  -- The end of `transaction_commit`: a timer, if the transaction waits for views.
  unfoldable pub start_timer : Env D → ℕ → Transaction D → Transaction D
  start_timer env waiting t =
      if waiting == 0
      then record t { num_waiting = 0 }
      else if env.timer_created
      then record t { num_waiting = waiting; timer = armed }
      else record t { num_waiting = 0 }

  unfoldable pub transaction_commit : Env D → Transaction D → Server D → Transaction D × Server D
  unfolding commit_instructions adjust_waiting start_timer
  transaction_commit env t s =
      let (ins, waiting, s') = commit_instructions env t.instructions s in
      (
        start_timer env (adjust_waiting env waiting)
            (record t { instructions = ins; num_configures = waiting }),
        s',
      )

  -- `transaction_apply`, `arrange_root`, `cursor_rebase_all` and `transaction_destroy`, in
  -- `transaction_progress`.
  unfoldable pub finish : Env D → Transaction D → Server D → Server D
  unfolding apply_instructions set_dirty_all release_all
  finish env t s =
      record (release_all t.instructions
        (set_dirty_all env.rebased (apply_instructions t.instructions s))) {
          queued_transaction = none;
        }

  -- `transaction_commit_pending` up to its call of `transaction_progress`, for the pending
  -- transaction `t`.
  unfoldable pub queue : Env D → Transaction D → Server D → Server D
  unfolding transaction_commit
  queue env t s =
      let (t', s') = transaction_commit env t (record s { pending_transaction = none }) in
      record s' { queued_transaction = some t' }

  -- `transaction_progress`, where each round is a call through `transaction_commit_pending`.
  unfoldable pub progress : Env D → ℕ → Server D → Server D
  unfolding finish queue
  progress env zero s = s
  progress env (suc rounds) s = elim s.queued_transaction [
    | none ↦ s
    | some t ↦
        (let after = finish env t s in
          elim (t.num_waiting) as (λ _. Server D) [
            | suc _ ↦ s
            | zero ↦ elim after.pending_transaction [
              | none ↦ after
              | some p ↦ progress env rounds (queue env p after)
            ]
          ])
  ]

  unfoldable pub transaction_progress : Env D → Server D → Server D
  unfolding progress
  transaction_progress env s = progress env 2 s

  unfoldable pub transaction_commit_pending : Env D → Server D → Server D
  unfolding queue transaction_progress
  transaction_commit_pending env s = elim s.queued_transaction [
    | some t ↦ s
    | none ↦ elim s.pending_transaction [
      | none ↦ s
      | some p ↦ transaction_progress env (queue env p s)
    ]
  ]

  -- The pending transaction, or a new one.
  abbrev pub pending_or_new : Env D → Server D → Option (Transaction D)
  pending_or_new env s = elim s.pending_transaction [
    | some t ↦ some t
    | none ↦ transaction_create env
  ]

  -- The part of `_transaction_commit_dirty` before `transaction_commit_pending`.
  unfoldable pub collect_dirty : Env D → Bool → Transaction D → Server D → Server D
  unfolding add_nodes
  collect_dirty env server_request t s =
      let (t', s') = add_nodes env server_request s.dirty_nodes (t, s) in
      record s' { dirty_nodes = []; pending_transaction = some t' }

  -- `_transaction_commit_dirty`
  unfoldable pub transaction_commit_dirty : Env D → Bool → Server D → Server D
  unfolding transaction_create collect_dirty transaction_commit_pending
  transaction_commit_dirty env server_request s = elim s.dirty_nodes [
    | [] ↦ s
    | _ ∷ _ ↦ elim (pending_or_new env s) [
      | none ↦ s
      | some t ↦ transaction_commit_pending env (collect_dirty env server_request t s)
    ]
  ]
