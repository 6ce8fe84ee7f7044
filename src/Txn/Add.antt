-- ===== src/Txn/Add.antt =====
-- Building a transaction: transaction_create, copy_output_state, copy_workspace_state,
-- copy_container_state and transaction_add_node of sway/desktop/transaction.c.
use swirl.Prelude.{
  ℕ, zero, suc, ◌+◌, ◌==◌, ltb, Bool, false, ◌&&◌, ◌||◌, Option, none, some, List, [], ◌∷◌, ◌++◌,
  if◌then◌else◌,
}
use swirl.Tree.Types.{
  OutputState, WorkspaceState, ContainerState, Output, Workspace, Container, Thing, n_root,
  n_output, n_workspace, n_container, Node,
}
use swirl.Txn.State.{
  Copied, no_state, output_state, workspace_state, container_state, Instruction, Transaction,
  no_timer, Server, Env, inc_size, update_node,
}

-- `seat_get_focus(seat) == &x->node`
abbrev pub is_focus : Option ℕ → ℕ → Bool
is_focus none i = false
is_focus (some j) i = j == i

module _ {D : Type 0} where
  -- `transaction_create`; `none` is NULL.
  unfoldable pub transaction_create : Env D → Option (Transaction D)
  transaction_create env =
      if env.alloc
      then some
          (record { instructions = []; num_waiting = 0; num_configures = 0; timer = no_timer })
      else none

  abbrev pub pending_parent : Thing D → Option ℕ
  pending_parent n_root = none
  pending_parent (n_output o) = none
  pending_parent (n_workspace w) = none
  pending_parent (n_container c) = c.pending.parent

  -- `while (focus->pending.parent) focus = focus->pending.parent;`, for a tree of that depth.
  unfoldable pub climb : (ℕ → Node D) → ℕ → ℕ → ℕ
  climb nodes zero i = i
  climb nodes (suc depth) i = elim (pending_parent (nodes i).thing) [
    | none ↦ i
    | some p ↦ climb nodes depth p
  ]

  unfoldable pub copy_output_state : Env D → ℕ → Output → OutputState
  copy_output_state env i o = record {
    workspaces = o.workspaces;
    active_workspace = env.active_workspace i;
  }

  unfoldable pub copy_workspace_state : Env D → (ℕ → Node D) → ℕ → Workspace D → WorkspaceState D
  copy_workspace_state env nodes i w = record {
    fullscreen = w.fullscreen;
    x = w.x;
    y = w.y;
    width = w.width;
    height = w.height;
    layout = w.layout;
    output = w.output;
    floating = w.floating;
    tiling = w.tiling;
    focused = is_focus env.focus i;
    focused_inactive_child = elim (env.inactive_tiling i) [
      | none ↦ none
      | some c ↦ some (climb nodes env.max_depth c)
    ];
  }

  unfoldable pub copy_container_state : Env D → ℕ → Container D → ContainerState D
  copy_container_state env i c = elim c.view [
    | none ↦ record (c.pending) {
      focused = is_focus env.focus i;
      focused_inactive_child = env.active_tiling_child i;
    }
    | some v ↦ record (c.pending) { children = none; focused = is_focus env.focus i }
  ]

  -- The switch at the end of `transaction_add_node`: what the instruction holds afterwards.
  unfoldable pub copy_state : Env D → (ℕ → Node D) → ℕ → Thing D → Copied D → Copied D
  unfolding copy_output_state copy_workspace_state copy_container_state
  copy_state env nodes i n_root old = old
  copy_state env nodes i (n_output o) old = output_state (copy_output_state env i o)
  copy_state env nodes i (n_workspace w) old = workspace_state (copy_workspace_state env nodes i w)
  copy_state env nodes i (n_container c) old = container_state (copy_container_state env i c)

  -- Whether an instruction for the node `i` is in the list.
  abbrev pub has_node : ℕ → List (Instruction D) → Bool
  has_node i [] = false
  has_node i (ins ∷ rest) = ins.node == i || has_node i rest

  -- A write to the first instruction for the node `i`.
  abbrev pub update_first :
      ℕ → (Instruction D → Instruction D) → List (Instruction D) → List (Instruction D)
  update_first i f [] = []
  update_first i f (ins ∷ rest) =
      if ins.node == i then f ins ∷ rest else ins ∷ update_first i f rest

  -- The instruction that `calloc` and the three assignments after it give.
  unfoldable pub new_instruction : Env D → Server D → ℕ → Bool → Instruction D
  unfolding copy_state
  new_instruction env s i server_request = record {
    addr = s.next_addr;
    node = i;
    state = copy_state env s.nodes i (s.nodes i).thing no_state;
    serial = 0;
    server_request = server_request;
    waiting = false;
  }

  unfoldable pub refresh : Env D → Server D → ℕ → Bool → Instruction D → Instruction D
  unfolding copy_state
  refresh env s i server_request ins = record ins {
    state = copy_state env s.nodes i (s.nodes i).thing ins.state;
    server_request = ins.server_request || server_request;
  }

  -- `transaction_add_node` on the transaction `t`.
  unfoldable pub transaction_add_node :
      Env D → ℕ → Bool → Transaction D × Server D → Transaction D × Server D
  unfolding new_instruction refresh
  transaction_add_node env i server_request (t, s) =
      if ltb 0 (s.nodes i).ntxnrefs && has_node i t.instructions
      then (
        record t { instructions = update_first i (refresh env s i server_request) t.instructions },
        s,
      )
      else if env.alloc
      then (
        record t { instructions = t.instructions ++ (new_instruction env s i server_request ∷ []) },
        record (update_node i (λ n. record n { ntxnrefs = inc_size n.ntxnrefs }) s) {
          next_addr = s.next_addr + 1;
        },
      )
      else (t, s)

  -- The loop of `_transaction_commit_dirty`.
  unfoldable pub add_nodes :
      Env D → Bool → List ℕ → Transaction D × Server D → Transaction D × Server D
  unfolding transaction_add_node
  add_nodes env server_request [] ts = ts
  add_nodes env server_request (i ∷ is) ts =
      let (t, s) = transaction_add_node env i server_request ts in
      add_nodes env server_request is (t, update_node i (λ n. record n { dirty = false }) s)
