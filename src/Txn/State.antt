-- ===== src/Txn/State.antt =====
-- The data of sway/desktop/transaction.c and the server's fields that it works on
-- (include/sway/server.h), with the memory of nodes as a function.
use swirl.Prelude.{
  ℕ, ◌+◌, ◌%◌, ◌^◌, ◌-◌, ◌==◌, Bool, true, false, ◌||◌, Option, none, some, List, [], ◌∷◌, ◌++◌,
  if◌then◌else◌,
}
use swirl.Prelude.Int.{ℤ}
use swirl.Tree.Types.{
  OutputState, WorkspaceState, ContainerState, View, Thing, n_root, n_output, n_workspace,
  n_container, Node,
}

-- The union in `struct sway_transaction_instruction`.
pub data Copied (D : Type 0) : Type 0 where
  no_state : Copied D
  output_state : OutputState → Copied D
  workspace_state : WorkspaceState D → Copied D
  container_state : ContainerState D → Copied D

-- `struct sway_transaction_instruction`; `addr` is its address.
pub record Instruction (D : Type 0) : Type 0 where
  pub addr : ℕ
  pub node : ℕ
  pub state : Copied D
  pub serial : ℕ
  pub server_request : Bool
  pub waiting : Bool

-- The timer of a transaction: none, one that will fire, or one that was disarmed.
pub data Timer : Type 0 where
  no_timer armed disarmed : Timer

-- `struct sway_transaction`, less the time stamp for the log.
pub record Transaction (D : Type 0) : Type 0 where
  pub instructions : List (Instruction D)
  pub num_waiting : ℕ
  pub num_configures : ℕ
  pub timer : Timer

-- The fields of `struct sway_server` that transactions use, the nodes in memory, the next free
-- address of an instruction, and the nodes that have been freed, last first.
pub record Server (D : Type 0) : Type 0 where
  pub nodes : ℕ → Node D
  pub dirty_nodes : List ℕ
  pub queued_transaction : Option (Transaction D)
  pub pending_transaction : Option (Transaction D)
  pub next_addr : ℕ
  pub freed : List ℕ

-- The operations on `double` that the code uses: `==`, the cast to `int`, the conversion from `int`.
pub record Doubles (D : Type 0) : Type 0 where
  pub double_eq : D → D → Bool
  pub to_int : D → ℤ
  pub of_int : ℤ → D

-- What the transaction code asks of the rest of the compositor during one call.
pub record Env (D : Type 0) : Type 0 where
  pub doubles : Doubles D
  -- `seat_get_focus`, as a node
  pub focus : Option ℕ
  -- `seat_get_focus_inactive_tiling`, of a workspace
  pub inactive_tiling : ℕ → Option ℕ
  -- `seat_get_active_tiling_child`, of a container
  pub active_tiling_child : ℕ → Option ℕ
  -- `output_get_active_workspace`
  pub active_workspace : ℕ → Option ℕ
  -- how deep the tree of containers may be
  pub max_depth : ℕ
  -- whether `calloc` succeeds
  pub alloc : Bool
  -- `debug.noatomic` and `debug.txn_wait`
  pub noatomic : Bool
  pub txn_wait : Bool
  -- `view_is_visible` and the serial that `view_configure` returns, of a view's container
  pub view_is_visible : ℕ → Bool
  pub view_configure : ℕ → ContainerState D → ℕ
  -- whether `wl_event_loop_add_timer` and `wlr_scene_tree_create` succeed
  pub timer_created : Bool
  pub tree_created : Bool
  -- the nodes that `arrange_root` and `cursor_rebase_all` mark dirty
  pub rebased : List ℕ

-- `x++` and `x--` on a `size_t`.
abbrev pub inc_size : ℕ → ℕ
inc_size x = (x + 1) % 2 ^ 64

abbrev pub dec_size : ℕ → ℕ
dec_size x = (x + (2 ^ 64 - 1)) % 2 ^ 64

module _ {D : Type 0} where
  -- A write to the node `i`.
  abbrev pub update_node : ℕ → (Node D → Node D) → Server D → Server D
  update_node i f s = record s { nodes = λ j. if i == j then f (s.nodes j) else s.nodes j }

  abbrev pub view_of : Thing D → Option View
  view_of n_root = none
  view_of (n_output o) = none
  view_of (n_workspace w) = none
  view_of (n_container c) = c.view

  abbrev pub is_view_thing : Thing D → Bool
  is_view_thing t = elim (view_of t) [ none ↦ false | some v ↦ true ]

  -- `node_is_view`
  abbrev pub node_is_view : Node D → Bool
  node_is_view n = is_view_thing n.thing

  -- `node_set_dirty`
  unfoldable pub node_set_dirty : ℕ → Server D → Server D
  node_set_dirty i s =
      if (s.nodes i).dirty || (s.nodes i).destroying
      then s
      else record (update_node i (λ n. record n { dirty = true }) s) {
        dirty_nodes = s.dirty_nodes ++ (i ∷ []);
      }

  -- The calls of `node_set_dirty` for a list of nodes.
  unfoldable pub set_dirty_all : List ℕ → Server D → Server D
  unfolding node_set_dirty
  set_dirty_all [] s = s
  set_dirty_all (i ∷ is) s = set_dirty_all is (node_set_dirty i s)
