-- ===== src/Txn/Tests.antt =====
-- Tests of the transaction model on a workspace with two views, and the theorems at that state.
use swirl.Prelude.{
  ℕ, ◌+◌, ◌≡◌, refl, arith, true, false, Option, none, some, List, [], ◌∷◌, ◌==◌, if◌then◌else◌,
}
use swirl.Prelude.Int.{ℤ, pos, int_eq}
use swirl.Tree.Types.{
  ContainerState, Thing, n_root, n_container, Node, l_none, fullscreen_none, b_normal,
}
use swirl.Prelude.Members.{occurrences}
use swirl.Txn.State.{container_state, Server, Env, Transaction, armed}
use swirl.Txn.Add.{has_node}
use swirl.Txn.Refs.{AllCounted, instructions_of}
use swirl.Txn.Commit.{finish, progress, transaction_progress}
use swirl.Txn.Events.{Event, dirtied, destroyed, committed, acked_serial, run}
use swirl.Txn.Safety.{AllAllocate, run-AllCounted, freed-unreferenced}
use swirl.Txn.Liveness.{Settled, run-Settled, progress_rounds}
use swirl.Txn.Pointers.{AllHeld, run-AllHeld}
use swirl.Txn.Atomic.{thing-finish}

-- A container state of the given content width.
abbrev sized : ℕ → ContainerState ℤ
sized w = record {
  layout = l_none;
  x = pos 0;
  y = pos 0;
  width = pos w;
  height = pos 600;
  fullscreen_mode = fullscreen_none;
  workspace = some 9;
  parent = none;
  children = none;
  focused_inactive_child = none;
  focused = false;
  border = b_normal;
  border_thickness = pos 2;
  border_top = true;
  border_bottom = true;
  border_left = true;
  border_right = true;
  content_x = pos 0;
  content_y = pos 0;
  content_width = pos w;
  content_height = pos 600;
}

-- A view's container whose pending width is `w` and whose current width is `v`.
abbrev window : ℕ → ℕ → Thing ℤ
window w v = n_container (record {
  view = some (record { is_xwayland = false; has_surface = true; saved_surface_tree = false });
  pending = sized w;
  current = sized v;
})

abbrev fresh_node : Thing ℤ → Node ℤ
fresh_node t = record {
  thing = t;
  instruction = none;
  ntxnrefs = 0;
  destroying = false;
  dirty = false;
}

-- The nodes 1 and 2 are views.
abbrev start : Server ℤ
start = record {
  nodes = λ i.
      fresh_node (if i == 1 then window 800 400 else if i == 2 then window 300 400 else n_root);
  dirty_nodes = [];
  queued_transaction = none;
  pending_transaction = none;
  next_addr = 100;
  freed = [];
}

abbrev env : Env ℤ
env = record {
  doubles = record { double_eq = int_eq; to_int = λ x. x; of_int = λ x. x };
  focus = none;
  inactive_tiling = λ _. none;
  active_tiling_child = λ _. none;
  active_workspace = λ _. none;
  max_depth = 4;
  alloc = true;
  noatomic = false;
  txn_wait = false;
  view_is_visible = λ _. true;
  view_configure = λ i _. i + 70;
  timer_created = true;
  tree_created = true;
  rebased = 5 ∷ [];
}

-- Both views are resized, one is destroyed meanwhile, and both answer.
abbrev history : List (Event ℤ)
history =
    dirtied 1
    ∷ dirtied 2
    ∷ committed env true
    ∷ destroyed 2
    ∷ committed env true
    ∷ acked_serial env 1 71
    ∷ []

abbrev answered : List (Event ℤ)
answered =
    dirtied 1
    ∷ dirtied 2
    ∷ committed env true
    ∷ destroyed 2
    ∷ committed env true
    ∷ acked_serial env 1 71
    ∷ acked_serial env 2 72
    ∷ []

start-AllCounted : AllCounted start
start-AllCounted i = ground arith

queued_count : Server ℤ → Option ℕ
queued_count s = elim s.queued_transaction [ none ↦ none | some t ↦ some t.num_waiting ]

one_left : queued_count (run history start) ≡ some 1
unfolding queued_count run
one_left = refl

all_answered : (run answered start).freed ≡ 2 ∷ []
unfolding run
all_answered = refl

answered-AllAllocate : AllAllocate answered
answered-AllAllocate = (tt, (tt, (refl, (tt, (refl, (tt, (tt, tt)))))))

run-AllCounted_example : AllCounted (run answered start)
run-AllCounted_example = run-AllCounted answered start answered-AllAllocate start-AllCounted

freed-unreferenced_example :
    (has_node 2 (instructions_of (run answered start).queued_transaction) ≡ false)
    × (has_node 2 (instructions_of (run answered start).pending_transaction) ≡ false)
    × (occurrences 2 (run answered start).dirty_nodes ≡ 0)
    × (occurrences 2 (run answered start).freed ≡ 1)
unfolding run
freed-unreferenced_example =
    freed-unreferenced answered start 2 answered-AllAllocate start-AllCounted (omega arith)

run-Settled_example : Settled (run history start)
run-Settled_example = run-Settled history start refl

progress_rounds_example :
    progress env 7 (run history start) ≡ transaction_progress env (run history start)
progress_rounds_example = progress_rounds env 5 (run history start)

-- One instruction, which sets the width of node 1.
abbrev resize : Transaction ℤ
resize = record {
  instructions =
      record {
        addr = 100;
        node = 1;
        state = container_state (sized 800);
        serial = 71;
        server_request = true;
        waiting = true;
      }
      ∷ [];
  num_waiting = 0;
  num_configures = 1;
  timer = armed;
}

thing-finish_example : ((finish env resize start).nodes 1).thing ≡ window 800 800
thing-finish_example = thing-finish env resize 1 start (omega arith)

start-AllHeld : AllHeld start
start-AllHeld i = ground arith

run-AllHeld_example : AllHeld (run history start)
run-AllHeld_example = run-AllHeld history start start-AllHeld
