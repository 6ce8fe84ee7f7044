-- ===== src/Input/FocusTests.antt =====
-- Tests of the focus stack on a workspace with two views, and the theorems at that state.
use swirl.Prelude.{
  ℕ, ◌≡◌, ◌↔◌, refl, true, false, Option, none, some, List, [], ◌∷◌, ◌==◌, if◌then◌else◌,
}
use swirl.Prelude.Int.{pos}
use swirl.Tree.Types.{
  ContainerState, WorkspaceState, Thing, n_root, n_container, n_workspace, l_none, fullscreen_none,
  b_normal,
}
use swirl.Tree.Ancestors.{node_get_parent, node_has_ancestor, IsAbove, node_has_ancestor_lem}
use swirl.Txn.State.{Server}
use swirl.Input.Focus.{
  Seat, is_workspace, things_of, seat_set_raw_focus, seat_get_focus_inactive,
  seat_get_focus_inactive_view, seat_get_active_tiling_child, seat_get_focused_workspace,
  seat_get_last_known_workspace, seat_get_focus, mark_focus,
}
use swirl.Input.Focus.Stack.{
  IsValid, FocusEvent, appeared, focused, gone, run_focus, run_focus-IsValid,
}
use swirl.Input.Focus.Recent.{Foremost, searches-raw_focus, seat_get_focus_inactive_lem}

abbrev window_state : ContainerState ℕ
window_state = record {
  layout = l_none;
  x = 0;
  y = 0;
  width = 400;
  height = 600;
  fullscreen_mode = fullscreen_none;
  workspace = some 2;
  parent = none;
  children = none;
  focused_inactive_child = none;
  focused = false;
  border = b_normal;
  border_thickness = pos 2;
  border_top = true;
  border_bottom = true;
  border_left = true;
  border_right = true;
  content_x = 0;
  content_y = 0;
  content_width = 400;
  content_height = 600;
}

abbrev window : Thing ℕ
window = n_container (record {
  view = some (record { is_xwayland = false; has_surface = true; saved_surface_tree = false });
  pending = window_state;
  current = window_state;
})

abbrev shown : WorkspaceState ℕ
shown = record {
  fullscreen = none;
  x = 0;
  y = 0;
  width = pos 800;
  height = pos 600;
  layout = l_none;
  output = none;
  floating = [];
  tiling = 3 ∷ 4 ∷ [];
  focused_inactive_child = none;
  focused = false;
}

abbrev desk : Thing ℕ
desk = n_workspace (record {
  fullscreen = none;
  x = 0;
  y = 0;
  width = pos 800;
  height = pos 600;
  layout = l_none;
  output = none;
  floating = [];
  tiling = 3 ∷ 4 ∷ [];
  current = shown;
})

-- The root is node 0, the workspace node 2, and its views are the nodes 3 and 4.
abbrev server : Server ℕ
server = record {
  nodes = λ i. record {
    thing = if i == 2 then desk else if i == 3 then window else if i == 4 then window else n_root;
    instruction = none;
    ntxnrefs = 0;
    destroying = false;
    dirty = false;
  };
  dirty_nodes = [];
  queued_transaction = none;
  pending_transaction = none;
  next_addr = 100;
  freed = [];
}

abbrev seat : Seat
seat = record { focus_stack = 3 ∷ 4 ∷ 2 ∷ []; has_focus = true }

abbrev seat_after : Seat
seat_after = record { focus_stack = 4 ∷ 3 ∷ 2 ∷ []; has_focus = true }

raised : seat_set_raw_focus true 0 4 seat server ≡ some (seat_after, mark_focus 0 4 server)
unfolding seat_set_raw_focus
raised = refl

workspace_found :
    (seat_get_focused_workspace 0 5 (things_of server) seat ≡ none)
    × (seat_get_last_known_workspace 0 5 (things_of server) seat ≡ some 2)
    × (seat_get_focus seat ≡ some 3)
unfolding seat_get_focused_workspace seat_get_last_known_workspace seat_get_focus
workspace_found = (refl, refl, refl)

seat-IsValid : IsValid seat
seat-IsValid = record { unique = (refl, (refl, (refl, tt))); focusable = λ h. refl }

abbrev focus_history : List FocusEvent
focus_history = focused true 4 ∷ gone 3 ∷ appeared true 3 ∷ []

history_runs : (run_focus 0 focus_history (seat, server)).0.focus_stack ≡ 4 ∷ 2 ∷ 3 ∷ []
unfolding run_focus
history_runs = refl

run_focus-IsValid_example : IsValid (run_focus 0 focus_history (seat, server)).0
run_focus-IsValid_example = run_focus-IsValid 0 focus_history (seat, server) seat-IsValid

searches-raw_focus_example :
    (seat_get_focus_inactive 0 5 (things_of (mark_focus 0 4 server)) 2 seat_after ≡ (
      if node_has_ancestor 0 (things_of server) 5 4 2
      then some 4
      else seat_get_focus_inactive 0 5 (things_of server) 2 seat))
    × (seat_get_focus_inactive_view 0 5 (things_of (mark_focus 0 4 server)) 2 seat_after ≡ (
        if node_has_ancestor 0 (things_of server) 5 4 2
        then some 4
        else seat_get_focus_inactive_view 0 5 (things_of server) 2 seat))
    × (seat_get_active_tiling_child 0 5 (things_of (mark_focus 0 4 server)) 2 seat_after ≡ some 4)
unfolding node_get_parent
searches-raw_focus_example =
    searches-raw_focus true 0 5 4 2 seat seat_after server (mark_focus 0 4 server) raised refl

seat_get_focus_inactive_example :
    (found : Option ℕ) × Foremost (IsAbove 0 (things_of server) 2) (3 ∷ 4 ∷ 2 ∷ []) found
    × (seat_get_focus_inactive 0 5 (things_of server) 2 seat ≡ (elim found [
      | some j ↦ some j
      | none ↦ if is_workspace (things_of server 2) then some 2 else none
    ]))
unfolding node_get_parent
seat_get_focus_inactive_example =
    seat_get_focus_inactive_lem 0 5 (things_of server) 2 seat (tt, (tt, (tt, tt))) refl

node_has_ancestor_example :
    (node_has_ancestor 0 (things_of server) 5 3 2 ≡ true) ↔ IsAbove 0 (things_of server) 2 3
unfolding node_get_parent
node_has_ancestor_example = node_has_ancestor_lem 0 (things_of server) 5 3 2 tt
