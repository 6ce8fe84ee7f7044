-- ===== src/Tree/Tests.antt =====
-- Tests of the pending tree, and the theorems at concrete inputs.
use swirl.Prelude.{ℕ, ◌≡◌, refl, ◌==◌, true, false, none, some, List, [], ◌∷◌, if◌then◌else◌}
use swirl.Tree.Types.{l_horiz, fullscreen_none, fullscreen_workspace}
use swirl.Tree.Links.{Links, of_children, container_get_siblings}
use swirl.Tree.Links.Beside.{IsBeside}
use swirl.Tree.Pending.Reparent.{container_add_sibling}
use swirl.Tree.Pending.Reparent.Orders.{container_add_sibling-IsBeside}
use swirl.Tree.Links.Depth.{Within}
use swirl.Tree.Links.Moves.{IsTree}
use swirl.Tree.Links.Free.{IsMovable}
use swirl.Tree.Pending.{Pending, detach_if_placed}
use swirl.Tree.Pending.Destroy.{Shown}
use swirl.Tree.Pending.History.{
  TreeOp, insert_child, add_sibling, add_child, attach_tiling, add_floating, detach, set_fullscreen,
  begin_destroy, reap_empty, consider_destroy, minimized_hide, scratchpad_show, scratchpad_hide,
  raise_floating, run_ops, IsAllowedRun, run_ops-IsTree,
}

-- Output 90 shows the workspace 100 and has the workspace 101 too; there are no windows yet. The
-- containers 1 and 2 are columns, all others are views.
abbrev pub no_windows : Pending
no_windows = record {
  links = record {
    parent = λ i. none;
    workspace = λ i. none;
    children = λ i. [];
    tiling = λ i. [];
    floating = λ i. [];
  };
  is_view = λ i. if i == 1 then false else if i == 2 then false else true;
  layout = λ i. l_horiz;
  fullscreen_mode = λ i. fullscreen_none;
  scratchpad = λ i. false;
  minimized = λ i. false;
  minimized_was_floating = λ i. false;
  ws_layout = λ i. l_horiz;
  ws_fullscreen = λ i. none;
  pool = λ i. [];
  ws_output = λ i. some 90;
  workspaces = λ i. if i == 90 then 100 ∷ 101 ∷ [] else [];
  outputs = 90 ∷ [];
  fallback_output = none;
  global_container = none;
  scratchpad_list = [];
  dirty = λ i. false;
  destroying = λ i. false;
  dirty_nodes = [];
}

pub no_windows-IsTree : IsTree no_windows.links
no_windows-IsTree = record { linked = λ c a. (refl, refl); agrees = λ x p up out. refl }

abbrev pub shown : Shown
shown = record { is_active = λ w. w == 100; is_seat_focus = λ w. false }

-- Two columns, the second in front of the first, with the windows 3, 5 and 4, and the window 6.
abbrev building : List TreeOp
building =
    add_floating 100 1
    ∷ add_child 1 3
    ∷ add_child 1 4
    ∷ add_sibling 3 5 true
    ∷ detach 1
    ∷ add_floating 101 1
    ∷ add_sibling 1 2 false
    ∷ insert_child 2 6 0
    ∷ set_fullscreen 6 fullscreen_workspace
    ∷ []

abbrev hiding : List TreeOp
hiding =
    minimized_hide shown 6 ∷ begin_destroy 5 ∷ reap_empty shown 1 ∷ consider_destroy shown 101 ∷ []

abbrev built : Pending
built = run_ops 3 building no_windows

column_children : built.children 1 ≡ 3 ∷ 5 ∷ 4 ∷ []
unfolding run_ops
column_children = refl

columns : built.floating 101 ≡ 2 ∷ 1 ∷ []
unfolding run_ops
columns = refl

below_column : built.workspace 4 ≡ some 101
unfolding run_ops
below_column = refl

shown_fullscreen : built.ws_fullscreen 101 ≡ some 6
unfolding run_ops
shown_fullscreen = refl

hidden_column : (run_ops 3 hiding built).floating 101 ≡ 1 ∷ []
unfolding run_ops
hidden_column = refl

hidden_pool : (run_ops 3 hiding built).pool 101 ≡ 6 ∷ []
unfolding run_ops
hidden_pool = refl

new-IsMovable : {c : ℕ} {l : Links} → l.parent c ≡ none → l.children c ≡ [] → IsMovable 3 c l
new-IsMovable up none_below = record { placed = λ e. up; shallow = (rw none_below tt, tt) }

-- A column with three windows.
with_windows : Within (λ c. if c == 1 then 3 ∷ 5 ∷ 4 ∷ [] else []) 4 (1 ∷ [])
with_windows = ((tt, (tt, (tt, tt))), tt)

is_column : (q : ℕ) → some 1 ≡ some q → (q == 5) ≡ false
is_column q e = let same : 1 ≡ q = cc in rw (← same) refl

building_allowed : IsAllowedRun 3 building no_windows
unfolding run_ops
building_allowed = (
  new-IsMovable refl refl,
  (
    (new-IsMovable refl refl, (refl, tt, tt)),
    (
      (new-IsMovable refl refl, (refl, tt, tt)),
      (
        (new-IsMovable refl refl, refl, λ q e. (is_column q e, tt, tt)),
        (
          with_windows,
          (
            record { placed = λ e. refl; shallow = with_windows },
            (
              (new-IsMovable refl refl, refl, λ q e. absurd (cc e)),
              ((new-IsMovable refl refl, (refl, tt, tt)), (tt, tt)),
            ),
          ),
        ),
      ),
    ),
  ),
)

-- The columns stand in workspace 101 with their windows.
run_ops-IsTree_example : IsTree (run_ops 3 building no_windows).links
run_ops-IsTree_example = run_ops-IsTree 3 building no_windows no_windows-IsTree building_allowed

built-IsTree : IsTree built.links
built-IsTree = run_ops-IsTree 3 building no_windows no_windows-IsTree building_allowed

window-IsMovable : IsMovable 3 4 built.links
unfolding run_ops
window-IsMovable = record { placed = λ e. absurd (cc e); shallow = (tt, tt) }

still_in_column : container_get_siblings (detach_if_placed 3 4 built).links 3 ≡ some (of_children 1)
unfolding run_ops detach_if_placed container_get_siblings
still_in_column = refl

moved_window : (container_add_sibling 3 3 4 true built).children 1 ≡ 3 ∷ 4 ∷ 5 ∷ []
unfolding run_ops container_add_sibling
moved_window = refl

-- The last window of the column moves to the place after the first.
container_add_sibling-IsBeside_example :
    let t' = container_add_sibling 3 3 4 true built in
    (container_get_siblings t'.links 3 ≡ some (of_children 1)) × IsBeside t'.links 3 4 true
container_add_sibling-IsBeside_example =
    container_add_sibling-IsBeside 3 3 4 true (of_children 1) built built-IsTree window-IsMovable
      refl still_in_column

-- The last window of a workspace that is neither shown nor focused is minimized: the workspace is
-- marked as destroyed before the window gets into its pool.
abbrev hide_last : List TreeOp
hide_last = attach_tiling 101 1 ∷ add_child 1 3 ∷ minimized_hide shown 3 ∷ []

hide_last_destroys : (run_ops 3 hide_last no_windows).destroying 101 ≡ true
unfolding run_ops
hide_last_destroys = refl

hide_last_pool : (run_ops 3 hide_last no_windows).pool 101 ≡ 3 ∷ []
unfolding run_ops
hide_last_pool = refl

-- The column 1 with its windows leaves for workspace 100, is hidden, and comes back by its window 4.
abbrev shows : List TreeOp
shows = scratchpad_show shown (some 100) 1 ∷ scratchpad_hide 1 ∷ []

hidden_scratchpad : (run_ops 3 shows built).workspace 4 ≡ none
unfolding run_ops
hidden_scratchpad = refl

shown_again :
    let t =
      run_ops 3
        (scratchpad_show shown (some 101) 4 ∷ raise_floating 6 ∷ [])
        (run_ops 3 shows built) in
    (t.floating 101 ≡ 1 ∷ 2 ∷ []) × (t.workspace 4 ≡ some 101)
unfolding run_ops
shown_again = (refl, refl)
