-- ===== src/Tree/Workspaces/Cycle.antt =====
-- workspace_output_next and workspace_output_prev of sway/tree/workspace.c.
pub mod Around
use swirl.Prelude.{
  ℕ, zero, suc, ◌+◌, ◌==◌, Bool, true, false, Option, none, some, List, length, get_elem?,
}
use swirl.Prelude.Int.{ℤ, pos, negsuc}
use swirl.Common.ArrayList.{search_from}
use swirl.Common.Util.{wrap}

-- `index + dir`, where `dir` is 1 or -1.
abbrev pub moved : Bool → ℤ → ℤ
moved true (pos i) = pos (i + 1)
moved true (negsuc zero) = pos 0
moved true (negsuc (suc i)) = negsuc i
moved false (pos zero) = negsuc 0
moved false (pos (suc i)) = pos i
moved false (negsuc i) = negsuc (i + 1)

-- `items[new_index]`; the index is not negative.
abbrev pub item_at : List ℕ → ℤ → Option ℕ
item_at ws (pos i) = get_elem? ws i
item_at ws (negsuc i) = none

-- `workspace_output_prev_next_impl`: the workspaces of the output, and the workspace that the seat
-- focuses. An output without workspaces is not asked.
unfoldable pub workspace_output_prev_next_impl : Bool → List ℕ → Option ℕ → Option ℕ
unfolding wrap search_from
workspace_output_prev_next_impl dir ws none = none
workspace_output_prev_next_impl dir ws (some focus) =
    let index = search_from (λ w. w == focus) 0 ws in
    item_at ws (wrap (moved dir index) (length ws))

abbrev pub workspace_output_next : List ℕ → Option ℕ → Option ℕ
unfolding workspace_output_prev_next_impl
workspace_output_next ws focus = workspace_output_prev_next_impl true ws focus

abbrev pub workspace_output_prev : List ℕ → Option ℕ → Option ℕ
unfolding workspace_output_prev_next_impl
workspace_output_prev ws focus = workspace_output_prev_next_impl false ws focus
