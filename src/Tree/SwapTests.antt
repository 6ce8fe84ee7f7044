-- ===== src/Tree/SwapTests.antt =====
-- Runs of the swaps and of workspace_split of sway/tree/workspace.c on three columns of one workspace and one of another,
-- and the property at this input.
use swirl.Prelude.{ℕ, ◌≡◌, refl, none, some, [], ◌∷◌, map}
use swirl.Tree.Links.{Links, set_at}
use swirl.Tree.Links.Moves.{IsTree}
use swirl.Tree.Links.Free.{IsFree}
use swirl.Tree.Pending.{Pending}
use swirl.Tree.Pending.Reparent.{workspace_attach_tiling, workspace_add_floating}
use swirl.Tree.Pending.Reparent.Trees.{workspace_attach_tiling-IsTree}
use swirl.Tree.Pending.Wrap.{workspace_split}
use swirl.Tree.Types.{l_vert}
use swirl.Tree.Pending.Swap.{workspace_swap_columns, workspace_swap_floating}
use swirl.Tree.Pending.Swap.Exchanges.{swapped}
use swirl.Tree.Pending.Swap.Places.{workspace_swap_columns-swapped}
use swirl.Tree.Tests.{no_windows, no_windows-IsTree}

abbrev one : Pending
one = workspace_attach_tiling 2 100 1 no_windows

abbrev two : Pending
two = workspace_attach_tiling 2 100 2 one

abbrev three : Pending
three = workspace_attach_tiling 2 100 7 two

abbrev four : Pending
four = workspace_attach_tiling 2 101 8 three

new-IsFree :
    (c : ℕ) (l : Links)
    → IsTree l
    → l.parent c ≡ none
    → l.workspace c ≡ none
    → l.children c ≡ []
    → IsFree 2 c l
new-IsFree c l v up ws none_below = record {
  tree = v;
  no_parent = up;
  no_workspace = ws;
  depth_kept = (rw none_below tt, tt);
}

one-IsTree : IsTree one.links
one-IsTree =
    workspace_attach_tiling-IsTree 2 100 1 no_windows
      (new-IsFree 1 _ no_windows-IsTree refl refl refl)

two-IsTree : IsTree two.links
unfolding workspace_attach_tiling
two-IsTree = workspace_attach_tiling-IsTree 2 100 2 one (new-IsFree 2 _ one-IsTree refl refl refl)

three-IsTree : IsTree three.links
unfolding workspace_attach_tiling
three-IsTree = workspace_attach_tiling-IsTree 2 100 7 two (new-IsFree 7 _ two-IsTree refl refl refl)

columns_swapped : (workspace_swap_columns 2 7 1 three).tiling 100 ≡ 7 ∷ 2 ∷ 1 ∷ []
unfolding workspace_swap_columns workspace_attach_tiling
columns_swapped = refl

-- Across workspaces a column goes to the index that it had, not to that of the other column.
columns_across : (workspace_swap_columns 2 7 8 four).tiling 100 ≡ 8 ∷ 1 ∷ 2 ∷ []
unfolding workspace_swap_columns workspace_attach_tiling
columns_across = refl

workspace_across : (workspace_swap_columns 2 7 8 four).workspace 7 ≡ some 101
unfolding workspace_swap_columns workspace_attach_tiling
workspace_across = refl

floating_swapped :
    (workspace_swap_floating 2 1 2
        (workspace_add_floating 2 101 2 (workspace_add_floating 2 100 1 no_windows))).floating
      101
    ≡ 1 ∷ []
unfolding workspace_swap_floating workspace_add_floating
floating_swapped = refl

workspace_swap_columns-swapped_example :
    (workspace_swap_columns 2 7 1 three).links ≡ record (three.links) {
      tiling = set_at three.tiling 100 (map (swapped 7 1) (three.tiling 100));
    }
unfolding workspace_attach_tiling
workspace_swap_columns-swapped_example =
    workspace_swap_columns-swapped 2 7 1 100 three three-IsTree refl refl refl refl refl

-- The three columns come into a new container of the layout that the workspace had.
abbrev split_columns : Pending
split_columns = workspace_split 2 60 100 l_vert three

wrapped_columns : split_columns.children 60 ≡ 1 ∷ 2 ∷ 7 ∷ []
unfolding workspace_split workspace_attach_tiling
wrapped_columns = refl

wrapping_column : split_columns.tiling 100 ≡ 60 ∷ []
unfolding workspace_split workspace_attach_tiling
wrapping_column = refl

wrapped_workspace : split_columns.workspace 7 ≡ some 100
unfolding workspace_split workspace_attach_tiling
wrapped_workspace = refl
