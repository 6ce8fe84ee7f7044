-- ===== src/Tree/FloatingTests.antt =====
-- Runs of container_set_floating and root_scratchpad_add_container on a few containers.
use swirl.Prelude.{◌≡◌, refl, true, false, none, some, [], ◌∷◌}
use swirl.Tree.Pending.{Pending}
use swirl.Tree.Pending.History.{add_floating, set_floating, scratchpad_add, run_ops}
use swirl.Tree.Tests.{no_windows, shown}

-- Two floating windows become columns, the second before the first.
abbrev tiled : Pending
tiled =
    run_ops 2
      (add_floating 100 3
        ∷ add_floating 100 4
        ∷ set_floating shown 50 0 false 3
        ∷ set_floating shown 51 0 false 4
        ∷ [])
      no_windows

tiled_columns : tiled.tiling 100 ≡ 51 ∷ 50 ∷ []
unfolding run_ops
tiled_columns = refl

tiled_window : tiled.children 51 ≡ 4 ∷ []
unfolding run_ops
tiled_window = refl

tiled_workspace : tiled.workspace 4 ≡ some 100
unfolding run_ops
tiled_workspace = refl

-- The window goes to the scratchpad; its column, which is empty then, is destroyed.
abbrev parked : Pending
parked = run_ops 2 (scratchpad_add shown none 4 ∷ []) tiled

parked_list : parked.scratchpad_list ≡ 4 ∷ []
unfolding run_ops
parked_list = refl

parked_columns : parked.tiling 100 ≡ 50 ∷ []
unfolding run_ops
parked_columns = refl

parked_workspace : parked.workspace 4 ≡ none
unfolding run_ops
parked_workspace = refl

destroyed_column : parked.destroying 51 ≡ true
unfolding run_ops
destroyed_column = refl
