-- ===== src/Tree/Pending/Swap.antt =====
-- Two columns or two floating containers that change places: workspace_swap_columns and
-- workspace_swap_floating of sway/tree/workspace.c. Sizes and positions, which change hands too, are
-- left out.
pub mod Exchanges
pub mod Settled
pub mod Trees
pub mod Places
use Prim.Native.Nat.{min}
use swirl.Prelude.{
  ℕ, zero, suc, ◌-◌, ◌==◌, ltb, Bool, true, false, not, ◌&&◌, Option, none, some, List, [], ◌∷◌,
  ◌++◌, if◌then◌else◌, length,
}
use swirl.Prelude.Members.{member, unlink, insert_at, index_of}
use swirl.Tree.Links.{
  Links, set_at, Siblings, of_tiling, of_floating, each_set_workspace, put_links,
}
use swirl.Tree.Pending.{Pending, set_dirty, container_detach}
use swirl.Tree.Pending.Fullscreen.{container_handle_fullscreen_reparent}

-- The index at which `a` is inserted again, if both columns are on one workspace.
abbrev pub adj : ℕ → ℕ → List ℕ → ℕ
adj a b tiling =
    if ltb (index_of a tiling) (index_of b tiling) then index_of b tiling - 1 else index_of b tiling

-- The moves in `tiling`.
abbrev pub swap_in_list : ℕ → ℕ → List ℕ → List ℕ
swap_in_list a b tiling =
    let moved = insert_at (adj a b tiling) a (unlink a tiling) in
    if member b moved then insert_at (index_of a tiling) b (unlink b moved) else moved

-- Two detached containers get their places, `a` in the list `sa` of the workspace `wb`, and `b` in the
-- list `sb` of the workspace `wa`, and their descendants the workspaces.
unfoldable pub exchange_links :
    ℕ → ℕ → ℕ → Siblings → Siblings → List ℕ → List ℕ → ℕ → ℕ → Links → Links
unfolding put_links each_set_workspace
exchange_links depth a b sa sb xa xb wa wb l =
    let la = put_links a sa xa (l.parent a) (some wb) l in
    let lb = put_links b sb xb (la.parent b) (some wa) la in
    let l1 = each_set_workspace depth (lb.children a) lb in
    each_set_workspace depth (l1.children b) l1

-- The same with the fullscreen pointers.
unfoldable pub exchange :
    ℕ → ℕ → ℕ → Siblings → Siblings → List ℕ → List ℕ → ℕ → ℕ → Pending → Pending
unfolding exchange_links container_handle_fullscreen_reparent
exchange depth a b sa sb xa xb wa wb t = container_handle_fullscreen_reparent depth b (
    container_handle_fullscreen_reparent depth a
      (record t { links = exchange_links depth a b sa sb xa xb wa wb t.links }))

abbrev pub detach_both : ℕ → ℕ → ℕ → Pending → Pending
detach_both depth a b t = container_detach depth b (container_detach depth a t)

-- `node_set_dirty` for the workspaces and the containers.
abbrev pub all_dirty : ℕ → ℕ → ℕ → ℕ → Pending → Pending
all_dirty wa wb a b t = set_dirty b (set_dirty a (set_dirty wb (set_dirty wa t)))

-- The branch of workspace_swap_columns for two workspaces.
unfoldable pub swap_across : ℕ → ℕ → ℕ → ℕ → ℕ → Pending → Pending
unfolding container_detach exchange set_dirty
swap_across depth a b wa wb t =
    let t1 = detach_both depth a b t in
    let idx_a = min (index_of a (t.tiling wa)) (length (t1.tiling wb)) in
    let idx_b = min (index_of b (t.tiling wb)) (length (t1.tiling wa)) in
    all_dirty wa wb a b (
      exchange depth a b (of_tiling wb) (of_tiling wa) (insert_at idx_a a (t1.tiling wb))
        (insert_at idx_b b (t1.tiling wa)) wa wb t1)

-- The branch for one workspace.
unfoldable pub swap_within : ℕ → ℕ → ℕ → Pending → Pending
unfolding set_dirty
swap_within a b w t = set_dirty b (
    set_dirty a (
      set_dirty w (record t {
        links = record (t.links) { tiling = set_at t.tiling w (swap_in_list a b (t.tiling w)) };
      })))

-- The branches for columns that stand in the tiling lists of these workspaces.
unfoldable pub swap_columns_in : ℕ → ℕ → ℕ → ℕ → ℕ → Pending → Pending
unfolding swap_within swap_across
swap_columns_in depth a b wa wb t =
    if not (member a (t.tiling wa) && member b (t.tiling wb))
    then t
    else if wa == wb
    then swap_within a b wa t
    else swap_across depth a b wa wb t

-- A function on two containers and their workspaces, if they have both.
abbrev pub with_workspaces : Option ℕ → Option ℕ → (ℕ → ℕ → Pending → Pending) → Pending → Pending
with_workspaces none o f t = t
with_workspaces (some wa) none f t = t
with_workspaces (some wa) (some wb) f t = f wa wb t

-- `workspace_swap_columns`
unfoldable pub workspace_swap_columns : ℕ → ℕ → ℕ → Pending → Pending
unfolding swap_columns_in
workspace_swap_columns depth a b t =
    if a == b
    then t
    else with_workspaces (t.workspace a) (t.workspace b) (swap_columns_in depth a b) t

-- The branches of workspace_swap_floating.
unfoldable pub swap_floating_in : ℕ → ℕ → ℕ → ℕ → ℕ → Pending → Pending
unfolding container_detach exchange set_dirty
swap_floating_in depth a b wa wb t =
    if wa == wb
    then set_dirty b (set_dirty a t)
    else (let t1 = detach_both depth a b t in
        all_dirty wa wb a b (
          exchange depth a b (of_floating wb) (of_floating wa) (t1.floating wb ++ a ∷ [])
            (t1.floating wa ++ b ∷ []) wa wb t1))

-- `workspace_swap_floating`, of containers that are on workspaces.
unfoldable pub workspace_swap_floating : ℕ → ℕ → ℕ → Pending → Pending
unfolding swap_floating_in
workspace_swap_floating depth a b t =
    if a == b
    then t
    else with_workspaces (t.workspace a) (t.workspace b) (swap_floating_in depth a b) t
