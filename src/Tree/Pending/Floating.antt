-- ===== src/Tree/Pending/Floating.antt =====
-- Containers that begin or cease to float, and that go to the scratchpad: container_set_floating of
-- sway/tree/container.c and root_scratchpad_add_container of sway/tree/root.c. Sizes, borders, views
-- and the focus are left out; `fresh` is the column that is created, and `idx`, which the code finds
-- from the positions, is where it goes.
pub mod Columns
pub mod Trees
pub mod Scratchpads
use swirl.Prelude.{
  ℕ, zero, suc, Bool, true, false, not, Option, none, some, List, [], ◌∷◌, ◌++◌, if◌then◌else◌,
}
use swirl.Prelude.Members.{insert_at}
use swirl.Tree.Types.{l_vert}
use swirl.Tree.Links.{Links, set_at, each_set_workspace}
use swirl.Tree.Pending.{Pending, set_dirty, container_detach}
use swirl.Tree.Pending.Fullscreen.{container_handle_fullscreen_reparent}
use swirl.Tree.Pending.Reparent.{container_create, container_add_child, workspace_add_floating}
use swirl.Tree.Pending.Destroy.{
  Shown, root_scratchpad_remove_container, reap_parent, container_is_floating, container_reap_empty,
}
use swirl.Tree.Pending.Scratchpad.{disable_fullscreen}

-- The new column, its workspace set, with the container in it.
unfoldable pub column_around : ℕ → ℕ → ℕ → ℕ → Pending → Pending
unfolding container_create container_add_child
column_around depth fresh ws c t =
    let t1 = container_create fresh l_vert t in
    container_add_child depth fresh c
      (record t1 { links = record (t1.links) { workspace = set_at t1.workspace fresh (some ws) } })

-- The column gets its place among the columns of the workspace.
unfoldable pub insert_column_links : ℕ → ℕ → ℕ → ℕ → Links → Links
unfolding each_set_workspace
insert_column_links depth fresh ws idx l =
    let l1 = record l { tiling = set_at l.tiling ws (insert_at idx fresh (l.tiling ws)) } in
    each_set_workspace depth (l1.children fresh) l1

unfoldable pub insert_column : ℕ → ℕ → ℕ → ℕ → Pending → Pending
unfolding insert_column_links container_handle_fullscreen_reparent set_dirty
insert_column depth fresh ws idx t =
    let t1 = record t { links = insert_column_links depth fresh ws idx t.links } in
    set_dirty fresh (set_dirty ws (container_handle_fullscreen_reparent depth fresh t1))

abbrev pub leave_scratchpad : ℕ → Pending → Pending
leave_scratchpad c t = if t.scratchpad c then root_scratchpad_remove_container c t else t

-- The two branches of container_set_floating, for a container on the workspace `ws`; the column is one
-- higher than the container.
unfoldable pub begin_floating : Shown → ℕ → ℕ → ℕ → Pending → Pending
unfolding container_detach workspace_add_floating container_reap_empty
begin_floating shown depth ws c t =
    reap_parent shown depth (t.parent c)
      (workspace_add_floating depth ws c (container_detach depth c t))

unfoldable pub cease_floating : ℕ → ℕ → ℕ → ℕ → ℕ → Pending → Pending
unfolding root_scratchpad_remove_container container_detach column_around insert_column
cease_floating depth fresh idx ws c t =
    insert_column (suc depth) fresh ws idx
      (column_around depth fresh ws c (container_detach depth c (leave_scratchpad c t)))

-- `container_set_floating` of a container on a workspace.
unfoldable pub container_set_floating : Shown → ℕ → ℕ → ℕ → Bool → ℕ → Pending → Pending
unfolding container_is_floating begin_floating cease_floating
container_set_floating shown depth fresh idx enable c t = elim (t.workspace c) [
  | none ↦ t
  | some ws ↦
      if container_is_floating c t
      then (if enable then t else cease_floating depth fresh idx ws c t)
      else if enable
      then begin_floating shown depth ws c t
      else t
]

unfoldable pub float_if_tiled : Shown → ℕ → ℕ → Pending → Pending
unfolding container_set_floating container_is_floating
float_if_tiled shown depth c t =
    if container_is_floating c t then t else container_set_floating shown depth 0 0 true c t

-- `con->scratchpad = true; list_add(root->scratchpad, con);`
abbrev pub enter_scratchpad : ℕ → Pending → Pending
enter_scratchpad c t = record t {
  scratchpad = set_at t.scratchpad c true;
  scratchpad_list = t.scratchpad_list ++ c ∷ [];
}

abbrev pub add_floating_on : ℕ → Option ℕ → ℕ → Pending → Pending
add_floating_on depth none c t = t
add_floating_on depth (some ws) c t = workspace_add_floating depth ws c t

-- `root_scratchpad_add_container`; a container that begins to float makes no column.
unfoldable pub root_scratchpad_add_container : Shown → ℕ → Option ℕ → ℕ → Pending → Pending
unfolding disable_fullscreen float_if_tiled container_detach workspace_add_floating
root_scratchpad_add_container shown depth ws c t =
    if t.scratchpad c
    then t
    else add_floating_on depth ws c (
        enter_scratchpad c
          (container_detach depth c (float_if_tiled shown depth c (disable_fullscreen c t))))
