-- ===== src/Tree/Pending/Wrap.antt =====
-- The columns of a workspace put into one container: workspace_wrap_children and workspace_split of
-- sway/tree/workspace.c.
pub mod Steps
pub mod Trees
use swirl.Prelude.{
  ℕ, zero, suc, Bool, true, false, not, ◌&&◌, Option, none, some, List, [], ◌∷◌, if◌then◌else◌,
  length,
}
use swirl.Tree.Types.{Layout}
use swirl.Tree.Links.{set_at}
use swirl.Tree.Pending.{Pending, container_detach, set_ws_fullscreen}
use swirl.Tree.Pending.Reparent.{container_create, container_add_child, workspace_attach_tiling}
use swirl.Tree.Pending.Destroy.{is_empty}

-- The loop of workspace_wrap_children, with a round for each column.
unfoldable pub wrap_loop : ℕ → ℕ → ℕ → ℕ → Pending → Pending
unfolding container_detach container_add_child
wrap_loop zero depth ws middle t = t
wrap_loop (suc rounds) depth ws middle t = elim (t.tiling ws) [
  | [] ↦ t
  | child ∷ rest ↦
      wrap_loop rounds depth ws middle
        (container_add_child depth middle child (container_detach depth child t))
]

-- `workspace_wrap_children`; the new container is one higher than the columns.
unfoldable pub workspace_wrap_children : ℕ → ℕ → ℕ → Pending → Pending
unfolding container_create wrap_loop workspace_attach_tiling
workspace_wrap_children depth middle ws t =
    let t1 = container_create middle (t.ws_layout ws) t in
    set_ws_fullscreen (some ws) (t.ws_fullscreen ws) (
      workspace_attach_tiling (suc depth) ws middle
        (wrap_loop (length (t.tiling ws)) depth ws middle t1))

abbrev set_layouts : Layout → Layout → ℕ → ℕ → Pending → Pending
set_layouts layout old ws middle t = record t {
  ws_layout = set_at t.ws_layout ws layout;
  layout = set_at t.layout middle old;
}

-- `workspace_split`, less the focus.
unfoldable pub workspace_split : ℕ → ℕ → ℕ → Layout → Pending → Pending
unfolding workspace_wrap_children
workspace_split depth middle ws layout t =
    if is_empty (t.tiling ws)
    then record t { ws_layout = set_at t.ws_layout ws layout }
    else set_layouts layout (t.ws_layout ws) ws middle (workspace_wrap_children depth middle ws t)
