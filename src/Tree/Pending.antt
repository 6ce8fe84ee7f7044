-- ===== src/Tree/Pending.antt =====
-- The pending tree of sway/tree with what hangs on it: the links (Tree.Links), the fullscreen
-- pointers, the scratchpad, the pools of minimized windows, the workspaces of the outputs and the
-- marks of the nodes. Sizes, titles, the scene, the focus of seats and events to clients are no part
-- of this model. `depth` bounds the recursion into children.
pub mod Fullscreen
pub mod Reparent
pub mod Destroy
pub mod Scratchpad
pub mod Swap
pub mod Floating
pub mod Wrap
pub mod History
use swirl.Prelude.{
  ℕ, zero, suc, ◌==◌, Bool, true, false, not, ◌&&◌, ◌||◌, Option, none, some, List, [], ◌∷◌, ◌++◌,
  if◌then◌else◌,
}
use swirl.Prelude.Members.{member, unlink}
use swirl.Tree.Types.{
  Layout, FullscreenMode, fullscreen_none, fullscreen_workspace, fullscreen_global,
}
use swirl.Tree.Links.{Links, set_at, ancestor_from, container_has_ancestor, detach_links}

pub record Pending : Type 0 where
  pub links : Links
  pub open links use *
  -- containers: `view != NULL`, `pending.layout`, `pending.fullscreen_mode`, `scratchpad`, `minimized`,
  -- `minimized_was_floating`
  pub is_view : ℕ → Bool
  pub layout : ℕ → Layout
  pub fullscreen_mode : ℕ → FullscreenMode
  pub scratchpad : ℕ → Bool
  pub minimized : ℕ → Bool
  pub minimized_was_floating : ℕ → Bool
  -- workspaces: `layout`, `fullscreen`, `minimized`, `output`
  pub ws_layout : ℕ → Layout
  pub ws_fullscreen : ℕ → Option ℕ
  pub pool : ℕ → List ℕ
  pub ws_output : ℕ → Option ℕ
  -- outputs: `workspaces`
  pub workspaces : ℕ → List ℕ
  -- the root: `outputs`, `fallback_output`, `fullscreen_global`, `scratchpad`
  pub outputs : List ℕ
  pub fallback_output : Option ℕ
  pub global_container : Option ℕ
  pub scratchpad_list : List ℕ
  -- nodes
  pub dirty : ℕ → Bool
  pub destroying : ℕ → Bool
  pub dirty_nodes : List ℕ

-- `node_set_dirty`
unfoldable pub set_dirty : ℕ → Pending → Pending
set_dirty i t =
    if t.dirty i || t.destroying i
    then t
    else record t { dirty = set_at t.dirty i true; dirty_nodes = t.dirty_nodes ++ i ∷ [] }

abbrev set_dirty_opt : Option ℕ → Pending → Pending
set_dirty_opt none t = t
set_dirty_opt (some i) t = set_dirty i t

-- `pending.fullscreen_mode == …`
abbrev pub is_none_mode : FullscreenMode → Bool
is_none_mode fullscreen_none = true
is_none_mode fullscreen_workspace = false
is_none_mode fullscreen_global = false

abbrev pub is_workspace_mode : FullscreenMode → Bool
is_workspace_mode fullscreen_none = false
is_workspace_mode fullscreen_workspace = true
is_workspace_mode fullscreen_global = false

abbrev pub is_global_mode : FullscreenMode → Bool
is_global_mode fullscreen_none = false
is_global_mode fullscreen_workspace = false
is_global_mode fullscreen_global = true

-- The pointer is the container, or a container below it.
abbrev pub is_or_below : ℕ → ℕ → Option ℕ → Pending → Bool
is_or_below depth c none t = false
is_or_below depth c (some f) t = f == c || container_has_ancestor depth f c t.links

abbrev pub set_ws_fullscreen : Option ℕ → Option ℕ → Pending → Pending
set_ws_fullscreen none f t = t
set_ws_fullscreen (some w) f t = record t { ws_fullscreen = set_at t.ws_fullscreen w f }

abbrev pub fullscreen_of : Option ℕ → Pending → Option ℕ
fullscreen_of none t = none
fullscreen_of (some w) t = t.ws_fullscreen w

-- The first part of `container_detach`: the fullscreen pointers to the container or below it.
unfoldable pub clear_fullscreen : ℕ → ℕ → Pending → Pending
unfolding container_has_ancestor
clear_fullscreen depth c t =
    let w = t.workspace c in
    let t1 = if is_or_below depth c (fullscreen_of w t) t then set_ws_fullscreen w none t else t in
    if is_or_below depth c t1.global_container t1 then record t1 { global_container = none } else t1

-- The old parent, or else the old workspace, and the container itself become dirty.
unfoldable pub mark_detached : ℕ → Option ℕ → Option ℕ → Pending → Pending
unfolding set_dirty
mark_detached c (some p) w t = set_dirty c (set_dirty p t)
mark_detached c none w t = set_dirty c (set_dirty_opt w t)

unfoldable pub container_detach : ℕ → ℕ → Pending → Pending
unfolding clear_fullscreen detach_links mark_detached
container_detach depth c t =
    let t1 = clear_fullscreen depth c t in
    mark_detached c (t.parent c) (t.workspace c)
      (record t1 { links = detach_links depth c t1.links })

-- `if (child->pending.workspace) container_detach(child);`
unfoldable pub detach_if_placed : ℕ → ℕ → Pending → Pending
unfolding container_detach
detach_if_placed depth c t = elim (t.workspace c) [ none ↦ t | some w ↦ container_detach depth c t ]
