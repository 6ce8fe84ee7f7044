-- ===== src/Tree/Pending/Reparent.antt =====
-- The operations of sway/tree/container.c and sway/tree/workspace.c that move containers in the
-- pending tree. A container that is created has a number of its own, `fresh`.
pub mod Frames
pub mod Trees
pub mod Orders
use swirl.Prelude.{
  ℕ, zero, suc, ◌+◌, ◌==◌, Bool, true, false, not, ◌&&◌, ◌||◌, Option, none, some, List, [], ◌∷◌,
  ◌++◌, if◌then◌else◌, length,
}
use swirl.Prelude.Members.{member, unlink, insert_at, index_of}
use swirl.Tree.Types.{Layout, l_vert, fullscreen_none}
use swirl.Tree.Links.{
  Links, set_at, Siblings, of_children, of_tiling, of_floating, items, container_get_siblings,
  place_links,
}
use swirl.Tree.Pending.{Pending, set_dirty, container_detach, detach_if_placed}
use swirl.Tree.Pending.Fullscreen.{container_handle_fullscreen_reparent}

-- The container stands in the list `s`, now `xs`, its pointers are set, and its descendants and the
-- fullscreen pointers follow.
unfoldable pub place : ℕ → ℕ → Siblings → List ℕ → Option ℕ → Option ℕ → Pending → Pending
unfolding place_links container_handle_fullscreen_reparent
place depth c s xs p w t =
    container_handle_fullscreen_reparent depth c
      (record t { links = place_links depth c s xs p w t.links })

-- `container_insert_child`
unfoldable pub container_insert_child : ℕ → ℕ → ℕ → ℕ → Pending → Pending
unfolding place detach_if_placed
container_insert_child depth parent child i t =
    let t1 = detach_if_placed depth child t in
    place depth child (of_children parent) (insert_at i child (t1.children parent)) (some parent)
      (t1.workspace parent) t1

-- `container_add_sibling`; a container without siblings has no list to insert into.
unfoldable pub container_add_sibling : ℕ → ℕ → ℕ → Bool → Pending → Pending
unfolding place detach_if_placed container_get_siblings
container_add_sibling depth fixed active after t =
    let t1 = detach_if_placed depth active t in
    elim (container_get_siblings t1.links fixed) [
      | none ↦ t1
      | some s ↦
          (let xs = items t1.links s in
            let index = index_of fixed xs in
            place depth active s (insert_at (if after then index + 1 else index) active xs)
              (t1.parent fixed) (t1.workspace fixed) t1)
    ]

-- `container_add_child`
unfoldable pub container_add_child : ℕ → ℕ → ℕ → Pending → Pending
unfolding place detach_if_placed set_dirty
container_add_child depth parent child t =
    let t1 = detach_if_placed depth child t in
    set_dirty parent (
      set_dirty child (
        place depth child (of_children parent) (t1.children parent ++ child ∷ []) (some parent)
          (t1.workspace parent) t1))

-- `workspace_insert_tiling_direct`, which leaves the parent as it is.
unfoldable pub workspace_insert_tiling_direct : ℕ → ℕ → ℕ → ℕ → Pending → Pending
unfolding place set_dirty
workspace_insert_tiling_direct depth ws c i t = set_dirty c (
    set_dirty ws
      (place depth c (of_tiling ws) (insert_at i c (t.tiling ws)) (t.parent c) (some ws) t))

-- `workspace_attach_tiling`
unfoldable pub workspace_attach_tiling : ℕ → ℕ → ℕ → Pending → Pending
unfolding place set_dirty
workspace_attach_tiling depth ws c t =
    set_dirty c
      (set_dirty ws (place depth c (of_tiling ws) (t.tiling ws ++ c ∷ []) (t.parent c) (some ws) t))

-- `minimized_scan`
abbrev pub minimized_scan : ℕ → (ℕ → List ℕ) → List ℕ → Option ℕ
minimized_scan c pool [] = none
minimized_scan c pool (w ∷ ws) = if member c (pool w) then some w else minimized_scan c pool ws

-- The loop over the outputs.
abbrev pub scan_outputs : ℕ → Pending → List ℕ → Option ℕ
scan_outputs c t [] = none
scan_outputs c t (o ∷ os) = elim (minimized_scan c t.pool (t.workspaces o)) [
  | some w ↦ some w
  | none ↦ scan_outputs c t os
]

-- `workspace_minimized_owner`
unfoldable pub workspace_minimized_owner : ℕ → Pending → Option ℕ
workspace_minimized_owner c t = elim (scan_outputs c t t.outputs) [
  | some w ↦ some w
  | none ↦ elim (t.fallback_output) [
    | none ↦ none
    | some o ↦ minimized_scan c t.pool (t.workspaces o)
  ]
]

-- `workspace_minimized_remove`, less its result.
unfoldable pub workspace_minimized_remove : ℕ → Pending → Pending
unfolding workspace_minimized_owner
workspace_minimized_remove c t = elim (workspace_minimized_owner c t) [
  | none ↦ t
  | some w ↦ record t { pool = set_at t.pool w (unlink c (t.pool w)) }
]

-- `if (con->minimized) { workspace_minimized_remove(con); con->minimized = false; }`
unfoldable pub leave_pool : ℕ → Pending → Pending
unfolding workspace_minimized_remove
leave_pool c t =
    if t.minimized c
    then record (workspace_minimized_remove c t) { minimized = set_at t.minimized c false }
    else t

-- `workspace_add_floating`
unfoldable pub workspace_add_floating : ℕ → ℕ → ℕ → Pending → Pending
unfolding leave_pool detach_if_placed place set_dirty
workspace_add_floating depth ws c t =
    let t1 = detach_if_placed depth c (leave_pool c t) in
    set_dirty c (
      set_dirty ws
        (place depth c (of_floating ws) (t1.floating ws ++ c ∷ []) (t1.parent c) (some ws) t1))

-- `container_create(NULL)` and `col->pending.layout = layout;` for the new container `fresh`.
unfoldable pub container_create : ℕ → Layout → Pending → Pending
container_create fresh layout t = record t {
  is_view = set_at t.is_view fresh false;
  layout = set_at t.layout fresh layout;
  fullscreen_mode = set_at t.fullscreen_mode fresh fullscreen_none;
  scratchpad = set_at t.scratchpad fresh false;
  minimized = set_at t.minimized fresh false;
  dirty = set_at t.dirty fresh false;
  destroying = set_at t.destroying fresh false;
  links = record (t.links) {
    parent = set_at t.parent fresh none;
    workspace = set_at t.workspace fresh none;
    children = set_at t.children fresh [];
  };
}

-- `workspace_insert_tiling`, less the sizes; a view gets a column of its own.
unfoldable pub workspace_insert_tiling : ℕ → ℕ → ℕ → ℕ → ℕ → Pending → Pending
unfolding detach_if_placed container_create container_add_child workspace_insert_tiling_direct
workspace_insert_tiling depth fresh ws c i t =
    let t1 = detach_if_placed depth c t in
    let column = container_add_child depth fresh c (container_create fresh l_vert t1) in
    if t1.is_view c
    then workspace_insert_tiling_direct depth ws fresh i column
    else workspace_insert_tiling_direct depth ws c i t1
