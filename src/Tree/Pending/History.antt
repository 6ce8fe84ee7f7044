-- ===== src/Tree/Pending/History.antt =====
-- Histories of the pending tree: any sequence of the operations of sway/tree/container.c,
-- sway/tree/workspace.c and sway/tree/root.c that move, hide or destroy containers.
use swirl.Prelude.{Option, ℕ, suc, ◌==◌, ◌≡◌, Bool, false, some, List, [], ◌∷◌}
use swirl.Tree.Types.{FullscreenMode, Layout}
use swirl.Tree.Links.Depth.{Within, Avoids}
use swirl.Tree.Links.Moves.{IsTree}
use swirl.Tree.Links.Free.{IsMovable, IsFree}
use swirl.Tree.Pending.{Pending, container_detach}
use swirl.Tree.Pending.Fullscreen.{container_set_fullscreen}
use swirl.Tree.Pending.Reparent.{
  container_insert_child, container_add_sibling, container_add_child,
  workspace_insert_tiling_direct, workspace_attach_tiling, workspace_add_floating,
}
use swirl.Tree.Pending.Reparent.Trees.{
  container_detach-IsTree, container_insert_child-IsTree, container_add_sibling-IsTree,
  container_add_child-IsTree, workspace_insert_tiling_direct-IsTree, workspace_attach_tiling-IsTree,
  workspace_add_floating-IsTree,
}
use swirl.Tree.Pending.Scratchpad.{
  to_show, root_scratchpad_show, root_scratchpad_hide, container_raise_floating,
}
use swirl.Tree.Pending.Scratchpad.Shows.{
  root_scratchpad_show-IsTree, root_scratchpad_hide-IsTree, container_raise_floating-IsTree,
}
use swirl.Tree.Pending.Floating.{container_set_floating, root_scratchpad_add_container}
use swirl.Tree.Pending.Floating.Columns.{IsUnused}
use swirl.Tree.Pending.Floating.Trees.{container_set_floating-IsTree}
use swirl.Tree.Pending.Floating.Scratchpads.{root_scratchpad_add_container-IsTree}
use swirl.Tree.Pending.Wrap.{workspace_wrap_children, workspace_split}
use swirl.Tree.Pending.Wrap.Trees.{workspace_wrap_children-IsTree, workspace_split-IsTree}
use swirl.Tree.Pending.Swap.{workspace_swap_columns, workspace_swap_floating}
use swirl.Tree.Pending.Swap.Trees.{workspace_swap_columns-IsTree, workspace_swap_floating-IsTree}
use swirl.Tree.Pending.Destroy.{
  Shown, container_begin_destroy, workspace_consider_destroy, container_reap_empty,
  workspace_minimized_hide,
}
use swirl.Tree.Pending.Destroy.Trees.{
  links-set_fullscreen, links-consider, container_begin_destroy-IsTree, container_reap_empty-IsTree,
  workspace_minimized_hide-IsTree,
}

-- A call of an operation: a target, then the container that moves.
pub data TreeOp : Type 0 where
  insert_child : ℕ → ℕ → ℕ → TreeOp
  add_sibling : ℕ → ℕ → Bool → TreeOp
  add_child : ℕ → ℕ → TreeOp
  insert_tiling : ℕ → ℕ → ℕ → TreeOp
  attach_tiling : ℕ → ℕ → TreeOp
  add_floating : ℕ → ℕ → TreeOp
  detach : ℕ → TreeOp
  set_fullscreen : ℕ → FullscreenMode → TreeOp
  begin_destroy : ℕ → TreeOp
  reap_empty : Shown → ℕ → TreeOp
  consider_destroy : Shown → ℕ → TreeOp
  minimized_hide : Shown → ℕ → TreeOp
  scratchpad_show : Shown → Option ℕ → ℕ → TreeOp
  scratchpad_hide : ℕ → TreeOp
  raise_floating : ℕ → TreeOp
  swap_columns : ℕ → ℕ → TreeOp
  swap_floating : ℕ → ℕ → TreeOp
  set_floating : Shown → ℕ → ℕ → Bool → ℕ → TreeOp
  scratchpad_add : Shown → Option ℕ → ℕ → TreeOp
  wrap_children : ℕ → ℕ → TreeOp
  split : ℕ → ℕ → Layout → TreeOp

unfoldable pub apply_op : ℕ → TreeOp → Pending → Pending
unfolding container_insert_child container_add_sibling container_add_child root_scratchpad_show
    root_scratchpad_hide container_raise_floating workspace_insert_tiling_direct
    workspace_attach_tiling workspace_add_floating container_detach container_set_fullscreen
    container_begin_destroy container_reap_empty workspace_consider_destroy workspace_minimized_hide
    workspace_swap_columns workspace_swap_floating container_set_floating
    root_scratchpad_add_container workspace_wrap_children workspace_split
apply_op depth (insert_child p c i) t = container_insert_child depth p c i t
apply_op depth (add_sibling fixed c after) t = container_add_sibling depth fixed c after t
apply_op depth (add_child p c) t = container_add_child depth p c t
apply_op depth (insert_tiling w c i) t = workspace_insert_tiling_direct depth w c i t
apply_op depth (attach_tiling w c) t = workspace_attach_tiling depth w c t
apply_op depth (add_floating w c) t = workspace_add_floating depth w c t
apply_op depth (detach c) t = container_detach depth c t
apply_op depth (set_fullscreen c m) t = container_set_fullscreen c m t
apply_op depth (begin_destroy c) t = container_begin_destroy depth c t
apply_op depth (reap_empty shown c) t = container_reap_empty shown depth c t
apply_op depth (consider_destroy shown w) t = workspace_consider_destroy shown w t
apply_op depth (minimized_hide shown c) t = workspace_minimized_hide shown depth c t
apply_op depth (scratchpad_show shown w c) t = root_scratchpad_show shown depth w c t
apply_op depth (scratchpad_hide c) t = root_scratchpad_hide depth c t
apply_op depth (raise_floating c) t = container_raise_floating depth c t
apply_op depth (swap_columns a b) t = workspace_swap_columns depth a b t
apply_op depth (swap_floating a b) t = workspace_swap_floating depth a b t
apply_op depth (set_floating shown fresh idx enable c) t =
    container_set_floating shown depth fresh idx enable c t
apply_op depth (scratchpad_add shown ws c) t = root_scratchpad_add_container shown depth ws c t
apply_op depth (wrap_children middle ws) t = workspace_wrap_children depth middle ws t
apply_op depth (split middle ws layout) t = workspace_split depth middle ws layout t

-- What the caller of an operation sees to: the tree below the container is within the depth, a
-- container without a workspace has no parent (it is not detached first), no container is put below
-- itself or beside itself, the two calls that do not detach the container get a detached one, and a
-- column that is created has a number that no other container has.
abbrev pub IsAllowed : ℕ → TreeOp → Pending → Type 0
IsAllowed depth (insert_child p c i) t =
    IsMovable depth c t.links × Avoids t.children p (suc depth) (c ∷ [])
IsAllowed depth (add_sibling fixed c after) t =
    IsMovable depth c t.links
    × ((c == fixed) ≡ false)
    × ((q : ℕ) → t.parent fixed ≡ some q → Avoids t.children q (suc depth) (c ∷ []))
IsAllowed depth (add_child p c) t =
    IsMovable depth c t.links × Avoids t.children p (suc depth) (c ∷ [])
IsAllowed depth (insert_tiling w c i) t = IsFree depth c t.links
IsAllowed depth (attach_tiling w c) t = IsFree depth c t.links
IsAllowed depth (add_floating w c) t = IsMovable depth c t.links
IsAllowed depth (detach c) t = Within t.children (suc depth) (c ∷ [])
IsAllowed depth (set_fullscreen c m) t = Unit
IsAllowed depth (begin_destroy c) t = Within t.children (suc depth) (c ∷ [])
IsAllowed depth (reap_empty shown c) t = Unit
IsAllowed depth (consider_destroy shown w) t = Unit
IsAllowed depth (minimized_hide shown c) t = Within t.children (suc depth) (c ∷ [])
IsAllowed depth (scratchpad_show shown w c) t = IsMovable depth (to_show depth c t) t.links
IsAllowed depth (scratchpad_hide c) t = Within t.children (suc depth) (c ∷ [])
IsAllowed depth (raise_floating c) t = Unit
IsAllowed depth (swap_columns a b) t =
    Within t.children (suc depth) (a ∷ []) × Within t.children (suc depth) (b ∷ [])
IsAllowed depth (swap_floating a b) t =
    Within t.children (suc depth) (a ∷ []) × Within t.children (suc depth) (b ∷ [])
IsAllowed depth (set_floating shown fresh idx enable c) t =
    Within t.children (suc depth) (c ∷ [])
    × (enable ≡ false → IsUnused fresh t.links × ((fresh == c) ≡ false))
IsAllowed depth (scratchpad_add shown ws c) t = Within t.children (suc depth) (c ∷ [])
IsAllowed depth (wrap_children middle ws) t =
    IsUnused middle t.links × Within t.children (suc depth) (t.tiling ws)
IsAllowed depth (split middle ws layout) t =
    IsUnused middle t.links × Within t.children (suc depth) (t.tiling ws)

unfoldable pub run_ops : ℕ → List TreeOp → Pending → Pending
unfolding apply_op
run_ops depth [] t = t
run_ops depth (op ∷ ops) t = run_ops depth ops (apply_op depth op t)

-- Every operation is allowed where it runs.
abbrev pub IsAllowedRun : ℕ → List TreeOp → Pending → Type 0
IsAllowedRun depth [] t = Unit
IsAllowedRun depth (op ∷ ops) t =
    IsAllowed depth op t × IsAllowedRun depth ops (apply_op depth op t)

apply_op-IsTree :
    (depth : ℕ) (op : TreeOp) (t : Pending)
    → IsTree t.links
    → IsAllowed depth op t
    → IsTree (apply_op depth op t).links
unfolding apply_op
apply_op-IsTree depth (insert_child p c i) t v h =
    container_insert_child-IsTree depth p c i t v h.0 h.1
apply_op-IsTree depth (add_sibling fixed c after) t v h =
    container_add_sibling-IsTree depth fixed c after t v h.0 h.1 h.2
apply_op-IsTree depth (add_child p c) t v h = container_add_child-IsTree depth p c t v h.0 h.1
apply_op-IsTree depth (insert_tiling w c i) t v h =
    workspace_insert_tiling_direct-IsTree depth w c i t h
apply_op-IsTree depth (attach_tiling w c) t v h = workspace_attach_tiling-IsTree depth w c t h
apply_op-IsTree depth (add_floating w c) t v h = workspace_add_floating-IsTree depth w c t v h
apply_op-IsTree depth (detach c) t v h = container_detach-IsTree depth c t v h
apply_op-IsTree depth (set_fullscreen c m) t v h = rw (links-set_fullscreen c m t) v
apply_op-IsTree depth (begin_destroy c) t v h = container_begin_destroy-IsTree depth c t v h
apply_op-IsTree depth (reap_empty shown c) t v h = container_reap_empty-IsTree shown depth c t v
apply_op-IsTree depth (consider_destroy shown w) t v h = rw (links-consider shown w t) v
apply_op-IsTree depth (minimized_hide shown c) t v h =
    workspace_minimized_hide-IsTree shown depth c t v h
apply_op-IsTree depth (scratchpad_show shown w c) t v h =
    root_scratchpad_show-IsTree shown depth w c t v h
apply_op-IsTree depth (scratchpad_hide c) t v h = root_scratchpad_hide-IsTree depth c t v h
apply_op-IsTree depth (raise_floating c) t v h = container_raise_floating-IsTree depth c t v
apply_op-IsTree depth (swap_columns a b) t v h = workspace_swap_columns-IsTree depth a b t v h.0 h.1
apply_op-IsTree depth (swap_floating a b) t v h =
    workspace_swap_floating-IsTree depth a b t v h.0 h.1
apply_op-IsTree depth (set_floating shown fresh idx enable c) t v h =
    container_set_floating-IsTree shown depth fresh idx enable c t v h.0 h.1
apply_op-IsTree depth (scratchpad_add shown ws c) t v h =
    root_scratchpad_add_container-IsTree shown depth ws c t v h
apply_op-IsTree depth (wrap_children middle ws) t v h =
    workspace_wrap_children-IsTree depth middle ws t v h.0 h.1
apply_op-IsTree depth (split middle ws layout) t v h =
    workspace_split-IsTree depth middle ws layout t v h.0 h.1

-- Whatever sequence of these operations runs on a pending tree, it stays one: every container
-- stands exactly once in the one list that its parent and workspace pointers name and in no other
-- list, and every container below another is in the workspace of its parent. The conditions are
-- those of `IsAllowed`, at each operation.
pub run_ops-IsTree :
    (depth : ℕ) (ops : List TreeOp) (t : Pending)
    → IsTree t.links
    → IsAllowedRun depth ops t
    → IsTree (run_ops depth ops t).links
unfolding run_ops
run_ops-IsTree depth [] t v h = v
run_ops-IsTree depth (op ∷ ops) t v h =
    run_ops-IsTree depth ops (apply_op depth op t) (apply_op-IsTree depth op t v h.0) h.1
