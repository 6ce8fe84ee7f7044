-- ===== src/Tree/Pending/Destroy.antt =====
-- The end of containers and workspaces in the pending tree, and the pools of minimized windows:
-- container_begin_destroy and container_reap_empty of sway/tree/container.c, workspace_begin_destroy,
-- workspace_consider_destroy and workspace_detach of sway/tree/workspace.c,
-- root_scratchpad_remove_container and workspace_minimized_hide of sway/tree/root.c. What the seats
-- do when a node is destroyed is left out.
pub mod Trees
use swirl.Prelude.{
  ℕ, zero, suc, ◌==◌, Bool, true, false, not, ◌&&◌, ◌||◌, Option, none, some, List, [], ◌∷◌, ◌++◌,
  if◌then◌else◌, is_some,
}
use swirl.Prelude.Members.{member, unlink}
use swirl.Tree.Links.{set_at}
use swirl.Tree.Pending.{
  Pending, set_dirty, is_none_mode, is_workspace_mode, is_global_mode, set_ws_fullscreen,
  container_detach,
}
use swirl.Tree.Pending.Fullscreen.{container_fullscreen_disable}
use swirl.Tree.Pending.Reparent.{leave_pool}

-- What the rest of the compositor says of a workspace: whether it is the active workspace of its
-- output (`output_get_active_workspace`), and whether it is the node that some seat focused last.
pub record Shown : Type 0 where
  pub is_active : ℕ → Bool
  pub is_seat_focus : ℕ → Bool

abbrev pub is_empty {ℓ} : {A : Type ℓ} → List A → Bool
is_empty [] = true
is_empty (x ∷ xs) = false

-- `root_scratchpad_remove_container`
unfoldable pub root_scratchpad_remove_container : ℕ → Pending → Pending
root_scratchpad_remove_container c t =
    if t.scratchpad c
    then record t {
      scratchpad = set_at t.scratchpad c false;
      scratchpad_list = unlink c t.scratchpad_list;
    }
    else t

-- `if (con->scratchpad && con->pending.fullscreen_mode == FULLSCREEN_GLOBAL)` and the like.
abbrev disable_if : Bool → ℕ → Pending → Pending
disable_if test c t = if test then container_fullscreen_disable c t else t

-- `node_set_dirty(node); node->destroying = true;`
unfoldable pub mark_destroying : ℕ → Pending → Pending
unfolding set_dirty
mark_destroying i t =
    let t' = set_dirty i t in record t' { destroying = set_at t'.destroying i true }

-- `container_begin_destroy` up to the marks of the node.
unfoldable pub leave_fullscreen : ℕ → Pending → Pending
unfolding container_fullscreen_disable
leave_fullscreen c t =
    let t1 =
      if is_workspace_mode (t.fullscreen_mode c)
      then set_ws_fullscreen (t.workspace c) none t
      else t in
    disable_if (t1.scratchpad c && is_global_mode (t1.fullscreen_mode c)) c t1

-- `container_begin_destroy` up to `container_detach`.
unfoldable pub before_detach : ℕ → Pending → Pending
unfolding leave_fullscreen mark_destroying root_scratchpad_remove_container leave_pool
    container_fullscreen_disable
before_detach c t =
    let t1 = mark_destroying c (leave_fullscreen c t) in
    let t2 = leave_pool c (root_scratchpad_remove_container c t1) in
    disable_if (is_global_mode (t2.fullscreen_mode c)) c t2

-- `container_begin_destroy`
unfoldable pub container_begin_destroy : ℕ → ℕ → Pending → Pending
unfolding before_detach container_detach
container_begin_destroy depth c t =
    let t1 = before_detach c t in
    if is_some (t1.parent c) || is_some (t1.workspace c) then container_detach depth c t1 else t1

-- `workspace_detach`, of a workspace with an output.
unfoldable pub workspace_detach : ℕ → ℕ → Pending → Pending
unfolding set_dirty
workspace_detach w output t = set_dirty output (
    set_dirty w (record t {
      workspaces = set_at t.workspaces output (unlink w (t.workspaces output));
      ws_output = set_at t.ws_output w none;
    }))

-- `workspace_begin_destroy`
unfoldable pub workspace_begin_destroy : ℕ → Pending → Pending
unfolding workspace_detach mark_destroying
workspace_begin_destroy w t =
    mark_destroying w
      (elim (t.ws_output w) [ none ↦ t | some output ↦ workspace_detach w output t ])

-- `workspace_consider_destroy`
unfoldable pub workspace_consider_destroy : Shown → ℕ → Pending → Pending
unfolding workspace_begin_destroy
workspace_consider_destroy shown w t =
    if not (is_empty (t.tiling w) && is_empty (t.floating w) && is_empty (t.pool w))
    then t
    else if is_some (t.ws_output w) && shown.is_active w
    then t
    else if shown.is_seat_focus w
    then t
    else workspace_begin_destroy w t

-- The loop of `container_reap_empty`: whether it came to the top, and the tree.
unfoldable pub reap_loop : ℕ → ℕ → Option ℕ → Pending → Bool × Pending
unfolding container_begin_destroy
reap_loop zero depth o t = (false, t)
reap_loop (suc rounds) depth none t = (true, t)
reap_loop (suc rounds) depth (some c) t =
    let rest = reap_loop rounds depth (t.parent c) (container_begin_destroy depth c t) in
    if is_empty (t.children c) then rest else (false, t)

abbrev consider_if : Bool → Shown → Option ℕ → Pending → Pending
consider_if top shown none t = t
consider_if top shown (some w) t = if top then workspace_consider_destroy shown w t else t

-- The end of `container_reap_empty`, after its loop.
unfoldable pub finish_reap : Shown → Option ℕ → Bool × Pending → Pending
unfolding workspace_consider_destroy
finish_reap shown o (top, t) = consider_if top shown o t

-- `container_reap_empty`; the tree is no higher than `depth`.
unfoldable pub container_reap_empty : Shown → ℕ → ℕ → Pending → Pending
unfolding reap_loop finish_reap
container_reap_empty shown depth c t =
    if t.is_view c
    then t
    else finish_reap shown (t.workspace c) (reap_loop (suc depth) depth (some c) t)

abbrev pub reap_parent : Shown → ℕ → Option ℕ → Pending → Pending
reap_parent shown depth none t = t
reap_parent shown depth (some p) t = container_reap_empty shown depth p t

-- `container_is_floating`
unfoldable pub container_is_floating : ℕ → Pending → Bool
container_is_floating c t =
    not (is_some (t.parent c))
      && elim (t.workspace c) [ none ↦ false | some w ↦ member c (t.floating w) ]
    || t.scratchpad c

abbrev pub park : Option ℕ → ℕ → Pending → Pending
park none c t = t
park (some w) c t = record t { pool = set_at t.pool w (t.pool w ++ c ∷ []) }

-- `workspace_minimized_hide` up to `container_detach`.
unfoldable pub mark_minimized : ℕ → Pending → Pending
unfolding container_fullscreen_disable container_is_floating
mark_minimized c t =
    let t1 = disable_if (not (is_none_mode (t.fullscreen_mode c))) c t in
    record t1 {
      minimized_was_floating = set_at t1.minimized_was_floating c (container_is_floating c t1);
      minimized = set_at t1.minimized c true;
    }

-- `workspace_minimized_hide`, less the scene, the focus and the events.
unfoldable pub workspace_minimized_hide : Shown → ℕ → ℕ → Pending → Pending
unfolding mark_minimized container_detach container_reap_empty
workspace_minimized_hide shown depth c t =
    if t.minimized c
    then t
    else (let t1 = mark_minimized c t in
        park (t1.workspace c) c
          (reap_parent shown depth (t1.parent c) (container_detach depth c t1)))
