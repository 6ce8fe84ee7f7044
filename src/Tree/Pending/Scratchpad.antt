-- ===== src/Tree/Pending/Scratchpad.antt =====
-- Showing and hiding containers of the scratchpad: root_scratchpad_show and root_scratchpad_hide of
-- sway/tree/root.c, and container_raise_floating of sway/tree/container.c. Boxes, arranging and the
-- focus are left out.
pub mod Shows
use swirl.Prelude.{
  ℕ, zero, suc, Bool, true, false, not, ◌&&◌, Option, none, some, List, [], ◌∷◌, ◌++◌,
  if◌then◌else◌, is_some,
}
use swirl.Prelude.Members.{member, unlink}
use swirl.Tree.Links.{set_at, container_toplevel_ancestor}
use swirl.Tree.Pending.{Pending, set_dirty, is_none_mode, fullscreen_of, container_detach}
use swirl.Tree.Pending.Fullscreen.{container_fullscreen_disable, disable_pointed}
use swirl.Tree.Pending.Reparent.{workspace_add_floating}
use swirl.Tree.Pending.Destroy.{Shown, workspace_consider_destroy, container_is_floating}

-- `list_move_to_end`, which leaves a list without the item as it is.
abbrev pub move_to_end : ℕ → List ℕ → List ℕ
move_to_end c cs = if member c cs then unlink c cs ++ c ∷ [] else cs

-- `disable_fullscreen`
unfoldable pub disable_fullscreen : ℕ → Pending → Pending
unfolding container_fullscreen_disable
disable_fullscreen c t =
    if is_none_mode (t.fullscreen_mode c) then t else container_fullscreen_disable c t

-- `container_for_each_child(con, disable_fullscreen, NULL)` over the children of a container.
unfoldable pub each_disable_fullscreen : ℕ → List ℕ → Pending → Pending
unfolding disable_fullscreen
each_disable_fullscreen zero cs t = t
each_disable_fullscreen (suc depth) [] t = t
each_disable_fullscreen (suc depth) (c ∷ cs) t =
    let t1 = disable_fullscreen c t in
    each_disable_fullscreen (suc depth) cs (each_disable_fullscreen depth (t1.children c) t1)

-- `root_scratchpad_hide` up to `container_detach`.
unfoldable pub disable_below : ℕ → ℕ → Pending → Pending
unfolding disable_fullscreen each_disable_fullscreen
disable_below depth c t =
    let t1 = disable_fullscreen c t in each_disable_fullscreen depth (t1.children c) t1

abbrev last_in_scratchpad : ℕ → Pending → Pending
last_in_scratchpad c t = record t { scratchpad_list = move_to_end c t.scratchpad_list }

-- `root_scratchpad_hide`
unfoldable pub root_scratchpad_hide : ℕ → ℕ → Pending → Pending
unfolding disable_below container_detach
root_scratchpad_hide depth c t =
    if is_some (t.workspace c)
    then last_in_scratchpad c (container_detach depth c (disable_below depth c t))
    else t

abbrev pub raise_in : Option ℕ → ℕ → Pending → Pending
raise_in none c t = t
raise_in (some w) c t = set_dirty w (record t {
  links = record (t.links) { floating = set_at t.floating w (move_to_end c (t.floating w)) };
})

-- `container_raise_floating`
unfoldable pub container_raise_floating : ℕ → ℕ → Pending → Pending
unfolding container_is_floating set_dirty container_toplevel_ancestor
container_raise_floating depth c t =
    let floater = container_toplevel_ancestor depth c t.links in
    if container_is_floating floater t then raise_in (t.workspace floater) floater t else t

-- The container that `root_scratchpad_show` shows: of a hidden one, its ancestor without a parent.
abbrev pub to_show : ℕ → ℕ → Pending → ℕ
to_show depth c t =
    if is_some (t.workspace c) then c else container_toplevel_ancestor depth c t.links

abbrev pub detach_shown : ℕ → ℕ → Pending → Pending
detach_shown depth c t = if is_some (t.workspace c) then container_detach depth c t else t

abbrev pub consider_old : Shown → Option ℕ → Pending → Pending
consider_old shown none t = t
consider_old shown (some w) t = workspace_consider_destroy shown w t

-- `root_scratchpad_show` on the workspace that the seat focuses, if there is one.
unfoldable pub root_scratchpad_show : Shown → ℕ → Option ℕ → ℕ → Pending → Pending
unfolding disable_pointed container_detach workspace_add_floating workspace_consider_destroy
    container_raise_floating container_toplevel_ancestor
root_scratchpad_show shown depth none c t = t
root_scratchpad_show shown depth (some new_ws) c t =
    let t1 = disable_pointed (fullscreen_of (some new_ws) t) t in
    let t2 = disable_pointed t1.global_container t1 in
    let con = to_show depth c t2 in
    let t3 = workspace_add_floating depth new_ws con (detach_shown depth c t2) in
    container_raise_floating depth con (consider_old shown (t2.workspace c) t3)
