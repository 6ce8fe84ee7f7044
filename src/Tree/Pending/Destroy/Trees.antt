-- ===== src/Tree/Pending/Destroy/Trees.antt =====
-- The end of containers and workspaces (sway/tree/container.c, sway/tree/workspace.c,
-- sway/tree/root.c) on the links of the pending tree.
use swirl.Prelude.{
  ℕ, zero, suc, ◌≡◌, refl, ◌∙◌, sym, arith, Bool, true, false, ◌||◌, Option, none, some, List, [],
  ◌∷◌, inl, inr, Bool-cases, List-cases, is_some,
}
use mathlib.Core.Path.{subst}
use swirl.Tree.Types.{FullscreenMode, fullscreen_none, fullscreen_workspace, fullscreen_global}
use swirl.Tree.Links.Depth.{Within}
use swirl.Tree.Links.Moves.{IsTree}
use swirl.Tree.Pending.{Pending, is_global_mode}
use swirl.Tree.Pending.Fullscreen.{
  container_fullscreen_workspace, container_fullscreen_global, disable_pointed,
  container_set_fullscreen,
}
use swirl.Tree.Pending.Reparent.{leave_pool}
use swirl.Tree.Pending.{container_detach}
use swirl.Tree.Pending.Reparent.Frames.{
  links-set_dirty, links-disable, links-disable_pointed, links-leave_pool,
}
use swirl.Tree.Pending.Reparent.Trees.{container_detach-IsTree}
use swirl.Tree.Pending.Destroy.{
  Shown, mark_destroying, root_scratchpad_remove_container, leave_fullscreen, before_detach,
  container_begin_destroy, workspace_detach, workspace_begin_destroy, workspace_consider_destroy,
  reap_loop, finish_reap, container_reap_empty, reap_parent, park, mark_minimized,
  workspace_minimized_hide,
}

pub links-set_fullscreen :
    (c : ℕ) (m : FullscreenMode) (t : Pending) → (container_set_fullscreen c m t).links ≡ t.links
unfolding container_set_fullscreen container_fullscreen_workspace container_fullscreen_global
links-set_fullscreen c fullscreen_none t = ground (arith, links-disable c t)
links-set_fullscreen c fullscreen_workspace t =
    ground (arith, links-disable_pointed t.global_container t)
links-set_fullscreen c fullscreen_global t =
    let t1 = disable_pointed t.global_container t in
    ground (arith, links-disable_pointed t.global_container t, links-disable c t1)

links-mark_destroying : (i : ℕ) (t : Pending) → (mark_destroying i t).links ≡ t.links
unfolding mark_destroying
links-mark_destroying i t = links-set_dirty i t

links-begin_workspace : (w : ℕ) (t : Pending) → (workspace_begin_destroy w t).links ≡ t.links
unfolding workspace_begin_destroy workspace_detach
links-begin_workspace w t = ground (arith)

pub links-consider :
    (shown : Shown) (w : ℕ) (t : Pending) → (workspace_consider_destroy shown w t).links ≡ t.links
unfolding workspace_consider_destroy
links-consider shown w t = ground (arith, links-begin_workspace w t)

pub links-scratchpad_remove :
    (c : ℕ) (t : Pending) → (root_scratchpad_remove_container c t).links ≡ t.links
unfolding root_scratchpad_remove_container
links-scratchpad_remove c t = ground arith

links-leave_fullscreen : (c : ℕ) (t : Pending) → (leave_fullscreen c t).links ≡ t.links
unfolding leave_fullscreen
links-leave_fullscreen c t = ground arith

pub links-before_detach : (c : ℕ) (t : Pending) → (before_detach c t).links ≡ t.links
unfolding before_detach
links-before_detach c t =
    let t1 = mark_destroying c (leave_fullscreen c t) in
    let t2 = root_scratchpad_remove_container c t1 in
    let t3 = leave_pool c t2 in
    let e1 = links-mark_destroying c (leave_fullscreen c t) ∙ links-leave_fullscreen c t in
    let e3 = links-leave_pool c t2 ∙ links-scratchpad_remove c t1 ∙ e1 in
    elim (Bool-cases (is_global_mode (t3.fullscreen_mode c))) [
      | inl g ↦ rw g (links-disable c t3 ∙ e3)
      | inr g ↦ rw g e3
    ]

pub container_begin_destroy-IsTree :
    (depth c : ℕ) (t : Pending)
    → IsTree t.links
    → Within t.children (suc depth) (c ∷ [])
    → IsTree (container_begin_destroy depth c t).links
unfolding container_begin_destroy
container_begin_destroy-IsTree depth c t v h =
    let t1 = before_detach c t in
    let same = links-before_detach c t in
    let v1 : IsTree t1.links = rw same v in
    elim (Bool-cases (is_some (t1.parent c) || is_some (t1.workspace c))) [
      | inr alone ↦ rw alone v1
      | inl linked ↦ rw linked (
          container_detach-IsTree depth c t1 v1
            (subst (λ l. Within l.children (suc depth) (c ∷ [])) (sym same) h))
    ]

Within-nil : (ch : ℕ → List ℕ) (depth : ℕ) → Within ch depth []
Within-nil ch zero = refl
Within-nil ch (suc depth) = tt

reap_loop-IsTree :
    (rounds depth : ℕ) (o : Option ℕ) (t : Pending)
    → IsTree t.links
    → IsTree (reap_loop rounds depth o t).1.links
unfolding reap_loop
reap_loop-IsTree zero depth o t v = v
reap_loop-IsTree (suc rounds) depth none t v = v
reap_loop-IsTree (suc rounds) depth (some c) t v = elim (List-cases (t.children c)) [
  | inr (x, xs, e) ↦ rw e v
  | inl e ↦ rw e (
      reap_loop-IsTree rounds depth (t.parent c) (container_begin_destroy depth c t)
        (container_begin_destroy-IsTree depth c t v (rw e (Within-nil t.children depth), tt)))
]

finish_reap-IsTree :
    (shown : Shown) (o : Option ℕ) (top : Bool) (t : Pending)
    → IsTree t.links
    → IsTree (finish_reap shown o (top, t)).links
unfolding finish_reap
finish_reap-IsTree shown none top t v = v
finish_reap-IsTree shown (some w) true t v = rw (links-consider shown w t) v
finish_reap-IsTree shown (some w) false t v = v

pub container_reap_empty-IsTree :
    (shown : Shown) (depth c : ℕ) (t : Pending)
    → IsTree t.links
    → IsTree (container_reap_empty shown depth c t).links
unfolding container_reap_empty
container_reap_empty-IsTree shown depth c t v =
    let r = reap_loop (suc depth) depth (some c) t in
    elim (Bool-cases (t.is_view c)) [
      | inl e ↦ rw (container_reap_empty, e) v
      | inr e ↦
          rw (container_reap_empty, e)
            (finish_reap-IsTree shown (t.workspace c) (r.0) (r.1)
              (reap_loop-IsTree (suc depth) depth (some c) t v))
    ]

links-mark_minimized : (c : ℕ) (t : Pending) → (mark_minimized c t).links ≡ t.links
unfolding mark_minimized
links-mark_minimized c t = ground (arith, links-disable c t)

links-park : (o : Option ℕ) (c : ℕ) (t : Pending) → (park o c t).links ≡ t.links
links-park none c t = refl
links-park (some w) c t = refl

pub reap_parent-IsTree :
    (shown : Shown) (depth : ℕ) (o : Option ℕ) (t : Pending)
    → IsTree t.links
    → IsTree (reap_parent shown depth o t).links
reap_parent-IsTree shown depth none t v = v
reap_parent-IsTree shown depth (some p) t v = container_reap_empty-IsTree shown depth p t v

pub workspace_minimized_hide-IsTree :
    (shown : Shown) (depth c : ℕ) (t : Pending)
    → IsTree t.links
    → Within t.children (suc depth) (c ∷ [])
    → IsTree (workspace_minimized_hide shown depth c t).links
unfolding workspace_minimized_hide
workspace_minimized_hide-IsTree shown depth c t v h =
    let t1 = mark_minimized c t in
    let same = links-mark_minimized c t in
    let t2 = container_detach depth c t1 in
    elim (Bool-cases (t.minimized c)) [
      | inl e ↦ rw e v
      | inr e ↦
          rw (e, links-park (t1.workspace c) c (reap_parent shown depth (t1.parent c) t2))
            (reap_parent-IsTree shown depth (t1.parent c) t2 (
              container_detach-IsTree depth c t1 (rw same v)
                (subst (λ l. Within l.children (suc depth) (c ∷ [])) (sym same) h)))
    ]
