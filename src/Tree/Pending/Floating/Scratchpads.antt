-- ===== src/Tree/Pending/Floating/Scratchpads.antt =====
-- root_scratchpad_add_container of sway/tree/root.c on the links of the pending tree: what is below
-- the container stays within its depth while it begins to float.
use swirl.Prelude.{
  ℕ, zero, suc, ◌≡◌, ◌∙◌, sym, ap, Bool, true, false, ◌||◌, Option, none, some, [], ◌∷◌, ◌++◌, inl,
  inr, Option-cases, Bool-cases, List-cases, is_some,
}
use mathlib.Core.Path.{subst, fun_ext}
use swirl.Tree.Links.{Links, of_floating, detach_links, detach_placed, put_links, place_links}
use swirl.Tree.Links.Counts.{each_set_workspace-SameLists}
use swirl.Tree.Links.Depth.{Within}
use swirl.Tree.Links.Moves.{IsTree}
use swirl.Tree.Links.Free.{IsFree, detach_links-Within, detach_links-IsFree}
use swirl.Tree.Pending.{Pending, set_dirty, container_detach, detach_if_placed}
use swirl.Tree.Pending.Reparent.{place, workspace_add_floating, leave_pool}
use swirl.Tree.Pending.Reparent.Frames.{
  links-set_dirty, links-place, links-detach_if_placed, links-container_detach, links-leave_pool,
}
use swirl.Tree.Pending.Reparent.Trees.{workspace_add_floating-IsTree}
use swirl.Tree.Pending.Destroy.{
  Shown, before_detach, container_begin_destroy, reap_loop, finish_reap, container_reap_empty,
  reap_parent, container_is_floating,
}
use swirl.Tree.Pending.Destroy.Trees.{links-before_detach, links-consider}
use swirl.Tree.Pending.Scratchpad.{disable_fullscreen}
use swirl.Tree.Pending.Scratchpad.Shows.{links-disable_fullscreen}
use swirl.Tree.Pending.Floating.{
  begin_floating, container_set_floating, float_if_tiled, enter_scratchpad, add_floating_on,
  root_scratchpad_add_container,
}
use swirl.Tree.Pending.Floating.Trees.{IsFree-IsMovable, container_set_floating-IsTree}

module _ (depth d : ℕ) where
  -- The container `d` has no more below it than the depth allows.
  record IsShallow (l : Links) : Type 0 where
    below : Within l.children (suc depth) (d ∷ [])

  detach_links-IsShallow : (c : ℕ) (l : Links) → IsShallow l → IsShallow (detach_links depth c l)
  detach_links-IsShallow c l h = record { below = detach_links-Within depth c d l h.below }

  detach-IsShallow :
      (c : ℕ) (t : Pending) → IsShallow t.links → IsShallow (container_detach depth c t).links
  detach-IsShallow c t h =
      rw (links-container_detach depth c t) (detach_links-IsShallow c t.links h)

  begin_destroy-IsShallow :
      (c : ℕ) (t : Pending)
      → IsShallow t.links
      → IsShallow (container_begin_destroy depth c t).links
  unfolding container_begin_destroy
  begin_destroy-IsShallow c t h =
      let t1 = before_detach c t in
      let h1 : IsShallow t1.links = subst IsShallow (sym (links-before_detach c t)) h in
      elim (Bool-cases (is_some (t1.parent c) || is_some (t1.workspace c))) [
        | inr alone ↦ rw alone h1
        | inl linked ↦ rw linked (detach-IsShallow c t1 h1)
      ]

  reap_loop-IsShallow :
      (rounds : ℕ) (o : Option ℕ) (t : Pending)
      → IsShallow t.links
      → IsShallow (reap_loop rounds depth o t).1.links
  unfolding reap_loop
  reap_loop-IsShallow zero o t h = h
  reap_loop-IsShallow (suc rounds) none t h = h
  reap_loop-IsShallow (suc rounds) (some c) t h = elim (List-cases (t.children c)) [
    | inr (x, xs, e) ↦ rw e h
    | inl e ↦ rw e (
        reap_loop-IsShallow rounds (t.parent c) (container_begin_destroy depth c t)
          (begin_destroy-IsShallow c t h))
  ]

  finish_reap-IsShallow :
      (shown : Shown) (o : Option ℕ) (top : Bool) (t : Pending)
      → IsShallow t.links
      → IsShallow (finish_reap shown o (top, t)).links
  unfolding finish_reap
  finish_reap-IsShallow shown none top t h = h
  finish_reap-IsShallow shown (some w) true t h = subst IsShallow (sym (links-consider shown w t)) h
  finish_reap-IsShallow shown (some w) false t h = h

  reap_parent-IsShallow :
      (shown : Shown) (o : Option ℕ) (t : Pending)
      → IsShallow t.links
      → IsShallow (reap_parent shown depth o t).links
  unfolding container_reap_empty
  reap_parent-IsShallow shown none t h = h
  reap_parent-IsShallow shown (some c) t h =
      let r = reap_loop (suc depth) depth (some c) t in
      elim (Bool-cases (t.is_view c)) [
        | inl e ↦ rw (reap_parent, container_reap_empty, e) h
        | inr e ↦
            rw (reap_parent, container_reap_empty, e)
              (finish_reap-IsShallow shown (t.workspace c) (r.0) (r.1)
                (reap_loop-IsShallow (suc depth) (some c) t h))
      ]

  detach_placed-IsShallow : (c : ℕ) (l : Links) → IsShallow l → IsShallow (detach_placed depth c l)
  unfolding detach_placed
  detach_placed-IsShallow c l h = elim (Option-cases (l.workspace c)) [
    | inl e ↦ rw (e, detach_placed) h
    | inr (w, e) ↦ rw (e, detach_placed) (detach_links-IsShallow c l h)
  ]

  add_floating-IsShallow :
      (ws c : ℕ) (t : Pending)
      → IsShallow t.links
      → IsShallow (workspace_add_floating depth ws c t).links
  unfolding workspace_add_floating place_links put_links
  add_floating-IsShallow ws c t h =
      let t0 = leave_pool c t in
      let t1 = detach_if_placed depth c t0 in
      let xs = t1.floating ws ++ c ∷ [] in
      let u = place depth c (of_floating ws) xs (t1.parent c) (some ws) t1 in
      let l1 = put_links c (of_floating ws) xs (t1.parent c) (some ws) t1.links in
      let all : (workspace_add_floating depth ws c t).links
          ≡ place_links depth c (of_floating ws) xs (t1.parent c) (some ws) t1.links =
        links-set_dirty c (set_dirty ws u)
        ∙ links-set_dirty ws u
        ∙ links-place depth c (of_floating ws) xs (t1.parent c) (some ws) t1 in
      let kids : (place_links depth c (of_floating ws) xs (t1.parent c) (some ws) t1.links).children
          ≡ t1.children =
        fun_ext (each_set_workspace-SameLists depth (l1.children c) l1).same_children in
      let h1 : IsShallow t1.links =
        rw (links-detach_if_placed depth c t0, links-leave_pool c t)
          (detach_placed-IsShallow c t.links h) in
      record {
        below =
            subst (λ f. Within f (suc depth) (d ∷ [])) (sym (ap (λ l. l.children) all ∙ kids))
              h1.below;
      }

  begin_floating-IsShallow :
      (shown : Shown) (ws c : ℕ) (t : Pending)
      → IsShallow t.links
      → IsShallow (begin_floating shown depth ws c t).links
  unfolding begin_floating
  begin_floating-IsShallow shown ws c t h =
      let t1 = container_detach depth c t in
      reap_parent-IsShallow shown (t.parent c) (workspace_add_floating depth ws c t1)
        (add_floating-IsShallow ws c t1 (detach-IsShallow c t h))

  float_if_tiled-IsShallow :
      (shown : Shown) (c : ℕ) (t : Pending)
      → IsShallow t.links
      → IsShallow (float_if_tiled shown depth c t).links
  unfolding float_if_tiled container_set_floating
  float_if_tiled-IsShallow shown c t h = elim (Bool-cases (container_is_floating c t)) [
    | inl floats ↦ rw (float_if_tiled, floats) h
    | inr tiled ↦ elim (Option-cases (t.workspace c)) [
      | inl e ↦ rw (float_if_tiled, tiled, container_set_floating, e) h
      | inr (ws, e) ↦
          rw (float_if_tiled, tiled, container_set_floating, e, tiled)
            (begin_floating-IsShallow shown ws c t h)
    ]
  ]

float_if_tiled-IsTree :
    (shown : Shown) (depth c : ℕ) (t : Pending)
    → IsTree t.links
    → Within t.children (suc depth) (c ∷ [])
    → IsTree (float_if_tiled shown depth c t).links
unfolding float_if_tiled
float_if_tiled-IsTree shown depth c t v h = elim (Bool-cases (container_is_floating c t)) [
  | inl floats ↦ rw (float_if_tiled, floats) v
  | inr tiled ↦
      rw (float_if_tiled, tiled)
        (container_set_floating-IsTree shown depth 0 0 true c t v h (λ e. absurd (cc e)))
]

add_floating_on-IsTree :
    (depth c : ℕ) (o : Option ℕ) (t : Pending)
    → IsFree depth c t.links
    → IsTree (add_floating_on depth o c t).links
add_floating_on-IsTree depth c none t f = f.tree
add_floating_on-IsTree depth c (some ws) t f =
    workspace_add_floating-IsTree depth ws c t f.tree (IsFree-IsMovable depth c t.links f)

pub root_scratchpad_add_container-IsTree :
    (shown : Shown) (depth : ℕ) (o : Option ℕ) (c : ℕ) (t : Pending)
    → IsTree t.links
    → Within t.children (suc depth) (c ∷ [])
    → IsTree (root_scratchpad_add_container shown depth o c t).links
unfolding root_scratchpad_add_container
root_scratchpad_add_container-IsTree shown depth o c t v h =
    let t1 = disable_fullscreen c t in
    let same = links-disable_fullscreen c t in
    let v1 : IsTree t1.links = rw same v in
    let h1 : IsShallow depth c t1.links = rw same (record { below = h }) in
    let t2 = float_if_tiled shown depth c t1 in
    let v2 = float_if_tiled-IsTree shown depth c t1 v1 h1.below in
    let h2 = float_if_tiled-IsShallow depth c shown c t1 h1 in
    let f : IsFree depth c (container_detach depth c t2).links =
      rw (links-container_detach depth c t2) (detach_links-IsFree depth c t2.links v2 h2.below) in
    elim (Bool-cases (t.scratchpad c)) [
      | inl e ↦ rw (root_scratchpad_add_container, e) v
      | inr e ↦
          rw (root_scratchpad_add_container, e)
            (add_floating_on-IsTree depth c o (enter_scratchpad c (container_detach depth c t2)) f)
    ]
