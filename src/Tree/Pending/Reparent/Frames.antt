-- ===== src/Tree/Pending/Reparent/Frames.antt =====
-- What the operations of the pending tree (sway/tree) do to the links.
use swirl.Prelude.{ℕ, ◌≡◌, refl, ◌∙◌, ap, arith, Option, none, some, List, inl, inr, Option-cases}
use swirl.Tree.Links.{Siblings, detach_links, detach_placed, place_links}
use swirl.Tree.Pending.{
  Pending, set_dirty, mark_detached, clear_fullscreen, container_detach, detach_if_placed,
}
use swirl.Tree.Pending.Fullscreen.{
  container_handle_fullscreen_reparent, disable_pointed, container_fullscreen_disable,
}
use swirl.Tree.Pending.Reparent.{place, leave_pool, workspace_minimized_remove}

pub links-set_dirty : (i : ℕ) (t : Pending) → (set_dirty i t).links ≡ t.links
unfolding set_dirty
links-set_dirty i t = ground arith

pub links-disable : (c : ℕ) (t : Pending) → (container_fullscreen_disable c t).links ≡ t.links
unfolding container_fullscreen_disable
links-disable c t = ground arith

pub links-disable_pointed : (o : Option ℕ) (t : Pending) → (disable_pointed o t).links ≡ t.links
unfolding disable_pointed
links-disable_pointed none t = refl
links-disable_pointed (some c) t = links-disable c t

pub links-reparent :
    (depth c : ℕ) (t : Pending) → (container_handle_fullscreen_reparent depth c t).links ≡ t.links
unfolding container_handle_fullscreen_reparent
links-reparent depth c t = ground (arith, links-disable_pointed t.global_container t)

pub links-clear : (depth c : ℕ) (t : Pending) → (clear_fullscreen depth c t).links ≡ t.links
unfolding clear_fullscreen
links-clear depth c t = ground arith

pub links-mark_detached :
    (c : ℕ) (p w : Option ℕ) (t : Pending) → (mark_detached c p w t).links ≡ t.links
unfolding mark_detached
links-mark_detached c (some p) w t = links-set_dirty c (set_dirty p t) ∙ links-set_dirty p t
links-mark_detached c none none t = links-set_dirty c t
links-mark_detached c none (some w) t = links-set_dirty c (set_dirty w t) ∙ links-set_dirty w t

pub links-container_detach :
    (depth c : ℕ) (t : Pending) → (container_detach depth c t).links ≡ detach_links depth c t.links
unfolding container_detach
links-container_detach depth c t =
    links-mark_detached c (t.parent c) (t.workspace c) _
    ∙ ap (detach_links depth c) (links-clear depth c t)

pub links-detach_if_placed :
    (depth c : ℕ) (t : Pending) → (detach_if_placed depth c t).links ≡ detach_placed depth c t.links
unfolding detach_if_placed detach_placed
links-detach_if_placed depth c t = elim (Option-cases (t.workspace c)) [
  | inl e ↦ rw (e, detach_if_placed, detach_placed) refl
  | inr (w, e) ↦ rw (e, detach_if_placed, detach_placed) (links-container_detach depth c t)
]

pub links-place :
    (depth c : ℕ) (s : Siblings) (xs : List ℕ) (p w : Option ℕ) (t : Pending)
    → (place depth c s xs p w t).links ≡ place_links depth c s xs p w t.links
unfolding place
links-place depth c s xs p w t =
    links-reparent depth c (record t { links = place_links depth c s xs p w t.links })

pub links-leave_pool : (c : ℕ) (t : Pending) → (leave_pool c t).links ≡ t.links
unfolding leave_pool workspace_minimized_remove
links-leave_pool c t = ground arith
