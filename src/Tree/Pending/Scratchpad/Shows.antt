-- ===== src/Tree/Pending/Scratchpad/Shows.antt =====
-- The scratchpad (sway/tree/root.c) on the links of the pending tree.
use swirl.Prelude.{
  ℕ, zero, suc, ◌==◌, ◌≡◌, refl, ◌∙◌, sym, arith, Option, none, some, List, [], ◌∷◌, if◌then◌else◌,
  inl, inr, Option-cases, Bool-cases, is_some, ==_iff,
}
use mathlib.Core.Path.{subst}
use swirl.Prelude.Members.{member, unlink, occurrences, occurrences-append, occurrences-unlink}
use swirl.Tree.Links.{Links, set_at, detach_links, detach_placed, container_toplevel_ancestor}
use swirl.Tree.Links.Depth.{Within}
use swirl.Tree.Links.Moves.{IsTree}
use swirl.Tree.Links.Free.{IsMovable, IsFree, detach_placed-IsFree}
use swirl.Tree.Pending.{Pending, fullscreen_of}
use swirl.Tree.Pending.Fullscreen.{disable_pointed}
use swirl.Tree.Pending.Reparent.{workspace_add_floating}
use swirl.Tree.Pending.Reparent.Frames.{
  links-set_dirty, links-disable, links-disable_pointed, links-container_detach,
}
use swirl.Tree.Pending.Reparent.Trees.{container_detach-IsTree, workspace_add_floating-IsTree}
use swirl.Tree.Pending.Destroy.{Shown, container_is_floating}
use swirl.Tree.Pending.Destroy.Trees.{links-consider}
use swirl.Tree.Pending.Scratchpad.{
  move_to_end, disable_fullscreen, each_disable_fullscreen, disable_below, root_scratchpad_hide,
  raise_in, container_raise_floating, to_show, detach_shown, consider_old, root_scratchpad_show,
}

pub links-disable_fullscreen : (c : ℕ) (t : Pending) → (disable_fullscreen c t).links ≡ t.links
unfolding disable_fullscreen
links-disable_fullscreen c t = ground (arith, links-disable c t)

links-each_disable :
    (depth : ℕ) (cs : List ℕ) (t : Pending) → (each_disable_fullscreen depth cs t).links ≡ t.links
unfolding each_disable_fullscreen
links-each_disable zero cs t = refl
links-each_disable (suc depth) [] t = refl
links-each_disable (suc depth) (c ∷ cs) t =
    let t1 = disable_fullscreen c t in
    links-each_disable (suc depth) cs (each_disable_fullscreen depth (t1.children c) t1)
    ∙ links-each_disable depth (t1.children c) t1
    ∙ links-disable_fullscreen c t

links-disable_below : (depth c : ℕ) (t : Pending) → (disable_below depth c t).links ≡ t.links
unfolding disable_below
links-disable_below depth c t =
    let t1 = disable_fullscreen c t in
    links-each_disable depth (t1.children c) t1 ∙ links-disable_fullscreen c t

-- A change that keeps the links keeps the tree below a container.
pub Within-same :
    (depth c : ℕ) (t u : Pending)
    → u.links ≡ t.links
    → Within t.children depth (c ∷ [])
    → Within u.children depth (c ∷ [])
Within-same depth c t u same h = subst (λ l. Within l.children depth (c ∷ [])) (sym same) h

pub root_scratchpad_hide-IsTree :
    (depth c : ℕ) (t : Pending)
    → IsTree t.links
    → Within t.children (suc depth) (c ∷ [])
    → IsTree (root_scratchpad_hide depth c t).links
unfolding root_scratchpad_hide
root_scratchpad_hide-IsTree depth c t v h =
    let t1 = disable_below depth c t in
    let same = links-disable_below depth c t in
    elim (Bool-cases (is_some (t.workspace c))) [
      | inr e ↦ rw e v
      | inl e ↦
          rw e
            (container_detach-IsTree depth c t1 (rw same v) (Within-same (suc depth) c t t1 same h))
    ]

occurrences-move_to_end :
    (x c : ℕ) (cs : List ℕ) → occurrences x (move_to_end c cs) ≡ occurrences x cs
occurrences-move_to_end x c cs = elim (Bool-cases (member c cs)) [
  | inr e ↦ rw e refl
  | inl e ↦
      rw e (ground (arith, occurrences-append x (unlink c cs) (c ∷ []), occurrences-unlink x c cs))
]

raised-IsTree :
    (w c : ℕ) (l : Links)
    → IsTree l
    → IsTree (record l { floating = set_at l.floating w (move_to_end c (l.floating w)) })
raised-IsTree w c l v = record {
  linked = λ x a. (
    (v.linked x a).0,
    elim (Bool-cases (w == a)) [
      | inl e ↦
          (let same = (==_iff w a).0 e in
            rw (e, occurrences-move_to_end x c (l.floating w), same) (v.linked x a).1)
      | inr e ↦ rw e (v.linked x a).1
    ],
  );
  agrees = v.agrees;
}

links-raise : (o : Option ℕ) (c : ℕ) (t : Pending) → IsTree t.links → IsTree (raise_in o c t).links
links-raise none c t v = v
links-raise (some w) c t v =
    rw
      (links-set_dirty w (record t {
        links = record (t.links) { floating = set_at t.floating w (move_to_end c (t.floating w)) };
      }))
      (raised-IsTree w c t.links v)

pub container_raise_floating-IsTree :
    (depth c : ℕ) (t : Pending) → IsTree t.links → IsTree (container_raise_floating depth c t).links
unfolding container_raise_floating
container_raise_floating-IsTree depth c t v =
    let floater = container_toplevel_ancestor depth c t.links in
    elim (Bool-cases (container_is_floating floater t)) [
      | inl e ↦ rw e (links-raise (t.workspace floater) floater t v)
      | inr e ↦ rw e v
    ]

links-consider_old :
    (shown : Shown) (o : Option ℕ) (t : Pending) → (consider_old shown o t).links ≡ t.links
links-consider_old shown none t = refl
links-consider_old shown (some w) t = links-consider shown w t

-- What root_scratchpad_show attaches can be attached.
detach_shown-IsMovable :
    (depth c : ℕ) (t : Pending)
    → IsTree t.links
    → IsMovable depth (to_show depth c t) t.links
    → IsTree (detach_shown depth c t).links
      × IsMovable depth (to_show depth c t) (detach_shown depth c t).links
unfolding detach_placed
detach_shown-IsMovable depth c t v m = elim (Option-cases (t.workspace c)) [
  | inl e ↦ rw e (v, rw e at m)
  | inr (w, e) ↦
      (let free : IsFree depth c (detach_links depth c t.links) =
          rw (detach_placed, e) at (detach_placed-IsFree depth c t.links v (rw e at m)) in
        rw (e, links-container_detach depth c t)
          (free.tree, record { placed = λ _. free.no_parent; shallow = free.depth_kept }))
]

pub root_scratchpad_show-IsTree :
    (shown : Shown) (depth : ℕ) (o : Option ℕ) (c : ℕ) (t : Pending)
    → IsTree t.links
    → IsMovable depth (to_show depth c t) t.links
    → IsTree (root_scratchpad_show shown depth o c t).links
unfolding root_scratchpad_show
root_scratchpad_show-IsTree shown depth none c t v m = v
root_scratchpad_show-IsTree shown depth (some new_ws) c t v m =
    let t1 = disable_pointed (fullscreen_of (some new_ws) t) t in
    let t2 = disable_pointed t1.global_container t1 in
    let same : t2.links ≡ t.links =
      links-disable_pointed t1.global_container t1
      ∙ links-disable_pointed (fullscreen_of (some new_ws) t) t in
    let con = to_show depth c t2 in
    let m2 : IsMovable depth con t2.links =
      subst
        (λ l.
          IsMovable depth
            (if is_some (l.workspace c) then c else container_toplevel_ancestor depth c l) l)
        (sym same) m in
    let (v3, m3) = detach_shown-IsMovable depth c t2 (rw same v) m2 in
    let t3 = workspace_add_floating depth new_ws con (detach_shown depth c t2) in
    let v4 = workspace_add_floating-IsTree depth new_ws con (detach_shown depth c t2) v3 m3 in
    container_raise_floating-IsTree depth con (consider_old shown (t2.workspace c) t3)
      (rw (links-consider_old shown (t2.workspace c) t3) v4)
