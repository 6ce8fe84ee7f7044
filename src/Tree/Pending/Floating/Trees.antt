-- ===== src/Tree/Pending/Floating/Trees.antt =====
-- container_set_floating and root_scratchpad_add_container (sway/tree/container.c, sway/tree/root.c) on
-- the links of the pending tree.
use swirl.Prelude.{
  ℕ, suc, ◌==◌, ◌≡◌, refl, ◌∙◌, ap, arith, Bool, true, false, none, some, [], ◌∷◌, ◌++◌, inl, inr,
  Option-cases, Bool-cases, ==_iff,
}
use swirl.Tree.Types.{l_vert}
use swirl.Tree.Links.{
  Links, set_at, of_children, remove_links, detach_links, detach_placed, place_links,
}
use swirl.Tree.Links.Counts.{each_set_workspace-SameLists}
use swirl.Tree.Links.Depth.{Within}
use swirl.Tree.Links.Moves.{IsTree, remove_links-others, remove_links-children}
use swirl.Tree.Links.Free.{IsMovable, IsFree, detach_links-IsFree}
use swirl.Tree.Pending.{Pending, set_dirty, container_detach, detach_if_placed}
use swirl.Tree.Pending.Fullscreen.{container_handle_fullscreen_reparent}
use swirl.Tree.Pending.Reparent.{
  place, container_create, container_add_child, workspace_add_floating,
}
use swirl.Tree.Pending.Reparent.Frames.{
  links-set_dirty, links-reparent, links-place, links-detach_if_placed, links-container_detach,
}
use swirl.Tree.Pending.Reparent.Trees.{workspace_add_floating-IsTree}
use swirl.Tree.Pending.Destroy.{Shown, container_is_floating}
use swirl.Tree.Pending.Destroy.Trees.{links-scratchpad_remove, reap_parent-IsTree}
use swirl.Tree.Pending.Floating.{
  column_around, insert_column_links, insert_column, leave_scratchpad, begin_floating,
  cease_floating, container_set_floating,
}
use swirl.Tree.Pending.Floating.Columns.{IsUnused, links-container_create, inserted-IsTree}

pub IsFree-IsMovable : (depth c : ℕ) (l : Links) → IsFree depth c l → IsMovable depth c l
IsFree-IsMovable depth c l f = record { placed = λ _. f.no_parent; shallow = f.depth_kept }

-- An unused number stays one when a container is taken out.
IsUnused-detach :
    (depth fresh c : ℕ) (l : Links)
    → (fresh == c) ≡ false
    → IsUnused fresh l
    → IsUnused fresh (detach_links depth c l)
unfolding detach_links
IsUnused-detach depth fresh c l other u =
    let back : (c == fresh) ≡ false = ground (arith, other) in
    let (up, ws) = remove_links-others c l fresh back in
    let m = remove_links c l in
    let same = each_set_workspace-SameLists depth (m.children c) m in
    let top : m.parent fresh ≡ none = up ∙ u.no_parent in
    let none_below : m.children fresh ≡ [] = elim (remove_links-children c l) [
      | inl e ↦ ap (λ f. f fresh) e ∙ u.no_children
      | inr (a, e) ↦ ap (λ f. f fresh) e ∙ elim (Bool-cases (a == fresh)) [
        | inl here ↦ (let node = (==_iff a fresh).0 here in rw (here, node, u.no_children) refl)
        | inr apart ↦ rw apart u.no_children
      ]
    ] in
    record {
      no_parent = same.same_parent fresh ∙ top;
      no_workspace = same.same_top fresh top ∙ ws ∙ u.no_workspace;
      no_children = same.same_children fresh ∙ none_below;
    }

pub links-container_add_child :
    (depth p c : ℕ) (t : Pending)
    → (container_add_child depth p c t).links ≡ (
        let l = detach_placed depth c t.links in
        place_links depth c (of_children p) (l.children p ++ c ∷ []) (some p) (l.workspace p) l)
unfolding container_add_child
links-container_add_child depth p c t =
    let t1 = detach_if_placed depth c t in
    let u = place depth c (of_children p) (t1.children p ++ c ∷ []) (some p) (t1.workspace p) t1 in
    links-set_dirty p (set_dirty c u)
    ∙ links-set_dirty c u
    ∙ links-place depth c (of_children p) (t1.children p ++ c ∷ []) (some p) (t1.workspace p) t1
    ∙ ap
        (λ l.
          place_links depth c (of_children p) (l.children p ++ c ∷ []) (some p) (l.workspace p) l)
        (links-detach_if_placed depth c t)

pub links-detach_placed :
    (depth c : ℕ) (l : Links) → l.workspace c ≡ none → detach_placed depth c l ≡ l
unfolding detach_placed
links-detach_placed depth c l e = rw (detach_placed, e) refl

-- The column and the container in it, from links in which neither stands anywhere.
links-column_around :
    (depth fresh ws c : ℕ) (t : Pending)
    → IsUnused fresh t.links
    → (fresh == c) ≡ false
    → t.workspace c ≡ none
    → (column_around depth fresh ws c t).links
      ≡ place_links depth c
          (of_children fresh)
          (c ∷ [])
          (some fresh)
          (some ws)
          (record (t.links) { workspace = set_at t.workspace fresh (some ws) })
unfolding column_around
links-column_around depth fresh ws c t u other free =
    let t1 = container_create fresh l_vert t in
    let t2 = record t1 {
      links = record (t1.links) { workspace = set_at t1.workspace fresh (some ws) };
    } in
    let owned = record (t.links) { workspace = set_at t.workspace fresh (some ws) } in
    let made : t2.links ≡ owned =
      ap {A = Links} (λ l. record l { workspace = set_at l.workspace fresh (some ws) })
        (links-container_create fresh l_vert t u) in
    let alone : detach_placed depth c owned ≡ owned =
      links-detach_placed depth c owned (rw other free) in
    let itself : (fresh == fresh) ≡ true = (==_iff fresh fresh).1 refl in
    links-container_add_child depth fresh c t2
    ∙ ap
        (λ l.
          place_links depth c (of_children fresh) (l.children fresh ++ c ∷ []) (some fresh)
            (l.workspace fresh) l)
        (ap (detach_placed depth c) made ∙ alone)
    ∙ rw (u.no_children, itself) refl

links-leave_scratchpad : (c : ℕ) (t : Pending) → (leave_scratchpad c t).links ≡ t.links
links-leave_scratchpad c t = ground (arith, links-scratchpad_remove c t)

-- A tiled container gets a column of its own.
cease_floating-IsTree :
    (depth fresh idx ws c : ℕ) (t : Pending)
    → IsTree t.links
    → Within t.children (suc depth) (c ∷ [])
    → IsUnused fresh t.links
    → (fresh == c) ≡ false
    → IsTree (cease_floating depth fresh idx ws c t).links
unfolding cease_floating insert_column
cease_floating-IsTree depth fresh idx ws c t v h u other =
    let t1 = leave_scratchpad c t in
    let same : t1.links ≡ t.links = links-leave_scratchpad c t in
    let t2 = container_detach depth c t1 in
    let detached : t2.links ≡ detach_links depth c t.links =
      links-container_detach depth c t1 ∙ ap (detach_links depth c) same in
    let f : IsFree depth c t2.links = rw detached (detach_links-IsFree depth c t.links v h) in
    let u2 : IsUnused fresh t2.links =
      rw detached (IsUnused-detach depth fresh c t.links other u) in
    let t3 = column_around depth fresh ws c t2 in
    let placed = record t3 { links = insert_column_links (suc depth) fresh ws idx t3.links } in
    let settled = container_handle_fullscreen_reparent (suc depth) fresh placed in
    let all : (cease_floating depth fresh idx ws c t).links
        ≡ insert_column_links (suc depth) fresh ws idx t3.links =
      links-set_dirty fresh (set_dirty ws settled)
      ∙ links-set_dirty ws settled
      ∙ links-reparent (suc depth) fresh placed in
    rw (all, links-column_around depth fresh ws c t2 u2 other f.no_workspace)
      (inserted-IsTree depth fresh ws idx c t2.links u2 other f)

-- A container that begins to float.
begin_floating-IsTree :
    (shown : Shown) (depth ws c : ℕ) (t : Pending)
    → IsTree t.links
    → Within t.children (suc depth) (c ∷ [])
    → IsTree (begin_floating shown depth ws c t).links
unfolding begin_floating
begin_floating-IsTree shown depth ws c t v h =
    let t1 = container_detach depth c t in
    let f : IsFree depth c t1.links =
      rw (links-container_detach depth c t) (detach_links-IsFree depth c t.links v h) in
    reap_parent-IsTree shown depth (t.parent c) (workspace_add_floating depth ws c t1)
      (workspace_add_floating-IsTree depth ws c t1 f.tree (IsFree-IsMovable depth c t1.links f))

pub container_set_floating-IsTree :
    (shown : Shown) (depth fresh idx : ℕ) (enable : Bool) (c : ℕ) (t : Pending)
    → IsTree t.links
    → Within t.children (suc depth) (c ∷ [])
    → (enable ≡ false → IsUnused fresh t.links × ((fresh == c) ≡ false))
    → IsTree (container_set_floating shown depth fresh idx enable c t).links
unfolding container_set_floating
container_set_floating-IsTree shown depth fresh idx true c t v h u =
    elim (Option-cases (t.workspace c)) [
      | inl e ↦ rw (container_set_floating, e) v
      | inr (ws, e) ↦ elim (Bool-cases (container_is_floating c t)) [
        | inl floats ↦ rw (container_set_floating, e, floats) v
        | inr tiled ↦
            rw (container_set_floating, e, tiled) (begin_floating-IsTree shown depth ws c t v h)
      ]
    ]
container_set_floating-IsTree shown depth fresh idx false c t v h u =
    elim (Option-cases (t.workspace c)) [
      | inl e ↦ rw (container_set_floating, e) v
      | inr (ws, e) ↦ elim (Bool-cases (container_is_floating c t)) [
        | inl floats ↦
            rw (container_set_floating, e, floats)
              (cease_floating-IsTree depth fresh idx ws c t v h (u refl).0 (u refl).1)
        | inr tiled ↦ rw (container_set_floating, e, tiled) v
      ]
    ]
