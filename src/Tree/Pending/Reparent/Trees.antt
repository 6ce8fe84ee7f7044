-- ===== src/Tree/Pending/Reparent/Trees.antt =====
-- The operations of sway/tree/container.c and sway/tree/workspace.c that move containers, on the
-- links of the pending tree.
use swirl.Prelude.{
  ℕ, suc, ◌+◌, ◌==◌, ◌≡◌, refl, ◌∙◌, sym, arith, Bool, false, Option, none, some, List, [], ◌∷◌,
  ◌++◌, if◌then◌else◌, inl, inr, Option-cases,
}
use mathlib.Core.Path.{subst}
use swirl.Prelude.Members.{
  occurrences, occurrences-insert_at, occurrences-append, insert_at, index_of,
}
use swirl.Tree.Links.{Siblings, of_children, of_tiling, of_floating, items, container_get_siblings}
use swirl.Tree.Links.Counts.{Fits, in_container, in_tiling, in_floating}
use swirl.Tree.Links.Depth.{Within, Avoids}
use swirl.Tree.Links.Moves.{IsTree, detach_links-IsTree}
use swirl.Tree.Links.Free.{
  siblings-Fits, parent-detach_placed, IsMovable, IsFree, detach_placed-IsFree,
  detach_placed-Avoids, IsFree-place_links,
}
use swirl.Tree.Pending.{Pending, set_dirty, container_detach, detach_if_placed}
use swirl.Tree.Pending.Reparent.{
  place, container_insert_child, container_add_sibling, container_add_child,
  workspace_insert_tiling_direct, workspace_attach_tiling, workspace_add_floating, leave_pool,
}
use swirl.Tree.Pending.Reparent.Frames.{
  links-set_dirty, links-container_detach, links-detach_if_placed, links-place, links-leave_pool,
}

-- Placing a container that has been taken out, at the end of each operation.
pub place-IsTree :
    (depth c : ℕ) (s : Siblings) (xs : List ℕ) (p w : Option ℕ) (t : Pending)
    → IsFree depth c t.links
    → Fits s p w
    → ((q : ℕ) → p ≡ some q → (w ≡ t.workspace q) × Avoids t.children q (suc depth) (c ∷ []))
    → ((x : ℕ) → occurrences x xs ≡ (if c == x then 1 else 0) + occurrences x (items t.links s))
    → IsTree (place depth c s xs p w t).links
place-IsTree depth c s xs p w t f fits away more =
    rw (links-place depth c s xs p w t)
      (IsFree-place_links depth c s xs p w t.links f fits away more)

pub detach_if_placed-IsFree :
    (depth c : ℕ) (t : Pending)
    → IsTree t.links
    → IsMovable depth c t.links
    → IsFree depth c (detach_if_placed depth c t).links
detach_if_placed-IsFree depth c t v m =
    rw (links-detach_if_placed depth c t) (detach_placed-IsFree depth c t.links v m)

detach_if_placed-Avoids :
    (depth c q : ℕ) (t : Pending)
    → Avoids t.children q (suc depth) (c ∷ [])
    → Avoids (detach_if_placed depth c t).children q (suc depth) (c ∷ [])
detach_if_placed-Avoids depth c q t h =
    subst (λ l. Avoids l.children q (suc depth) (c ∷ [])) (sym (links-detach_if_placed depth c t))
      (detach_placed-Avoids depth c q t.links h)

-- A parent outside the container's tree, with its workspace.
parent_away :
    (depth c p q : ℕ) (t : Pending)
    → Avoids t.children p (suc depth) (c ∷ [])
    → some p ≡ some q
    → (t.workspace p ≡ t.workspace q) × Avoids t.children q (suc depth) (c ∷ [])
parent_away depth c p q t h e =
    let same : p ≡ q = cc in
    subst (λ x. (t.workspace p ≡ t.workspace x) × Avoids t.children x (suc depth) (c ∷ [])) same
      (refl, h)

pub occurrences-add :
    (x c : ℕ) (xs : List ℕ)
    → occurrences x (xs ++ c ∷ []) ≡ (if c == x then 1 else 0) + occurrences x xs
occurrences-add x c xs = omega (arith, occurrences-append x xs (c ∷ []))

pub container_insert_child-IsTree :
    (depth p c i : ℕ) (t : Pending)
    → IsTree t.links
    → IsMovable depth c t.links
    → Avoids t.children p (suc depth) (c ∷ [])
    → IsTree (container_insert_child depth p c i t).links
unfolding container_insert_child
container_insert_child-IsTree depth p c i t v m h =
    let t1 = detach_if_placed depth c t in
    place-IsTree depth c (of_children p) (insert_at i c (t1.children p)) (some p) (t1.workspace p)
      t1 (detach_if_placed-IsFree depth c t v m) (in_container p (t1.workspace p))
      (λ q e. parent_away depth c p q t1 (detach_if_placed-Avoids depth c p t h) e)
      (λ x. occurrences-insert_at x i c (t1.children p))

pub container_add_child-IsTree :
    (depth p c : ℕ) (t : Pending)
    → IsTree t.links
    → IsMovable depth c t.links
    → Avoids t.children p (suc depth) (c ∷ [])
    → IsTree (container_add_child depth p c t).links
unfolding container_add_child
container_add_child-IsTree depth p c t v m h =
    let t1 = detach_if_placed depth c t in
    let placed =
      place depth c (of_children p) (t1.children p ++ c ∷ []) (some p) (t1.workspace p) t1 in
    rw (links-set_dirty p (set_dirty c placed), links-set_dirty c placed)
      (place-IsTree depth c (of_children p) (t1.children p ++ c ∷ []) (some p) (t1.workspace p) t1
        (detach_if_placed-IsFree depth c t v m) (in_container p (t1.workspace p))
        (λ q e. parent_away depth c p q t1 (detach_if_placed-Avoids depth c p t h) e)
        (λ x. occurrences-add x c (t1.children p)))

-- A list of a workspace takes a container without a parent.
placed_in_workspace :
    (depth c ws : ℕ) (s : Siblings) (xs : List ℕ) (t : Pending)
    → IsFree depth c t.links
    → Fits s none (some ws)
    → ((x : ℕ) → occurrences x xs ≡ (if c == x then 1 else 0) + occurrences x (items t.links s))
    → IsTree (set_dirty c (set_dirty ws (place depth c s xs (t.parent c) (some ws) t))).links
placed_in_workspace depth c ws s xs t f fits more =
    let placed = place depth c s xs (t.parent c) (some ws) t in
    rw (links-set_dirty c (set_dirty ws placed), links-set_dirty ws placed)
      (rw (f.no_parent)
        (place-IsTree depth c s xs none (some ws) t f fits (λ q e. absurd (cc e)) more))

pub workspace_insert_tiling_direct-IsTree :
    (depth ws c i : ℕ) (t : Pending)
    → IsFree depth c t.links
    → IsTree (workspace_insert_tiling_direct depth ws c i t).links
unfolding workspace_insert_tiling_direct
workspace_insert_tiling_direct-IsTree depth ws c i t f =
    placed_in_workspace depth c ws (of_tiling ws) (insert_at i c (t.tiling ws)) t f (in_tiling ws)
      (λ x. occurrences-insert_at x i c (t.tiling ws))

pub workspace_attach_tiling-IsTree :
    (depth ws c : ℕ) (t : Pending)
    → IsFree depth c t.links
    → IsTree (workspace_attach_tiling depth ws c t).links
unfolding workspace_attach_tiling
workspace_attach_tiling-IsTree depth ws c t f =
    placed_in_workspace depth c ws (of_tiling ws) (t.tiling ws ++ c ∷ []) t f (in_tiling ws)
      (λ x. occurrences-add x c (t.tiling ws))

pub workspace_add_floating-IsTree :
    (depth ws c : ℕ) (t : Pending)
    → IsTree t.links
    → IsMovable depth c t.links
    → IsTree (workspace_add_floating depth ws c t).links
unfolding workspace_add_floating
workspace_add_floating-IsTree depth ws c t v m =
    let same = links-leave_pool c t in
    let t1 = detach_if_placed depth c (leave_pool c t) in
    placed_in_workspace depth c ws (of_floating ws) (t1.floating ws ++ c ∷ []) t1
      (detach_if_placed-IsFree depth c (leave_pool c t) (rw same v) (rw same m)) (in_floating ws)
      (λ x. occurrences-add x c (t1.floating ws))

pub container_detach-IsTree :
    (depth c : ℕ) (t : Pending)
    → IsTree t.links
    → Within t.children (suc depth) (c ∷ [])
    → IsTree (container_detach depth c t).links
container_detach-IsTree depth c t v h =
    rw (links-container_detach depth c t) (detach_links-IsTree depth c t.links v h)

pub container_add_sibling-IsTree :
    (depth fixed c : ℕ) (after : Bool) (t : Pending)
    → IsTree t.links
    → IsMovable depth c t.links
    → (c == fixed) ≡ false
    → ((q : ℕ) → t.parent fixed ≡ some q → Avoids t.children q (suc depth) (c ∷ []))
    → IsTree (container_add_sibling depth fixed c after t).links
unfolding container_add_sibling
container_add_sibling-IsTree depth fixed c after t v m other h =
    let t1 = detach_if_placed depth c t in
    let free = detach_if_placed-IsFree depth c t v m in
    elim (Option-cases (container_get_siblings t1.links fixed)) [
      | inl e ↦ rw (e, container_add_sibling) (free.tree)
      | inr (s, e) ↦
          (let xs = items t1.links s in
            let i = if after then index_of fixed xs + 1 else index_of fixed xs in
            rw (e, container_add_sibling)
              (place-IsTree depth c s (insert_at i c xs) (t1.parent fixed) (t1.workspace fixed) t1
                free (siblings-Fits t1.links fixed s e)
                (λ q up. (
                  free.tree.agrees fixed q up refl,
                  detach_if_placed-Avoids depth c q t (h q (same_parent ∙ up)),
                ))
                (λ x. occurrences-insert_at x i c xs)))
    ]
  where
    same_parent : t.parent fixed ≡ (detach_if_placed depth c t).parent fixed
    same_parent =
        rw (links-detach_if_placed depth c t)
          (sym (parent-detach_placed depth c fixed t.links other))
