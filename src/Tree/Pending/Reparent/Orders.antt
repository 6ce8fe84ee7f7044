-- ===== src/Tree/Pending/Reparent/Orders.antt =====
-- Where container_add_sibling of sway/tree/container.c puts a container.
use swirl.Prelude.{ℕ, ◌==◌, ◌≡◌, Bool, false, some, ◌+◌, if◌then◌else◌}
use swirl.Prelude.Members.{insert_at, index_of}
use swirl.Tree.Links.{Siblings, items, container_get_siblings}
use swirl.Tree.Links.Beside.{IsBeside, place_links-IsBeside}
use swirl.Tree.Links.Moves.{IsTree}
use swirl.Tree.Links.Free.{IsMovable}
use swirl.Tree.Pending.{Pending, detach_if_placed}
use swirl.Tree.Pending.Reparent.{container_add_sibling}
use swirl.Tree.Pending.Reparent.Frames.{links-place}
use swirl.Tree.Pending.Reparent.Trees.{detach_if_placed-IsFree}

-- On a pending tree, let `active` be movable, that is, what stands below it be within `depth`, and
-- let it have no parent if it has no workspace, and let it differ from the other container `fixed`.
-- If `fixed` still stands in a list once `active` is detached, then container_add_sibling puts
-- `active` into that list, whichever of the three kinds of lists it is: right after `fixed` if asked
-- to put it after, and else right before it.
pub container_add_sibling-IsBeside :
    (depth fixed active : ℕ) (after : Bool) (s : Siblings) (t : Pending)
    → IsTree t.links
    → IsMovable depth active t.links
    → (active == fixed) ≡ false
    → container_get_siblings (detach_if_placed depth active t).links fixed ≡ some s
    → let t' = container_add_sibling depth fixed active after t in
      (container_get_siblings t'.links fixed ≡ some s) × IsBeside t'.links fixed active after
unfolding container_add_sibling
container_add_sibling-IsBeside depth fixed active after s t v m other e =
    let t1 = detach_if_placed depth active t in
    let free = detach_if_placed-IsFree depth active t v m in
    let xs = items t1.links s in
    let i = if after then index_of fixed xs + 1 else index_of fixed xs in
    rw (e, container_add_sibling)
      (rw
        (links-place depth active s (insert_at i active xs) (t1.parent fixed) (t1.workspace fixed)
          t1)
        (place_links-IsBeside depth fixed active after s t1.links free e other))
