-- ===== src/Tree/Pending/Swap/Places.antt =====
-- Where workspace_swap_columns of sway/tree/workspace.c leaves the columns of one workspace.
use swirl.Prelude.{ℕ, ◌==◌, ◌≡◌, refl, ◌∙◌, ap, arith, true, false, some, map, ==_iff}
use swirl.Prelude.Members.{member, occurrences, member-occurrences}
use swirl.Tree.Links.{Links, set_at}
use swirl.Tree.Links.Moves.{IsTree}
use swirl.Tree.Pending.{Pending}
use swirl.Tree.Pending.Swap.{swap_columns_in, swap_within, with_workspaces, workspace_swap_columns}
use swirl.Tree.Pending.Swap.Exchanges.{swapped, swap_in_list_lem}
use swirl.Tree.Pending.Swap.Trees.{links-swap_within}

-- On a pending tree, a column stands once among the columns of a workspace.
once :
    (c w : ℕ) (l : Links) → IsTree l → member c (l.tiling w) ≡ true → occurrences c (l.tiling w) ≡ 1
once c w l v h = let n = (v.linked c w).1 in ground (arith, n, member-occurrences c (l.tiling w))

-- The branch that is taken.
called :
    (depth a b : ℕ) (t : Pending)
    → (a == b) ≡ false
    → workspace_swap_columns depth a b t
      ≡ with_workspaces (t.workspace a) (t.workspace b) (swap_columns_in depth a b) t
unfolding workspace_swap_columns
called depth a b t other = rw (workspace_swap_columns, other) refl

called_within :
    (depth a b w : ℕ) (t : Pending)
    → member a (t.tiling w) ≡ true
    → member b (t.tiling w) ≡ true
    → swap_columns_in depth a b w w t ≡ swap_within a b w t
unfolding swap_columns_in
called_within depth a b w t in_a in_b =
    let here : (w == w) ≡ true = (==_iff w w).1 refl in rw (swap_columns_in, in_a, in_b, here) refl

-- On a pending tree, for two different columns of one workspace, workspace_swap_columns puts each of
-- them where the other stood, leaves all other columns in their places, and changes no other list,
-- parent or workspace.
pub workspace_swap_columns-swapped :
    (depth a b w : ℕ) (t : Pending)
    → IsTree t.links
    → (a == b) ≡ false
    → t.workspace a ≡ some w
    → t.workspace b ≡ some w
    → member a (t.tiling w) ≡ true
    → member b (t.tiling w) ≡ true
    → (workspace_swap_columns depth a b t).links
      ≡ record (t.links) { tiling = set_at t.tiling w (map (swapped a b) (t.tiling w)) }
workspace_swap_columns-swapped depth a b w t v other wa wb in_a in_b =
    let f = swap_columns_in depth a b in
    let moved =
      swap_in_list_lem a b (t.tiling w) other (once a w t.links v in_a) (once b w t.links v in_b) in
    ap (λ u. u.links)
      (called depth a b t other
        ∙ ap (λ o. with_workspaces o (t.workspace b) f t) wa
        ∙ ap (λ o. with_workspaces (some w) o f t) wb
        ∙ called_within depth a b w t in_a in_b)
    ∙ links-swap_within a b w t
    ∙ ap (λ cs. record (t.links) { tiling = set_at t.tiling w cs }) moved
