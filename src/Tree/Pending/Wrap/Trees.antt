-- ===== src/Tree/Pending/Wrap/Trees.antt =====
-- workspace_wrap_children of sway/tree/workspace.c on the links of the pending tree.
use swirl.Prelude.{
  ℕ, zero, suc, ◌==◌, ◌≡◌, refl, ◌∙◌, sym, ap, arith, false, none, some, List, [], ◌∷◌, ◌++◌, inl,
  inr, Bool-cases, List-cases, ==_iff, length,
}
use mathlib.Core.Path.{subst}
use swirl.Tree.Types.{Layout}
use swirl.Tree.Links.{of_children, place_links}
use swirl.Tree.Links.Depth.{Within}
use swirl.Tree.Links.Moves.{IsTree}
use swirl.Tree.Links.Free.{IsFree, detach_links-IsFree}
use swirl.Tree.Pending.{Pending, container_detach}
use swirl.Tree.Pending.Reparent.{container_create, container_add_child}
use swirl.Tree.Pending.Reparent.Frames.{links-container_detach}
use swirl.Tree.Pending.Reparent.Trees.{container_add_child-IsTree, workspace_attach_tiling-IsTree}
use swirl.Tree.Pending.Destroy.{is_empty}
use swirl.Tree.Pending.Floating.Columns.{IsUnused, links-container_create}
use swirl.Tree.Pending.Floating.Trees.{
  IsFree-IsMovable, links-container_add_child, links-detach_placed,
}
use swirl.Tree.Pending.Wrap.{wrap_loop, workspace_wrap_children, workspace_split}
use swirl.Tree.Pending.Wrap.Steps.{
  first_column, first-detach_links, IsWrapping, middle-detach_links, filled, filled-lists, avoids,
  filled-Within,
}

wrap_step :
    (depth ws middle child : ℕ) (rest : List ℕ) (t : Pending)
    → IsWrapping depth ws middle t.links
    → t.tiling ws ≡ child ∷ rest
    → IsWrapping depth ws middle
        (container_add_child depth middle child (container_detach depth child t)).links
wrap_step depth ws middle child rest t i e =
    let l = t.links in
    let (up, wsp, there) = first_column ws child rest l i.tree.linked e in
    let column : Within l.children (suc depth) (child ∷ rest) = rw e at i.columns in
    let other : (child == middle) ≡ false =
      ground (arith, wsp, i.no_workspace, ==_iff child middle) in
    let t1 = container_detach depth child t in
    let k = t1.links in
    let detached = links-container_detach depth child t in
    let (left, kids) = first-detach_links depth ws child rest l i.tree.linked e in
    let (mup, mws) = middle-detach_links depth child middle l other i.no_parent i.no_workspace in
    let f : IsFree depth child k =
      rw detached (detach_links-IsFree depth child l i.tree (column.0, tt)) in
    let kup : k.parent middle ≡ none = rw detached mup in
    let kws : k.workspace middle ≡ none = rw detached mws in
    let ktiles : k.tiling ws ≡ rest = rw detached left in
    let kkids : k.children ≡ l.children = rw detached kids in
    let lists = filled-lists depth ws middle child k other kup kws f in
    let below =
      filled-Within depth ws middle child k other kup kws f (rw (ktiles, kkids) (column.1))
        (rw kkids (i.wrapped)) in
    let all : (container_add_child depth middle child t1).links
        ≡ filled depth ws middle child k other kup kws f =
      links-container_add_child depth middle child t1
      ∙ ap
          (λ d.
            place_links depth child (of_children middle) (d.children middle ++ child ∷ [])
              (some middle) (d.workspace middle) d)
          (links-detach_placed depth child k f.no_workspace) in
    record {
      tree =
          container_add_child-IsTree depth middle child t1 f.tree (IsFree-IsMovable depth child k f)
            (avoids depth ws middle child k other kup kws f (suc depth) (child ∷ [])
              (rw other refl));
      no_parent = ap (λ m. m.parent middle) all ∙ lists.0;
      no_workspace = ap (λ m. m.workspace middle) all ∙ lists.1;
      columns = subst (λ m. Within m.children (suc depth) (m.tiling ws)) (sym all) below.0;
      wrapped = subst (λ m. Within m.children (suc depth) (m.children middle)) (sym all) below.1;
    }

wrap_loop-IsWrapping :
    (rounds depth ws middle : ℕ) (t : Pending)
    → IsWrapping depth ws middle t.links
    → IsWrapping depth ws middle (wrap_loop rounds depth ws middle t).links
unfolding wrap_loop
wrap_loop-IsWrapping zero depth ws middle t i = i
wrap_loop-IsWrapping (suc rounds) depth ws middle t i = elim (List-cases (t.tiling ws)) [
  | inl e ↦ rw (wrap_loop, e) i
  | inr (child, rest, e) ↦
      rw (wrap_loop, e)
        (wrap_loop-IsWrapping rounds depth ws middle _ (wrap_step depth ws middle child rest t i e))
]

pub workspace_wrap_children-IsTree :
    (depth middle ws : ℕ) (t : Pending)
    → IsTree t.links
    → IsUnused middle t.links
    → Within t.children (suc depth) (t.tiling ws)
    → IsTree (workspace_wrap_children depth middle ws t).links
unfolding workspace_wrap_children
workspace_wrap_children-IsTree depth middle ws t v u h =
    let made = links-container_create middle (t.ws_layout ws) t u in
    let t1 = container_create middle (t.ws_layout ws) t in
    let t2 = wrap_loop (length (t.tiling ws)) depth ws middle t1 in
    let i : IsWrapping depth ws middle t2.links =
      wrap_loop-IsWrapping (length (t.tiling ws)) depth ws middle t1 (
        rw made (record {
          tree = v;
          no_parent = u.no_parent;
          no_workspace = u.no_workspace;
          columns = h;
          wrapped = rw (u.no_children) tt;
        })) in
    workspace_attach_tiling-IsTree (suc depth) ws middle t2 (record {
      tree = i.tree;
      no_parent = i.no_parent;
      no_workspace = i.no_workspace;
      depth_kept = (i.wrapped, tt);
    })

pub workspace_split-IsTree :
    (depth middle ws : ℕ) (layout : Layout) (t : Pending)
    → IsTree t.links
    → IsUnused middle t.links
    → Within t.children (suc depth) (t.tiling ws)
    → IsTree (workspace_split depth middle ws layout t).links
unfolding workspace_split
workspace_split-IsTree depth middle ws layout t v u h = elim (Bool-cases (is_empty (t.tiling ws))) [
  | inl e ↦ rw (workspace_split, e) v
  | inr e ↦ rw (workspace_split, e) (workspace_wrap_children-IsTree depth middle ws t v u h)
]
