-- ===== src/Tree/Pending/Wrap/Steps.antt =====
-- One round of the loop of workspace_wrap_children (sway/tree/workspace.c) on the links of the pending
-- tree: a column is taken out and put into the new container.
use swirl.Prelude.{
  ℕ, suc, ◌==◌, ◌≡◌, refl, ◌∙◌, ap, arith, true, false, none, some, List, [], ◌∷◌, ◌++◌, inl, inr,
  Option-cases, ==_iff,
}
use mathlib.Core.Path.{fun_ext}
use swirl.Prelude.Members.{member, member-occurrences}
use swirl.Tree.Links.{
  Links, set_at, of_children, container_get_siblings, remove_links, detach_links, put_links,
  place_links,
}
use swirl.Tree.Links.Counts.{IsLinked, each_set_workspace-SameLists}
use swirl.Tree.Links.Depth.{Within, Avoids, Within-set_at}
use swirl.Tree.Links.Moves.{IsTree, remove_links-others}
use swirl.Tree.Links.Free.{IsFree}
use swirl.Tree.Pending.Floating.Columns.{unlisted-Avoids}

-- The first column of a workspace.
pub first_column :
    (ws child : ℕ) (rest : List ℕ) (l : Links)
    → IsLinked l
    → l.tiling ws ≡ child ∷ rest
    → (l.parent child ≡ none) × (l.workspace child ≡ some ws) × (member child (l.tiling ws) ≡ true)
first_column ws child rest l v e =
    let n = (v child ws).1 in
    let itself : (child == child) ≡ true = (==_iff child child).1 refl in
    let there : member child (l.tiling ws) ≡ true = rw (e, itself) refl in
    let some_there = member-occurrences child (l.tiling ws) in
    (
      ground (arith, n, there, some_there),
      elim (Option-cases (l.workspace child)) [
        | inl none_at ↦ absurd (ground (arith, n, there, some_there, none_at))
        | inr (w, points) ↦
            (let same : (w == ws) ≡ true = ground (arith, n, there, some_there, points) in
              points ∙ ap some ((==_iff w ws).0 same))
      ],
      there,
    )

-- It is taken out.
pub first-detach_links :
    (depth ws child : ℕ) (rest : List ℕ) (l : Links)
    → IsLinked l
    → l.tiling ws ≡ child ∷ rest
    → ((detach_links depth child l).tiling ws ≡ rest)
      × ((detach_links depth child l).children ≡ l.children)
unfolding detach_links remove_links container_get_siblings
first-detach_links depth ws child rest l v e =
    let (up, wsp, there) = first_column ws child rest l v e in
    let m = remove_links child l in
    let same = each_set_workspace-SameLists depth (m.children child) m in
    let itself : (child == child) ≡ true = (==_iff child child).1 refl in
    let here : (ws == ws) ≡ true = (==_iff ws ws).1 refl in
    let listed : m.tiling ws ≡ rest = rw (remove_links, up, wsp, there, here, e, itself) refl in
    let kids : m.children ≡ l.children = rw (remove_links, up, wsp, there) refl in
    (same.same_tiling ws ∙ listed, fun_ext same.same_children ∙ kids)

-- What the loop keeps: the new container is in no list, and all that is below it and the columns is
-- within the depth.
pub record IsWrapping (depth ws middle : ℕ) (l : Links) : Type 0 where
  pub tree : IsTree l
  pub no_parent : l.parent middle ≡ none
  pub no_workspace : l.workspace middle ≡ none
  pub columns : Within l.children (suc depth) (l.tiling ws)
  pub wrapped : Within l.children (suc depth) (l.children middle)

Within-end :
    (ch : ℕ → List ℕ) (depth c : ℕ) (cs : List ℕ)
    → Within ch (suc depth) cs
    → Within ch depth (ch c)
    → Within ch (suc depth) (cs ++ c ∷ [])
Within-end ch depth c [] h k = (k, tt)
Within-end ch depth c (x ∷ cs) h k = (h.0, Within-end ch depth c cs h.1 k)

-- The new container is in no list of children, and is no column.
not_listed :
    (middle : ℕ) (l : Links)
    → IsTree l
    → l.parent middle ≡ none
    → l.workspace middle ≡ none
    → (a : ℕ) → (member middle (l.children a) ≡ false) × (member middle (l.tiling a) ≡ false)
not_listed middle l v up ws a =
    let n = v.linked middle a in
    (
      ground (arith, n, up, member-occurrences middle (l.children a)),
      ground (arith, n, up, ws, member-occurrences middle (l.tiling a)),
    )

-- The new container stays where it is while a column is taken out.
pub middle-detach_links :
    (depth child middle : ℕ) (l : Links)
    → (child == middle) ≡ false
    → l.parent middle ≡ none
    → l.workspace middle ≡ none
    → ((detach_links depth child l).parent middle ≡ none)
      × ((detach_links depth child l).workspace middle ≡ none)
unfolding detach_links
middle-detach_links depth child middle l other up ws =
    let m = remove_links child l in
    let (up', ws') = remove_links-others child l middle other in
    let same = each_set_workspace-SameLists depth (m.children child) m in
    (same.same_parent middle ∙ up' ∙ up, same.same_top middle (up' ∙ up) ∙ ws' ∙ ws)

-- The links once a detached column is in the new container.
module _ (depth ws middle child : ℕ) (k : Links) (other : (child == middle) ≡ false)
    (up : k.parent middle ≡ none) (none_at : k.workspace middle ≡ none)
    (f : IsFree depth child k) where
  abbrev pub filled : Links
  filled =
      place_links depth child (of_children middle) (k.children middle ++ child ∷ []) (some middle)
        (k.workspace middle) k

  abbrev put : Links
  put =
      put_links child (of_children middle) (k.children middle ++ child ∷ []) (some middle)
        (k.workspace middle) k

  pub filled-lists :
      (filled.parent middle ≡ none)
      × (filled.workspace middle ≡ none)
      × (filled.tiling ws ≡ k.tiling ws)
      × (filled.children ≡ set_at k.children middle (k.children middle ++ child ∷ []))
  unfolding place_links put_links
  filled-lists =
      let same = each_set_workspace-SameLists depth (put.children child) put in
      let top : put.parent middle ≡ none = rw other up in
      (
        same.same_parent middle ∙ top,
        same.same_top middle top ∙ rw other none_at,
        same.same_tiling ws,
        fun_ext same.same_children,
      )

  pub avoids : (n : ℕ) (cs : List ℕ) → member middle cs ≡ false → Avoids k.children middle n cs
  avoids n cs h =
      unlisted-Avoids k.children middle n cs (λ a. (not_listed middle k f.tree up none_at a).0) h

  pub filled-Within :
      Within k.children (suc depth) (k.tiling ws)
      → Within k.children (suc depth) (k.children middle)
      → Within filled.children (suc depth) (filled.tiling ws)
        × Within filled.children (suc depth) (filled.children middle)
  filled-Within cs ms =
      let (_, _, tiles, kids) = filled-lists in
      let out = not_listed middle k f.tree up none_at in
      let itself : (middle == middle) ≡ true = (==_iff middle middle).1 refl in
      let xs = k.children middle ++ child ∷ [] in
      let apart : (middle == child) ≡ false = ground (arith, other) in
      (
        rw (kids, tiles)
            (Within-set_at k.children middle xs (suc depth) (k.tiling ws) cs
              (avoids (suc depth) (k.tiling ws) (out ws).1)),
        rw (kids, itself)
            (Within-end (set_at k.children middle xs) depth child (k.children middle)
              (Within-set_at k.children middle xs (suc depth) (k.children middle) ms
                (avoids (suc depth) (k.children middle) (out middle).0))
              (rw apart (
                Within-set_at k.children middle xs depth (k.children child) (f.depth_kept.0)
                  (avoids depth (k.children child) (out child).0)))),
      )
