-- ===== src/Tree/Links/Agree.antt =====
-- The workspaces of the containers below a container (sway/tree/container.c): what the recursion of
-- container_for_each_child over set_workspace reaches.
use swirl.Prelude.{ℕ, zero, suc, ◌≡◌, refl, ◌∙◌, arith, false, ◌||◌, some, List, [], ◌∷◌, ◌++◌}
use mathlib.Core.Path.{fun_ext}
use swirl.Prelude.Members.{member, member-occurrences}
use swirl.Tree.Links.Depth.{Within}
use swirl.Tree.Links.{Links, set_workspace, each_set_workspace}
use swirl.Tree.Links.Counts.{
  IsLinked, each_set_workspace-SameLists, set_workspace-SameLists, SameLists-IsLinked,
}

-- Every container, except for the listed ones, is in the workspace of its parent.
abbrev pub Agrees : Links → List ℕ → Type 0
Agrees l zs = (x p : ℕ) → l.parent x ≡ some p → member x zs ≡ false → l.workspace x ≡ l.workspace p

pub member-append_or : (x : ℕ) (xs ys : List ℕ) → member x (xs ++ ys) ≡ (member x xs || member x ys)
member-append_or x [] ys = refl
member-append_or x (y ∷ xs) ys = ground (arith, member-append_or x xs ys)

set_workspace-Agrees :
    (c : ℕ) (zs : List ℕ) (l : Links)
    → IsLinked l
    → Agrees l (c ∷ zs)
    → Agrees (set_workspace c l) (l.children c ++ zs)
unfolding set_workspace
set_workspace-Agrees c zs l v a x p up out =
    let vx = (v x c).0 in
    ground (arith, member-append_or x (l.children c) zs, member-occurrences x (l.children c), a x p)

-- If only containers below the listed ones, and others in `zs`, may be in the wrong workspace, then
-- only those in `zs` are after the recursion.
pub each_set_workspace-Agrees :
    (depth : ℕ) (cs zs : List ℕ) (l : Links)
    → IsLinked l
    → Within l.children depth cs
    → Agrees l (cs ++ zs)
    → Agrees (each_set_workspace depth cs l) zs
unfolding each_set_workspace
each_set_workspace-Agrees zero cs zs l v h a = rw h at a
each_set_workspace-Agrees (suc depth) [] zs l v h a = a
each_set_workspace-Agrees (suc depth) (c ∷ cs) zs l v h a =
    let l1 = set_workspace c l in
    let same = set_workspace-SameLists c l in
    let v1 = SameLists-IsLinked l l1 same v in
    let kids : l1.children ≡ l.children = fun_ext same.same_children in
    let a1 : Agrees l1 (l1.children c ++ (cs ++ zs)) =
      rw (same.same_children c) (set_workspace-Agrees c (cs ++ zs) l v a) in
    let l2 = each_set_workspace depth (l1.children c) l1 in
    let same2 = each_set_workspace-SameLists depth (l1.children c) l1 in
    let kids2 : l2.children ≡ l.children = fun_ext same2.same_children ∙ kids in
    let a2 = each_set_workspace-Agrees depth (l1.children c) (cs ++ zs) l1 v1 (rw kids h.0) a1 in
    each_set_workspace-Agrees (suc depth) cs zs l2 (SameLists-IsLinked l1 l2 same2 v1)
      (rw kids2 h.1) a2
