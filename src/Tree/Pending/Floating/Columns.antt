-- ===== src/Tree/Pending/Floating/Columns.antt =====
-- A new column around a container, and its place (container_set_floating of sway/tree/container.c),
-- on the links of the pending tree.
use swirl.Prelude.{
  ℕ, zero, suc, ◌==◌, ◌≡◌, refl, ◌∙◌, sym, ap, arith, true, false, none, some, List, [], ◌∷◌, inl,
  inr, Option-cases, Bool-cases, ==_iff,
}
use mathlib.Core.Path.{subst, fun_ext}
use swirl.Prelude.Members.{member, insert_at, occurrences-insert_at, member-occurrences}
use swirl.Tree.Types.{Layout}
use swirl.Tree.Links.{
  Links, set_at, of_children, of_tiling, set_workspace, each_set_workspace, put_links, place_links,
}
use swirl.Tree.Links.Counts.{
  in_container, in_tiling, each_set_workspace-SameLists, SameLists-IsLinked,
}
use swirl.Tree.Links.Depth.{Within, Avoids, Within-set_at}
use swirl.Tree.Links.Agree.{each_set_workspace-Agrees}
use swirl.Tree.Links.Moves.{IsTree, place_links-IsTree}
use swirl.Tree.Links.Free.{IsFree}
use swirl.Tree.Pending.{Pending}
use swirl.Tree.Pending.Reparent.{container_create}
use swirl.Tree.Pending.Floating.{insert_column_links}

-- A number that no container has yet.
pub record IsUnused (fresh : ℕ) (l : Links) : Type 0 where
  pub no_parent : l.parent fresh ≡ none
  pub no_workspace : l.workspace fresh ≡ none
  pub no_children : l.children fresh ≡ []

-- Writing what is there.
set_at-same : {A : Type 0} → (f : ℕ → A) (i : ℕ) (a : A) → f i ≡ a → set_at f i a ≡ f
set_at-same f i a e = fun_ext (λ j. elim (Bool-cases (i == j)) [
  | inl same ↦ rw (same) (sym e ∙ ap f ((==_iff i j).0 same))
  | inr other ↦ rw other refl
])

pub links-container_create :
    (fresh : ℕ) (layout : Layout) (t : Pending)
    → IsUnused fresh t.links
    → (container_create fresh layout t).links ≡ t.links
unfolding container_create
links-container_create fresh layout t u =
    rw
      (
        container_create,
        set_at-same t.parent fresh none u.no_parent,
        set_at-same t.workspace fresh none u.no_workspace,
        set_at-same t.children fresh [] u.no_children,
      )
      refl

-- A node that stands in no list of children is not below other nodes.
pub unlisted-Avoids :
    (ch : ℕ → List ℕ) (q depth : ℕ) (cs : List ℕ)
    → ((a : ℕ) → member q (ch a) ≡ false)
    → member q cs ≡ false
    → Avoids ch q depth cs
unlisted-Avoids ch q zero cs h e = tt
unlisted-Avoids ch q (suc depth) [] h e = tt
unlisted-Avoids ch q (suc depth) (c ∷ cs) h e =
    let first : (q == c) ≡ false = ground (arith, e, ==_iff q c, ==_iff c q) in
    (
      first,
      unlisted-Avoids ch q depth (ch c) h (h c),
      unlisted-Avoids ch q (suc depth) cs h (ground (arith, e)),
    )

-- Setting the workspaces again keeps the tree.
each_set_workspace-IsTree :
    (depth : ℕ) (cs : List ℕ) (l : Links)
    → IsTree l
    → Within l.children depth cs
    → IsTree (each_set_workspace depth cs l)
each_set_workspace-IsTree depth cs l v h = record {
  linked = SameLists-IsLinked l _ (each_set_workspace-SameLists depth cs l) v.linked;
  agrees = each_set_workspace-Agrees depth cs [] l v.linked h (λ x p up out. v.agrees x p up refl);
}

abbrev with_tiling : (ℕ → List ℕ) → Links → Links
with_tiling f l = record l { tiling = f }

-- The lists of columns do not matter for that.
set_workspace-with_tiling :
    (f : ℕ → List ℕ) (c : ℕ) (l : Links)
    → set_workspace c (with_tiling f l) ≡ with_tiling f (set_workspace c l)
unfolding set_workspace
set_workspace-with_tiling f c l = elim (Option-cases (l.parent c)) [
  | inl e ↦ rw (set_workspace, e) refl
  | inr (p, e) ↦ rw (set_workspace, e) refl
]

each-with_tiling :
    (f : ℕ → List ℕ) (depth : ℕ) (cs : List ℕ) (l : Links)
    → each_set_workspace depth cs (with_tiling f l) ≡ with_tiling f (each_set_workspace depth cs l)
unfolding each_set_workspace
each-with_tiling f zero cs l = refl
each-with_tiling f (suc depth) [] l = refl
each-with_tiling f (suc depth) (c ∷ cs) l =
    let l1 = set_workspace c l in
    ap (λ m. each_set_workspace (suc depth) cs (each_set_workspace depth (m.children c) m))
      (set_workspace-with_tiling f c l)
    ∙ ap (each_set_workspace (suc depth) cs) (each-with_tiling f depth (l1.children c) l1)
    ∙ each-with_tiling f (suc depth) cs (each_set_workspace depth (l1.children c) l1)

module _ (depth fresh ws idx c : ℕ) (l : Links) (u : IsUnused fresh l)
    (other : (fresh == c) ≡ false) (f : IsFree depth c l) where
  -- The links with the workspace of the column, and with its place.
  abbrev owned : Links
  owned = record l { workspace = set_at l.workspace fresh (some ws) }

  abbrev listed : ℕ → List ℕ
  listed = set_at l.tiling ws (insert_at idx fresh (l.tiling ws))

  abbrev placed : Links
  placed = with_tiling listed owned

  itself : (fresh == fresh) ≡ true
  itself = (==_iff fresh fresh).1 refl

  placed-IsTree : IsTree placed
  unfolding put_links place_links each_set_workspace
  placed-IsTree =
      let v =
        place_links-IsTree 0 fresh (of_tiling ws) (insert_at idx fresh (l.tiling ws)) none (some ws)
          l (in_tiling ws) (λ q e. absurd (cc e))
          (λ x. occurrences-insert_at x idx fresh (l.tiling ws)) u.no_parent u.no_workspace
          (u.no_children, tt) f.tree in
      subst
        (λ up. IsTree (record l {
          parent = up;
          workspace = set_at l.workspace fresh (some ws);
          tiling = listed;
        }))
        (set_at-same l.parent fresh none u.no_parent) v

  -- The column is in no list of children.
  unlisted : (a : ℕ) → member fresh (l.children a) ≡ false
  unlisted a =
      let n = (f.tree.linked fresh a).0 in
      ground (arith, n, u.no_parent, member-occurrences fresh (l.children a))

  outside : Avoids l.children fresh (suc depth) (c ∷ [])
  outside =
      let apart : (c == fresh) ≡ false = ground (arith, other) in
      unlisted-Avoids l.children fresh (suc depth) (c ∷ []) unlisted (rw apart refl)

  abbrev around : Links → Links
  around m = place_links depth c (of_children fresh) (c ∷ []) (some fresh) (some ws) m

  around-IsTree : IsTree (around placed)
  around-IsTree =
      place_links-IsTree depth c (of_children fresh) (c ∷ []) (some fresh) (some ws) placed
        (in_container fresh (some ws))
        (λ q e.
          let same : fresh ≡ q = cc in
          subst (λ x. (some ws ≡ placed.workspace x) × Avoids l.children x (suc depth) (c ∷ []))
            same (rw itself refl, outside))
        (λ x. rw (u.no_children) (omega arith)) f.no_parent (rw other f.no_workspace) f.depth_kept
        placed-IsTree

  abbrev put : Links → Links
  put m = put_links c (of_children fresh) (c ∷ []) (some fresh) (some ws) m

  around-children : (around placed).children ≡ set_at l.children fresh (c ∷ [])
  unfolding place_links put_links
  around-children =
      fun_ext
        (each_set_workspace-SameLists depth ((put placed).children c) (put placed)).same_children

  around-tiling : (around owned).tiling ≡ l.tiling
  unfolding place_links put_links
  around-tiling =
      fun_ext (each_set_workspace-SameLists depth ((put owned).children c) (put owned)).same_tiling

  column-IsTree :
      IsTree (each_set_workspace (suc depth) ((around placed).children fresh) (around placed))
  column-IsTree =
      each_set_workspace-IsTree (suc depth) ((around placed).children fresh) (around placed)
        around-IsTree
        (rw (around-children, itself)
          (Within-set_at l.children fresh (c ∷ []) (suc depth) (c ∷ []) f.depth_kept outside))

  around-with_tiling : around placed ≡ with_tiling listed (around owned)
  unfolding place_links put_links
  around-with_tiling = each-with_tiling listed depth ((put owned).children c) (put owned)

  -- The order in which the code does it.
  pub inserted-IsTree : IsTree (insert_column_links (suc depth) fresh ws idx (around owned))
  unfolding insert_column_links
  inserted-IsTree =
      let k = around owned in
      let same : insert_column_links (suc depth) fresh ws idx k
          ≡ each_set_workspace (suc depth) (k.children fresh) (with_tiling listed k) =
        ap
          (λ f.
            each_set_workspace (suc depth) (k.children fresh)
              (with_tiling (set_at f ws (insert_at idx fresh (f ws))) k))
          around-tiling in
      let settled =
        ap (λ m. each_set_workspace (suc depth) (m.children fresh) m) around-with_tiling in
      subst IsTree (settled ∙ sym same) column-IsTree
