-- ===== src/Tree/Links/Free.antt =====
-- Containers of the pending tree (sway/tree/container.c) that are taken out, or have no place yet,
-- and can be put elsewhere.
use swirl.Prelude.{
  ℕ, suc, ◌+◌, ◌==◌, ◌≡◌, refl, ◌∙◌, sym, false, Option, none, some, List, [], ◌∷◌, if◌then◌else◌,
  inl, inr, Option-cases, Bool-cases,
}
use mathlib.Core.Path.{fun_ext, subst}
use swirl.Prelude.Members.{member, occurrences}
use swirl.Tree.Links.{
  Links, Siblings, of_children, of_tiling, of_floating, items, container_get_siblings, remove_links,
  detach_links, detach_placed, place_links,
}
use swirl.Tree.Links.Counts.{
  Fits, in_container, in_tiling, in_floating, each_set_workspace-SameLists, detach_links-cleared,
}
use swirl.Tree.Links.Depth.{Within, Avoids}
use swirl.Tree.Links.Moves.{
  IsTree, remove_links-others, remove_links-Within, remove_links-Avoids, detach_links-IsTree,
  place_links-IsTree,
}

-- A container that may be moved: it has no parent without a workspace, and its tree is no deeper
-- than `depth`.
pub record IsMovable (depth c : ℕ) (l : Links) : Type 0 where
  pub placed : l.workspace c ≡ none → l.parent c ≡ none
  pub shallow : Within l.children (suc depth) (c ∷ [])

-- What the moves rely on when the container has been taken out.
pub record IsFree (depth c : ℕ) (l : Links) : Type 0 where
  pub tree : IsTree l
  pub no_parent : l.parent c ≡ none
  pub no_workspace : l.workspace c ≡ none
  pub depth_kept : Within l.children (suc depth) (c ∷ [])

pub detach_links-children :
    (depth c : ℕ) (l : Links) → (detach_links depth c l).children ≡ (remove_links c l).children
unfolding detach_links
detach_links-children depth c l = fun_ext (each_set_workspace-SameLists depth _ _).same_children

pub detach_links-Within_all :
    (depth c n : ℕ) (cs : List ℕ) (l : Links)
    → Within l.children n cs
    → Within (detach_links depth c l).children n cs
detach_links-Within_all depth c n cs l h =
    subst (λ f. Within f n cs) (sym (detach_links-children depth c l))
      (remove_links-Within c n cs l h)

pub detach_links-Within :
    (depth c d : ℕ) (l : Links)
    → Within l.children (suc depth) (d ∷ [])
    → Within (detach_links depth c l).children (suc depth) (d ∷ [])
detach_links-Within depth c d l h = detach_links-Within_all depth c (suc depth) (d ∷ []) l h

pub detach_links-IsFree :
    (depth c : ℕ) (l : Links)
    → IsTree l
    → Within l.children (suc depth) (c ∷ [])
    → IsFree depth c (detach_links depth c l)
detach_links-IsFree depth c l v h = record {
  tree = detach_links-IsTree depth c l v h;
  no_parent = (detach_links-cleared depth c l).0;
  no_workspace = (detach_links-cleared depth c l).1;
  depth_kept = detach_links-Within depth c c l h;
}

-- Another container that has been taken out stays free.
pub detach_links-stays-IsFree :
    (depth c d : ℕ) (l : Links)
    → (c == d) ≡ false
    → IsFree depth d l
    → Within l.children (suc depth) (c ∷ [])
    → IsFree depth d (detach_links depth c l)
unfolding detach_links
detach_links-stays-IsFree depth c d l other f h =
    let (up, ws) = remove_links-others c l d other in
    let same =
      each_set_workspace-SameLists depth ((remove_links c l).children c) (remove_links c l) in
    let top : (remove_links c l).parent d ≡ none = up ∙ f.no_parent in
    record {
      tree = detach_links-IsTree depth c l f.tree h;
      no_parent = same.same_parent d ∙ top;
      no_workspace = same.same_top d top ∙ ws ∙ f.no_workspace;
      depth_kept = detach_links-Within depth c d l f.depth_kept;
    }

pub detach_placed-IsFree :
    (depth c : ℕ) (l : Links)
    → IsTree l
    → IsMovable depth c l
    → IsFree depth c (detach_placed depth c l)
unfolding detach_placed
detach_placed-IsFree depth c l v m = elim (Option-cases (l.workspace c)) [
  | inl e ↦
      rw (e, detach_placed)
        (record { tree = v; no_parent = m.placed e; no_workspace = e; depth_kept = m.shallow })
  | inr (w, e) ↦ rw (e, detach_placed) (detach_links-IsFree depth c l v m.shallow)
]

pub detach_placed-Avoids :
    (depth c q : ℕ) (l : Links)
    → Avoids l.children q (suc depth) (c ∷ [])
    → Avoids (detach_placed depth c l).children q (suc depth) (c ∷ [])
unfolding detach_placed
detach_placed-Avoids depth c q l h = elim (Option-cases (l.workspace c)) [
  | inl e ↦
      (let same : detach_placed depth c l ≡ l = rw (e, detach_placed) refl in moved l (sym same) h)
  | inr (w, e) ↦
      (let same : detach_placed depth c l ≡ detach_links depth c l = rw (e, detach_placed) refl in
        moved (detach_links depth c l) (sym same) (
          subst (λ f. Avoids f q (suc depth) (c ∷ [])) (sym (detach_links-children depth c l))
            (remove_links-Avoids c q (suc depth) (c ∷ []) l h)))
]
  where
    moved :
        (m : Links)
        → m ≡ detach_placed depth c l
        → Avoids m.children q (suc depth) (c ∷ [])
        → Avoids (detach_placed depth c l).children q (suc depth) (c ∷ [])
    moved m e k = subst (λ n. Avoids n.children q (suc depth) (c ∷ [])) e k

-- A container that has been taken out can be put anywhere else.
pub IsFree-place_links :
    (depth c : ℕ) (s : Siblings) (xs : List ℕ) (p w : Option ℕ) (l : Links)
    → IsFree depth c l
    → Fits s p w
    → ((q : ℕ) → p ≡ some q → (w ≡ l.workspace q) × Avoids l.children q (suc depth) (c ∷ []))
    → ((x : ℕ) → occurrences x xs ≡ (if c == x then 1 else 0) + occurrences x (items l s))
    → IsTree (place_links depth c s xs p w l)
IsFree-place_links depth c s xs p w l f fits away more =
    place_links-IsTree depth c s xs p w l fits away more f.no_parent f.no_workspace f.depth_kept
      f.tree

pub parent-detach_placed :
    (depth c x : ℕ) (l : Links) → (c == x) ≡ false → (detach_placed depth c l).parent x ≡ l.parent x
unfolding detach_placed detach_links
parent-detach_placed depth c x l e = elim (Option-cases (l.workspace c)) [
  | inl ws ↦ rw (ws, detach_placed) refl
  | inr (w, ws) ↦
      rw (ws, detach_placed)
        ((each_set_workspace-SameLists depth _ _).same_parent x ∙ (remove_links-others c l x e).0)
]

-- The place of a container that stands in a list, with its pointers.
pub siblings-Fits :
    (l : Links) (c : ℕ) (s : Siblings)
    → container_get_siblings l c ≡ some s
    → Fits s (l.parent c) (l.workspace c)
unfolding container_get_siblings
siblings-Fits l c s e = elim (Option-cases (l.parent c)) [
  | inr (p, up) ↦
      (let e' : some (of_children p) ≡ some s = rw (up, container_get_siblings) at e in
        let same : of_children p ≡ s = cc in rw (up, ← same) (in_container p (l.workspace c)))
  | inl up ↦ elim (Option-cases (l.workspace c)) [
    | inl ws ↦ absurd (let e' : none ≡ some s = rw (up, ws, container_get_siblings) at e in cc)
    | inr (w, ws) ↦ elim (Bool-cases (member c (l.tiling w))) [
      | inl m ↦
          (let e' : some (of_tiling w) ≡ some s = rw (up, ws, m, container_get_siblings) at e in
            let same : of_tiling w ≡ s = cc in rw (up, ws, ← same) (in_tiling w))
      | inr m ↦
          (let e' : some (of_floating w) ≡ some s = rw (up, ws, m, container_get_siblings) at e in
            let same : of_floating w ≡ s = cc in rw (up, ws, ← same) (in_floating w))
    ]
  ]
]
