-- ===== src/Tree/Links/Moves.antt =====
-- Detaching and placing a container in the pending tree (sway/tree/container.c), with what is below
-- it.
use swirl.Prelude.{
  ℕ, suc, ◌+◌, ◌==◌, ◌≡◌, refl, ◌∙◌, sym, arith, false, Option, none, some, List, [], ◌∷◌,
  if◌then◌else◌, inl, inr, ◌⊎◌, Option-cases, Bool-cases, ==_iff,
}
use mathlib.Core.List.{append-nil}
use swirl.Prelude.Members.{member, unlink, occurrences, member-occurrences}
use swirl.Tree.Links.{
  Links, set_at, Siblings, of_children, of_tiling, of_floating, items, container_get_siblings,
  each_set_workspace, remove_links, remove_sibling, detach_links, put_links, place_links,
}
use swirl.Tree.Links.Counts.{
  IsLinked, Fits, in_container, in_tiling, in_floating, remove_links-IsLinked, remove_links-cleared,
  detach_links-IsLinked, put_links-IsLinked, place_links-IsLinked,
}
use swirl.Tree.Links.Depth.{Within, Avoids, Within-unlink, Avoids-unlink, Within-set_at}
use swirl.Tree.Links.Agree.{Agrees, each_set_workspace-Agrees}

-- The lists and the pointers say the same, and every container is in the workspace of its parent.
pub record IsTree (l : Links) : Type 0 where
  pub linked : IsLinked l
  pub agrees : Agrees l []

moved-Agrees :
    (depth c : ℕ) (l m : Links)
    → Agrees l []
    → ((x : ℕ) → (c == x) ≡ false → (m.parent x ≡ l.parent x) × (m.workspace x ≡ l.workspace x))
    → ((p : ℕ) → m.parent c ≡ some p → m.workspace c ≡ m.workspace p)
    → IsLinked m
    → Within m.children depth (m.children c)
    → Agrees (each_set_workspace depth (m.children c) m) []
moved-Agrees depth c l m a others here v h =
    each_set_workspace-Agrees depth (m.children c) [] m v h (rw (append-nil (m.children c)) below)
  where
    below : Agrees m (m.children c)
    below x p up out = elim (Bool-cases (c == x)) [
      | inl e ↦ (let same = (==_iff c x).0 e in rw (← same) (here p (rw same up)))
      | inr e ↦ elim (Bool-cases (c == p)) [
        | inl e' ↦ absurd (
            let same = (==_iff c p).0 e' in
            let vx = (v x p).0 in ground (arith, member-occurrences x (m.children c)))
        | inr e' ↦
            (let (up', ws) = others x e in
              let (_, wp) = others p e' in ws ∙ a x p (sym up' ∙ up) refl ∙ sym wp)
      ]
    ]

-- The children of all containers when `c` has been taken out of its list.
pub remove_links-children :
    (c : ℕ) (l : Links)
    → ((remove_links c l).children ≡ l.children)
      ⊎ ((a : ℕ) × ((remove_links c l).children ≡ set_at l.children a (unlink c (l.children a))))
unfolding remove_links container_get_siblings
remove_links-children c l = elim (Option-cases (l.parent c)) [
  | inr (p, up) ↦ inr (p, rw (up, remove_links) refl)
  | inl up ↦ elim (Option-cases (l.workspace c)) [
    | inl ws ↦ inl (rw (up, ws, remove_links) refl)
    | inr (w, ws) ↦ elim (Bool-cases (member c (l.tiling w))) [
      | inl m ↦ inl (rw (up, ws, m, remove_links) refl)
      | inr m ↦ inl (rw (up, ws, m, remove_links) refl)
    ]
  ]
]

pub remove_links-Within :
    (c depth : ℕ) (cs : List ℕ) (l : Links)
    → Within l.children depth cs
    → Within (remove_links c l).children depth cs
remove_links-Within c depth cs l h = elim (remove_links-children c l) [
  | inl e ↦ rw e h
  | inr (a, e) ↦ rw e (Within-unlink l.children a c depth cs h)
]

pub remove_links-Avoids :
    (c q depth : ℕ) (cs : List ℕ) (l : Links)
    → Avoids l.children q depth cs
    → Avoids (remove_links c l).children q depth cs
remove_links-Avoids c q depth cs l h = elim (remove_links-children c l) [
  | inl e ↦ rw e h
  | inr (a, e) ↦ rw e (Avoids-unlink l.children a c q depth cs h)
]

remove_sibling-pointers :
    (c : ℕ) (s : Option Siblings) (l : Links) (x : ℕ)
    → ((remove_sibling c s l).parent x ≡ l.parent x)
      × ((remove_sibling c s l).workspace x ≡ l.workspace x)
remove_sibling-pointers c none l x = (refl, refl)
remove_sibling-pointers c (some (of_children p)) l x = (refl, refl)
remove_sibling-pointers c (some (of_tiling w)) l x = (refl, refl)
remove_sibling-pointers c (some (of_floating w)) l x = (refl, refl)

pub remove_links-others :
    (c : ℕ) (l : Links) (x : ℕ)
    → (c == x) ≡ false
    → ((remove_links c l).parent x ≡ l.parent x) × ((remove_links c l).workspace x ≡ l.workspace x)
unfolding remove_links
remove_links-others c l x e =
    let (up, ws) = remove_sibling-pointers c (container_get_siblings l c) l x in rw e (up, ws)

-- `container_detach` keeps the tree right, if the tree of the container is no deeper than `depth`.
pub detach_links-IsTree :
    (depth c : ℕ) (l : Links)
    → IsTree l
    → Within l.children (suc depth) (c ∷ [])
    → IsTree (detach_links depth c l)
unfolding detach_links
detach_links-IsTree depth c l v h = record {
  linked = detach_links-IsLinked depth c l v.linked;
  agrees =
      moved-Agrees depth c l (remove_links c l) v.agrees (remove_links-others c l)
        (λ p up. absurd (let gone = (remove_links-cleared c l).0 in cc))
        (remove_links-IsLinked c l v.linked) (remove_links-Within c (suc depth) (c ∷ []) l h).0;
}

pub put_links-others :
    (c : ℕ) (s : Siblings) (xs : List ℕ) (p w : Option ℕ) (l : Links) (x : ℕ)
    → (c == x) ≡ false
    → ((put_links c s xs p w l).parent x ≡ l.parent x)
      × ((put_links c s xs p w l).workspace x ≡ l.workspace x)
unfolding put_links
put_links-others c (of_children q) xs p w l x e = rw e (refl, refl)
put_links-others c (of_tiling q) xs p w l x e = rw e (refl, refl)
put_links-others c (of_floating q) xs p w l x e = rw e (refl, refl)

put_links-here :
    (c : ℕ) (s : Siblings) (xs : List ℕ) (p w : Option ℕ) (l : Links)
    → ((q : ℕ) → p ≡ some q → w ≡ l.workspace q)
    → (q : ℕ) → (put_links c s xs p w l).parent c ≡ some q
    → (put_links c s xs p w l).workspace c ≡ (put_links c s xs p w l).workspace q
unfolding put_links
put_links-here c (of_children a) xs p w l same q e = let here = same q in ground (arith, ==_iff c c)
put_links-here c (of_tiling a) xs p w l same q e = let here = same q in ground (arith, ==_iff c c)
put_links-here c (of_floating a) xs p w l same q e = let here = same q in ground (arith, ==_iff c c)

put_links-Within :
    (c : ℕ) (s : Siblings) (xs : List ℕ) (p w : Option ℕ) (depth : ℕ) (l : Links)
    → Fits s p w
    → ((q : ℕ) → p ≡ some q → Avoids l.children q (suc depth) (c ∷ []))
    → Within l.children (suc depth) (c ∷ [])
    → Within (put_links c s xs p w l).children depth ((put_links c s xs p w l).children c)
unfolding put_links
put_links-Within c _ xs _ w depth l (in_container q _) away h =
    (Within-set_at l.children q xs (suc depth) (c ∷ []) h (away q refl)).0
put_links-Within c _ xs _ _ depth l (in_tiling u) away h = h.0
put_links-Within c _ xs _ _ depth l (in_floating u) away h = h.0

-- Putting a detached container into a list keeps the tree right: into the children of a container
-- outside the tree of the container, or into a list of a workspace.
pub place_links-IsTree :
    (depth c : ℕ) (s : Siblings) (xs : List ℕ) (p w : Option ℕ) (l : Links)
    → Fits s p w
    → ((q : ℕ) → p ≡ some q → (w ≡ l.workspace q) × Avoids l.children q (suc depth) (c ∷ []))
    → ((x : ℕ) → occurrences x xs ≡ (if c == x then 1 else 0) + occurrences x (items l s))
    → l.parent c ≡ none
    → l.workspace c ≡ none
    → Within l.children (suc depth) (c ∷ [])
    → IsTree l
    → IsTree (place_links depth c s xs p w l)
unfolding place_links
place_links-IsTree depth c s xs p w l f away more up ws h v = record {
  linked = place_links-IsLinked depth c s xs p w l f more up ws v.linked;
  agrees =
      moved-Agrees depth c l (put_links c s xs p w l) v.agrees (put_links-others c s xs p w l)
        (put_links-here c s xs p w l (λ q e. (away q e).0))
        (put_links-IsLinked c s xs p w l f more up ws v.linked)
        (put_links-Within c s xs p w depth l f (λ q e. (away q e).1) h);
}
