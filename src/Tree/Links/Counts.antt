-- ===== src/Tree/Links/Counts.antt =====
-- The lists of the pending tree (sway/tree/container.c) against the pointers: where a container
-- stands, and what detaching and placing it do to that.
use swirl.Prelude.{
  ℕ, zero, suc, ◌+◌, ◌==◌, ◌≡◌, refl, ◌∙◌, arith, Bool, true, false, Option, none, some, List, [],
  ◌∷◌, if◌then◌else◌, inl, inr, Option-cases, Bool-cases, ==_iff,
}
use swirl.Prelude.Members.{member, unlink, occurrences, occurrences-unlink, member-occurrences}
use swirl.Tree.Links.{
  Links, set_at, Siblings, of_children, of_tiling, of_floating, items, set_items,
  container_get_siblings, set_workspace, each_set_workspace, remove_links, detach_links, put_links,
  place_links,
}

-- The pointer is not NULL and points to the node.
abbrev pub is_at : Option ℕ → ℕ → Bool
is_at none a = false
is_at (some b) a = b == a

-- A container without a parent stands in a list of its workspace.
abbrev pub is_in : Option ℕ → Option ℕ → ℕ → Bool
is_in (some p) o w = false
is_in none o w = is_at o w

-- Every container stands once in the children of its parent, or once in one of the two lists of its
-- workspace if it has no parent, and in no other list.
abbrev pub IsLinked : Links → Type 0
IsLinked l =
    (c a : ℕ)
    → (occurrences c (l.children a) ≡ (if is_at (l.parent c) a then 1 else 0))
      × (occurrences c (l.tiling a) + occurrences c (l.floating a)
          ≡ (if is_in (l.parent c) (l.workspace c) a then 1 else 0))

-- Only the workspaces of containers with a parent differ.
pub record SameLists (l m : Links) : Type 0 where
  pub same_parent : (c : ℕ) → m.parent c ≡ l.parent c
  pub same_children : (c : ℕ) → m.children c ≡ l.children c
  pub same_tiling : (c : ℕ) → m.tiling c ≡ l.tiling c
  pub same_floating : (c : ℕ) → m.floating c ≡ l.floating c
  pub same_top : (c : ℕ) → l.parent c ≡ none → m.workspace c ≡ l.workspace c

SameLists-trans : {k l m : Links} → SameLists k l → SameLists l m → SameLists k m
SameLists-trans h g = record {
  same_parent = λ c. g.same_parent c ∙ h.same_parent c;
  same_children = λ c. g.same_children c ∙ h.same_children c;
  same_tiling = λ c. g.same_tiling c ∙ h.same_tiling c;
  same_floating = λ c. g.same_floating c ∙ h.same_floating c;
  same_top = λ c e. g.same_top c (h.same_parent c ∙ e) ∙ h.same_top c e;
}

pub set_workspace-SameLists : (c : ℕ) (l : Links) → SameLists l (set_workspace c l)
unfolding set_workspace
set_workspace-SameLists c l = elim (Option-cases (l.parent c)) [
  | inl e ↦
      rw (e, set_workspace)
        (record {
          same_parent = λ x. refl;
          same_children = λ x. refl;
          same_tiling = λ x. refl;
          same_floating = λ x. refl;
          same_top = λ x h. refl;
        })
  | inr (p, e) ↦
      rw (e, set_workspace)
        (record {
          same_parent = λ x. refl;
          same_children = λ x. refl;
          same_tiling = λ x. refl;
          same_floating = λ x. refl;
          same_top = λ x h. elim (Bool-cases (c == x)) [
            | inl same ↦ absurd (let e' = rw ((==_iff c x).0 same) at e in cc)
            | inr other ↦ rw other refl
          ];
        })
]

pub each_set_workspace-SameLists :
    (depth : ℕ) (cs : List ℕ) (l : Links) → SameLists l (each_set_workspace depth cs l)
unfolding each_set_workspace
each_set_workspace-SameLists zero cs l = record {
  same_parent = λ x. refl;
  same_children = λ x. refl;
  same_tiling = λ x. refl;
  same_floating = λ x. refl;
  same_top = λ x h. refl;
}
each_set_workspace-SameLists (suc depth) [] l = record {
  same_parent = λ x. refl;
  same_children = λ x. refl;
  same_tiling = λ x. refl;
  same_floating = λ x. refl;
  same_top = λ x h. refl;
}
each_set_workspace-SameLists (suc depth) (c ∷ cs) l =
    let l1 = set_workspace c l in
    let l2 = each_set_workspace depth (l1.children c) l1 in
    SameLists-trans (set_workspace-SameLists c l) (
      SameLists-trans (each_set_workspace-SameLists depth (l1.children c) l1)
        (each_set_workspace-SameLists (suc depth) cs l2))

pub SameLists-IsLinked : (l m : Links) → SameLists l m → IsLinked l → IsLinked m
SameLists-IsLinked l m h v c a = (
  rw (h.same_children a, h.same_parent c) (v c a).0,
  rw (h.same_tiling a, h.same_floating a, h.same_parent c)
      (elim (Option-cases (l.parent c)) [
        | inl e ↦ rw (h.same_top c e) (v c a).1
        | inr (p, e) ↦ rw e (rw e at (v c a).1)
      ]),
)

-- The container `c` points to nothing.
abbrev cleared : ℕ → Links → Links
cleared c l = record l { parent = set_at l.parent c none; workspace = set_at l.workspace c none }

removed-child :
    (c p : ℕ) (l : Links)
    → l.parent c ≡ some p
    → IsLinked l
    → IsLinked (cleared c (set_items l (of_children p) (unlink c (l.children p))))
removed-child c p l up v x a =
    let vx = v x a in
    let vc = v c a in
    let vp = v c p in
    ground (arith, occurrences-unlink x c (l.children p), member-occurrences c (l.children p))

removed-tiled :
    (c w : ℕ) (l : Links)
    → l.parent c ≡ none
    → l.workspace c ≡ some w
    → member c (l.tiling w) ≡ true
    → IsLinked l
    → IsLinked (cleared c (set_items l (of_tiling w) (unlink c (l.tiling w))))
removed-tiled c w l up ws m v x a =
    let vx = v x a in
    let vc = v c a in
    let vw = v c w in
    ground (arith, occurrences-unlink x c (l.tiling w), member-occurrences c (l.tiling w))

removed-floating :
    (c w : ℕ) (l : Links)
    → l.parent c ≡ none
    → l.workspace c ≡ some w
    → member c (l.tiling w) ≡ false
    → IsLinked l
    → IsLinked (cleared c (set_items l (of_floating w) (unlink c (l.floating w))))
removed-floating c w l up ws m v x a =
    let vx = v x a in
    let vc = v c a in
    let vw = v c w in
    ground (
      arith,
      occurrences-unlink x c (l.floating w),
      member-occurrences c (l.tiling w),
      member-occurrences c (l.floating w),
    )

cleared-IsLinked :
    (c : ℕ) (l : Links)
    → l.parent c ≡ none
    → l.workspace c ≡ none
    → IsLinked l
    → IsLinked (cleared c l)
cleared-IsLinked c l up ws v x a = let vx = v x a in ground arith

-- Taking a container out of its list leaves the other containers where they are.
pub remove_links-IsLinked : (c : ℕ) (l : Links) → IsLinked l → IsLinked (remove_links c l)
unfolding remove_links container_get_siblings
remove_links-IsLinked c l v = elim (Option-cases (l.parent c)) [
  | inr (p, up) ↦ rw (up, remove_links) (removed-child c p l up v)
  | inl up ↦ elim (Option-cases (l.workspace c)) [
    | inl ws ↦ rw (up, ws, remove_links) (cleared-IsLinked c l up ws v)
    | inr (w, ws) ↦ elim (Bool-cases (member c (l.tiling w))) [
      | inl m ↦ rw (up, ws, m, remove_links) (removed-tiled c w l up ws m v)
      | inr m ↦ rw (up, ws, m, remove_links) (removed-floating c w l up ws m v)
    ]
  ]
]

pub detach_links-IsLinked :
    (depth c : ℕ) (l : Links) → IsLinked l → IsLinked (detach_links depth c l)
unfolding detach_links
detach_links-IsLinked depth c l v =
    SameLists-IsLinked _ _ (each_set_workspace-SameLists depth _ _) (remove_links-IsLinked c l v)

pub remove_links-cleared :
    (c : ℕ) (l : Links)
    → ((remove_links c l).parent c ≡ none) × ((remove_links c l).workspace c ≡ none)
unfolding remove_links
remove_links-cleared c l = let at_c : (c == c) ≡ true = (==_iff c c).1 refl in rw at_c (refl, refl)

-- A detached container has neither parent nor workspace.
pub detach_links-cleared :
    (depth c : ℕ) (l : Links)
    → ((detach_links depth c l).parent c ≡ none) × ((detach_links depth c l).workspace c ≡ none)
unfolding detach_links
detach_links-cleared depth c l =
    let same = each_set_workspace-SameLists depth _ _ in
    let (up, ws) = remove_links-cleared c l in (same.same_parent c ∙ up, same.same_top c up ∙ ws)

-- The place `s` with its pointers to it.
pub data Fits : Siblings → Option ℕ → Option ℕ → Type 0 where
  in_container : (q : ℕ) (w : Option ℕ) → Fits (of_children q) (some q) w
  in_tiling : (u : ℕ) → Fits (of_tiling u) none (some u)
  in_floating : (u : ℕ) → Fits (of_floating u) none (some u)

-- Placing a detached container into a list, with pointers to that place, keeps the links right.
pub put_links-IsLinked :
    (c : ℕ) (s : Siblings) (xs : List ℕ) (p w : Option ℕ) (l : Links)
    → Fits s p w
    → ((x : ℕ) → occurrences x xs ≡ (if c == x then 1 else 0) + occurrences x (items l s))
    → l.parent c ≡ none
    → l.workspace c ≡ none
    → IsLinked l
    → IsLinked (put_links c s xs p w l)
unfolding put_links
put_links-IsLinked c _ xs _ _ l (in_container q w) more up ws v x a =
    let vx = v x a in let vc = v c a in let m = more x in ground arith
put_links-IsLinked c _ xs _ _ l (in_tiling u) more up ws v x a =
    let vx = v x a in let vc = v c a in let m = more x in ground arith
put_links-IsLinked c _ xs _ _ l (in_floating u) more up ws v x a =
    let vx = v x a in let vc = v c a in let m = more x in ground arith

pub place_links-IsLinked :
    (depth c : ℕ) (s : Siblings) (xs : List ℕ) (p w : Option ℕ) (l : Links)
    → Fits s p w
    → ((x : ℕ) → occurrences x xs ≡ (if c == x then 1 else 0) + occurrences x (items l s))
    → l.parent c ≡ none
    → l.workspace c ≡ none
    → IsLinked l
    → IsLinked (place_links depth c s xs p w l)
unfolding place_links
place_links-IsLinked depth c s xs p w l f more up ws v =
    SameLists-IsLinked _ _ (each_set_workspace-SameLists depth _ _)
      (put_links-IsLinked c s xs p w l f more up ws v)
