-- ===== src/Tree/Pending/Swap/Settled.antt =====
-- Two containers that are out of the tree and get places in two lists of workspaces, as the swaps of
-- sway/tree/workspace.c do: what the links are then.
use swirl.Prelude.{
  ℕ, ◌+◌, ◌==◌, ◌≡◌, refl, ◌∙◌, sym, arith, false, Option, none, some, List, [], ◌++◌,
  if◌then◌else◌, ==_iff, append-nil,
}
use mathlib.Core.Path.{fun_ext}
use swirl.Prelude.Members.{member, occurrences, member-occurrences}
use swirl.Tree.Links.{
  Links, Siblings, of_children, of_tiling, of_floating, items, each_set_workspace, put_links,
}
use swirl.Tree.Links.Counts.{
  IsLinked, Fits, in_container, in_tiling, in_floating, put_links-IsLinked,
  each_set_workspace-SameLists, SameLists-IsLinked,
}
use swirl.Tree.Links.Depth.{Within}
use swirl.Tree.Links.Agree.{Agrees, each_set_workspace-Agrees, member-append_or}
use swirl.Tree.Links.Moves.{IsTree, put_links-others}
use swirl.Tree.Links.Free.{IsFree}
use swirl.Tree.Pending.Swap.{exchange_links}

parent-put_links :
    (c : ℕ) (s : Siblings) (xs : List ℕ) (w : Option ℕ) (l : Links)
    → ((put_links c s xs none w l).parent c ≡ none)
unfolding put_links
parent-put_links c (of_children p) xs w l = rw ((==_iff c c).1 refl) refl
parent-put_links c (of_tiling p) xs w l = rw ((==_iff c c).1 refl) refl
parent-put_links c (of_floating p) xs w l = rw ((==_iff c c).1 refl) refl

put_links-children :
    (c : ℕ) (s : Siblings) (xs : List ℕ) (o q p w : Option ℕ) (l : Links)
    → Fits s q p
    → q ≡ none
    → (put_links c s xs o w l).children ≡ l.children
unfolding put_links
put_links-children c _ xs o _ _ w l (in_container q u) e = absurd (cc e)
put_links-children c _ xs o _ _ w l (in_tiling u) e = refl
put_links-children c _ xs o _ _ w l (in_floating u) e = refl

module _ (depth a b wa wb : ℕ) (sa sb : Siblings) (xa xb : List ℕ) (l : Links)
    (other : (a == b) ≡ false) (fits_a : Fits sa none (some wb)) (fits_b : Fits sb none (some wa))
    (fa : IsFree depth a l) (fb : IsFree depth b l) where
  abbrev la : Links
  la = put_links a sa xa none (some wb) l

  abbrev lb : Links
  lb = put_links b sb xb none (some wa) la

  not_back : (b == a) ≡ false
  not_back = ground (arith, other)

  others :
      (z : ℕ)
      → (a == z) ≡ false
      → (b == z) ≡ false
      → (lb.parent z ≡ l.parent z) × (lb.workspace z ≡ l.workspace z)
  others z e k =
      let (up, ws) = put_links-others a sa xa none (some wb) l z e in
      let (up', ws') = put_links-others b sb xb none (some wa) la z k in (up' ∙ up, ws' ∙ ws)

  a_up : lb.parent a ≡ none
  a_up =
      (put_links-others b sb xb none (some wa) la a not_back).0
      ∙ parent-put_links a sa xa (some wb) l

  b_up : lb.parent b ≡ none
  b_up = parent-put_links b sb xb (some wa) la

  same_children : lb.children ≡ l.children
  same_children =
      put_links-children b sb xb none none (some wa) (some wa) la fits_b refl
      ∙ put_links-children a sa xa none none (some wb) (some wb) l fits_a refl

  module _
      (more_a : (x : ℕ) → occurrences x xa ≡ (if a == x then 1 else 0) + occurrences x (items l sa))
      (more_b : (x : ℕ)
        → occurrences x xb ≡ (if b == x then 1 else 0) + occurrences x (items la sb)) where
    lb-IsLinked : IsLinked lb
    lb-IsLinked =
        put_links-IsLinked b sb xb none (some wa) la fits_b more_b
          ((put_links-others a sa xa none (some wb) l b other).0 ∙ fb.no_parent)
          ((put_links-others a sa xa none (some wb) l b other).1 ∙ fb.no_workspace)
          (put_links-IsLinked a sa xa none (some wb) l fits_a more_a fa.no_parent fa.no_workspace
            fa.tree.linked)

    -- A parent of a container that is not listed is neither of the two.
    not_parent :
        (x p c : ℕ) → lb.parent x ≡ some p → member x (lb.children c) ≡ false → (c == p) ≡ false
    not_parent x p c up out =
        let v = (lb-IsLinked x c).0 in
        ground (arith, member-occurrences x (lb.children c), ==_iff c p)

    lb-Agrees : Agrees lb (lb.children a ++ lb.children b)
    lb-Agrees x p up out =
        let both = member-append_or x (lb.children a) (lb.children b) in
        let x_a : (a == x) ≡ false = ground (arith, ==_iff a x, a_up) in
        let x_b : (b == x) ≡ false = ground (arith, ==_iff b x, b_up) in
        let p_a = not_parent x p a up (ground (arith, both)) in
        let p_b = not_parent x p b up (ground (arith, both)) in
        let (up_x, ws_x) = others x x_a x_b in
        let (up_p, ws_p) = others p p_a p_b in
        ws_x ∙ fa.tree.agrees x p (sym up_x ∙ up) refl ∙ sym ws_p

    both_settled :
        let l1 = each_set_workspace depth (lb.children a) lb in
        IsTree (each_set_workspace depth (l1.children b) l1)
    both_settled =
        let l1 = each_set_workspace depth (lb.children a) lb in
        let s1 = each_set_workspace-SameLists depth (lb.children a) lb in
        let v1 = SameLists-IsLinked lb l1 s1 lb-IsLinked in
        let kids : l1.children ≡ lb.children = fun_ext s1.same_children in
        let below_a : Within lb.children depth (lb.children a) =
          rw same_children (fa.depth_kept.0) in
        let below_b : Within l1.children depth (l1.children b) =
          rw (kids, same_children) (fb.depth_kept.0) in
        let a1 : Agrees l1 (l1.children b ++ []) =
          rw (append-nil (l1.children b), kids)
            (each_set_workspace-Agrees depth (lb.children a) (lb.children b) lb lb-IsLinked below_a
              lb-Agrees) in
        record {
          linked =
              SameLists-IsLinked l1 _ (each_set_workspace-SameLists depth (l1.children b) l1) v1;
          agrees = each_set_workspace-Agrees depth (l1.children b) [] l1 v1 below_b a1;
        }

    pub exchange_links-IsTree : IsTree (exchange_links depth a b sa sb xa xb wa wb l)
    unfolding exchange_links
    exchange_links-IsTree =
        let up_b : la.parent b ≡ none =
          (put_links-others a sa xa none (some wb) l b other).0 ∙ fb.no_parent in
        rw (exchange_links, fa.no_parent, up_b) both_settled
