-- ===== src/Tree/Links/Beside.antt =====
-- A container put beside another one (container_add_sibling of sway/tree/container.c): the list that
-- both stand in, and their indices there.
use swirl.Prelude.{
  ℕ, ◌+◌, ◌==◌, ◌≡◌, refl, ◌∙◌, sym, arith, Bool, true, false, Option, none, some, List,
  if◌then◌else◌, inl, inr, Bool-cases, ==_iff,
}
use mathlib.Core.Path.{subst}
use swirl.Prelude.Members.{
  index_of-insert_at, member-insert_at, member, insert_at, index_of, member-occurrences,
}
use swirl.Tree.Links.{
  Links, Siblings, of_children, of_tiling, of_floating, items, container_get_siblings,
  container_sibling_index, put_links, place_links,
}
use swirl.Tree.Links.Counts.{
  IsLinked, Fits, in_container, in_tiling, in_floating, each_set_workspace-SameLists,
}
use swirl.Tree.Links.Moves.{put_links-others}
use swirl.Tree.Links.Free.{IsFree, siblings-Fits}

-- Which of the lists of its workspace a container without a parent stands in.
abbrev IsPicked : Siblings → Links → ℕ → Type 0
IsPicked (of_children q) l x = Unit
IsPicked (of_tiling u) l x = member x (l.tiling u) ≡ true
IsPicked (of_floating u) l x = member x (l.tiling u) ≡ false

Fits-siblings :
    (s : Siblings) (p w : Option ℕ) (l : Links) (x : ℕ)
    → Fits s p w
    → l.parent x ≡ p
    → (p ≡ none → l.workspace x ≡ w)
    → IsPicked s l x
    → container_get_siblings l x ≡ some s
unfolding container_get_siblings
Fits-siblings _ _ _ l x (in_container q w) up ws k = rw (container_get_siblings, up) refl
Fits-siblings _ _ _ l x (in_tiling u) up ws k = rw (container_get_siblings, up, ws refl, k) refl
Fits-siblings _ _ _ l x (in_floating u) up ws k = rw (container_get_siblings, up, ws refl, k) refl

-- The list of a container has it in it.
picked :
    (s : Siblings) (p w : Option ℕ) (l : Links) (x : ℕ)
    → Fits s p w
    → l.parent x ≡ p
    → l.workspace x ≡ w
    → container_get_siblings l x ≡ some s
    → IsLinked l
    → IsPicked s l x × (member x (items l s) ≡ true)
unfolding container_get_siblings
picked _ _ _ l x (in_container q w) up ws e v =
    let vx = v x q in (tt, ground (arith, member-occurrences x (l.children q)))
picked _ _ _ l x (in_tiling u) up ws e v = elim (Bool-cases (member x (l.tiling u))) [
  | inl m ↦ (m, m)
  | inr m ↦ absurd (
      let e' : some (of_floating u) ≡ some (of_tiling u) =
        rw (container_get_siblings, up, ws, m) at e in
      cc)
]
picked _ _ _ l x (in_floating u) up ws e v =
    let vx = v x u in
    elim (Bool-cases (member x (l.tiling u))) [
      | inl m ↦ absurd (
          let e' : some (of_tiling u) ≡ some (of_floating u) =
            rw (container_get_siblings, up, ws, m) at e in
          cc)
      | inr m ↦ (
        m,
        ground (arith, member-occurrences x (l.tiling u), member-occurrences x (l.floating u)),
      )
    ]

-- A container outside every list.
outside :
    (c : ℕ) (s : Siblings) (l : Links)
    → l.parent c ≡ none
    → l.workspace c ≡ none
    → IsLinked l
    → member c (items l s) ≡ false
outside c (of_children q) l up ws v =
    let vc = v c q in ground (arith, member-occurrences c (l.children q))
outside c (of_tiling q) l up ws v =
    let vc = v c q in ground (arith, member-occurrences c (l.tiling q))
outside c (of_floating q) l up ws v =
    let vc = v c q in ground (arith, member-occurrences c (l.floating q))

items-place_links :
    (depth c : ℕ) (s : Siblings) (xs : List ℕ) (p w : Option ℕ) (l : Links)
    → items (place_links depth c s xs p w l) s ≡ xs
unfolding place_links put_links
items-place_links depth c (of_children q) xs p w l =
    (each_set_workspace-SameLists depth _ _).same_children q ∙ ground (arith, ==_iff q q)
items-place_links depth c (of_tiling q) xs p w l =
    (each_set_workspace-SameLists depth _ _).same_tiling q ∙ ground (arith, ==_iff q q)
items-place_links depth c (of_floating q) xs p w l =
    (each_set_workspace-SameLists depth _ _).same_floating q ∙ ground (arith, ==_iff q q)

place_links-pointers :
    (depth c : ℕ) (s : Siblings) (xs : List ℕ) (p w : Option ℕ) (l : Links)
    → ((place_links depth c s xs p w l).parent c ≡ p)
      × (p ≡ none → (place_links depth c s xs p w l).workspace c ≡ w)
unfolding place_links put_links
place_links-pointers depth c s xs p w l =
    let l1 = put_links c s xs p w l in
    let same = each_set_workspace-SameLists depth (l1.children c) l1 in
    let at_c : (c == c) ≡ true = (==_iff c c).1 refl in
    let up : l1.parent c ≡ p = rw at_c refl in
    let ws : l1.workspace c ≡ w = rw at_c refl in
    (same.same_parent c ∙ up, λ e. same.same_top c (up ∙ e) ∙ ws)

place_links-others :
    (depth c x : ℕ) (s : Siblings) (xs : List ℕ) (p w : Option ℕ) (l : Links)
    → (c == x) ≡ false
    → ((place_links depth c s xs p w l).parent x ≡ l.parent x)
      × (l.parent x ≡ none → (place_links depth c s xs p w l).workspace x ≡ l.workspace x)
unfolding place_links
place_links-others depth c x s xs p w l other =
    let l1 = put_links c s xs p w l in
    let same = each_set_workspace-SameLists depth (l1.children c) l1 in
    let (up, ws) = put_links-others c s xs p w l x other in
    (same.same_parent x ∙ up, λ e. same.same_top x (up ∙ e) ∙ ws)

place_links-IsPicked :
    (depth c x : ℕ) (s : Siblings) (xs : List ℕ) (p w : Option ℕ) (l : Links)
    → member x xs ≡ true
    → ((u : ℕ) → s ≡ of_floating u → member x (l.tiling u) ≡ false)
    → IsPicked s (place_links depth c s xs p w l) x
unfolding place_links put_links
place_links-IsPicked depth c x (of_children q) xs p w l m h = tt
place_links-IsPicked depth c x (of_tiling u) xs p w l m h =
    rw (items-place_links depth c (of_tiling u) xs p w l) m
place_links-IsPicked depth c x (of_floating u) xs p w l m h =
    rw ((each_set_workspace-SameLists depth _ _).same_tiling u) (h u refl)

-- Two containers stand in one list, and `active` right after `fixed`, or right before it.
abbrev pub IsBeside : Links → ℕ → ℕ → Bool → Type 0
IsBeside l fixed active after =
    (container_get_siblings l active ≡ container_get_siblings l fixed)
    × (container_sibling_index l (if after then active else fixed)
        ≡ container_sibling_index l (if after then fixed else active) + 1)

neighbours :
    (l : Links) (s : Siblings) (fixed active : ℕ) (after : Bool) (xs : List ℕ)
    → container_get_siblings l active ≡ some s
    → container_get_siblings l fixed ≡ some s
    → items l s ≡ insert_at (if after then index_of fixed xs + 1 else index_of fixed xs) active xs
    → member fixed xs ≡ true
    → member active xs ≡ false
    → IsBeside l fixed active after
unfolding container_sibling_index
neighbours l s fixed active true xs a f same m k =
    let (i, j) = index_of-insert_at fixed active true xs m k in
    (a ∙ sym f, rw (container_sibling_index, a, f, same, i, j) refl)
neighbours l s fixed active false xs a f same m k =
    let (i, j) = index_of-insert_at fixed active false xs m k in
    (a ∙ sym f, rw (container_sibling_index, a, f, same, i, j) refl)

pub place_links-IsBeside :
    (depth fixed c : ℕ) (after : Bool) (s : Siblings) (l : Links)
    → IsFree depth c l
    → container_get_siblings l fixed ≡ some s
    → (c == fixed) ≡ false
    → let xs = items l s in
      let i = if after then index_of fixed xs + 1 else index_of fixed xs in
      let m = place_links depth c s (insert_at i c xs) (l.parent fixed) (l.workspace fixed) l in
      (container_get_siblings m fixed ≡ some s) × IsBeside m fixed c after
place_links-IsBeside depth fixed c after s l free e other =
    let xs = items l s in
    let i = if after then index_of fixed xs + 1 else index_of fixed xs in
    let ys = insert_at i c xs in
    let p = l.parent fixed in
    let w = l.workspace fixed in
    let m = place_links depth c s ys p w l in
    let fits = siblings-Fits l fixed s e in
    let v = free.tree.linked in
    let (pick, mem) = picked s p w l fixed fits refl refl e v in
    let out = outside c s l free.no_parent free.no_workspace v in
    let (up_c, ws_c) = place_links-pointers depth c s ys p w l in
    let (up_f, ws_f) = place_links-others depth c fixed s ys p w l other in
    let sib_c = Fits-siblings s p w m c fits up_c ws_c (
      place_links-IsPicked depth c c s ys p w l
        (rw (member-insert_at c i c xs, (==_iff c c).1 refl) refl)
        (λ u e2. outside c (of_tiling u) l free.no_parent free.no_workspace v)) in
    let sib_f = Fits-siblings s p w m fixed fits up_f ws_f (
      place_links-IsPicked depth c fixed s ys p w l (rw (member-insert_at fixed i c xs, other) mem)
        (λ u e2. subst (λ r. IsPicked r l fixed) e2 pick)) in
    (
      sib_f,
      neighbours m s fixed c after xs sib_c sib_f (items-place_links depth c s ys p w l) mem out,
    )
