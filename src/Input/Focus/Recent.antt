-- ===== src/Input/Focus/Recent.antt =====
-- Which nodes the searches of the focus stack in sway/input/seat.c find.
use swirl.Prelude.Members.{unlink}
use swirl.Prelude.{
  ℕ, ◌==◌, ◌≡◌, refl, ◌∙◌, ap, arith, Bool, false, ◌&&◌, Option, none, some, List, [], ◌∷◌, ◌++◌,
  if◌then◌else◌, inl, inr, Option-cases, Bool-cases, ==_iff,
}
use mathlib.Core.Path.{fun_ext}
use swirl.Tree.Types.{Thing}
use swirl.Tree.Ancestors.{node_get_parent, node_has_ancestor, IsAbove, Ends, node_has_ancestor_lem}
use swirl.Txn.State.{Server, node_set_dirty, is_view_thing}
use swirl.Input.Focus.{
  Seat, first_node, is_node, is_workspace, is_tiling_child, things_of, seat_node_from_node,
  seat_set_raw_focus, mark_focus, seat_get_focus_inactive, seat_get_focus_inactive_view,
  seat_get_active_tiling_child,
}

first_node-unlink :
    (test : ℕ → Bool) (i : ℕ) (xs : List ℕ)
    → test i ≡ false
    → first_node test (unlink i xs) ≡ first_node test xs
first_node-unlink test i [] h = refl
first_node-unlink test i (x ∷ xs) h = elim (Bool-cases (x == i)) [
  | inl e ↦ (let no : test x ≡ false = ap test ((==_iff x i).0 e) ∙ h in rw (e, no) refl)
  | inr e ↦ rw e (ap (λ r. if test x then some x else r) (first_node-unlink test i xs h))
]

first_node-append :
    (test : ℕ → Bool) (i : ℕ) (xs : List ℕ)
    → test i ≡ false
    → first_node test (xs ++ i ∷ []) ≡ first_node test xs
first_node-append test i [] h = rw h refl
first_node-append test i (x ∷ xs) h =
    ap (λ r. if test x then some x else r) (first_node-append test i xs h)

module _ {D : Type 0} where
  things_of-node_set_dirty :
      (i : ℕ) (s : Server D) (j : ℕ) → things_of (node_set_dirty i s) j ≡ things_of s j
  unfolding node_set_dirty
  things_of-node_set_dirty i s j = ground arith

  things_of-mark_focus :
      (root i : ℕ) (s : Server D) (j : ℕ) → things_of (mark_focus root i s) j ≡ things_of s j
  unfolding mark_focus
  things_of-mark_focus root i s j =
      elim (Option-cases (node_get_parent root (things_of (node_set_dirty i s)) i)) [
        | inl e ↦ rw (e, mark_focus) (things_of-node_set_dirty i s j)
        | inr (p, e) ↦
            rw (e, mark_focus)
              (things_of-node_set_dirty p (node_set_dirty i s) j ∙ things_of-node_set_dirty i s j)
      ]

  first_node-seat_node :
      (alloc : Bool) (thing : Thing D) (i : ℕ) (seat seat' : Seat) (test : ℕ → Bool)
      → seat_node_from_node alloc thing i seat ≡ some seat'
      → test i ≡ false
      → first_node test seat'.focus_stack ≡ first_node test seat.focus_stack
  unfolding seat_node_from_node
  first_node-seat_node alloc thing i seat seat' test e h =
      let added = first_node-append test i seat.focus_stack h in ground arith

  -- Every search finds the node that got the focus if it passes the test, and otherwise what it
  -- found before.
  first_node-raw_focus :
      (alloc : Bool) (root i : ℕ) (seat seat' : Seat) (s s' : Server D) (test : ℕ → Bool)
      → seat_set_raw_focus alloc root i seat s ≡ some (seat', s')
      → first_node test seat'.focus_stack
        ≡ (if test i then some i else first_node test seat.focus_stack)
  unfolding seat_set_raw_focus
  first_node-raw_focus alloc root i seat seat' s s' test e =
      elim (Option-cases (seat_node_from_node alloc (things_of s i) i seat)) [
        | inl m ↦ cc
        | inr (seat1, m) ↦ elim (Bool-cases (test i)) [
          | inl t ↦ cc
          | inr t ↦
              (let kept = first_node-seat_node alloc (things_of s i) i seat seat1 test m t in
                let taken = first_node-unlink test i seat1.focus_stack t in cc)
        ]
      ]

  server_of : Server D → Option (Seat × Server D) → Server D
  server_of s none = s
  server_of s (some (seat', s')) = s'

  things_of-raw_focus :
      (alloc : Bool) (root i : ℕ) (seat seat' : Seat) (s s' : Server D)
      → seat_set_raw_focus alloc root i seat s ≡ some (seat', s')
      → things_of s' ≡ things_of s
  unfolding server_of seat_set_raw_focus
  things_of-raw_focus alloc root i seat seat' s s' e =
      elim (Option-cases (seat_node_from_node alloc (things_of s i) i seat)) [
        | inl m ↦ absurd (let e' : none ≡ some (seat', s') = rw (m, seat_set_raw_focus) at e in cc)
        | inr (seat1, m) ↦
            (let after : mark_focus root i s ≡ s' =
                ap (server_of s) (rw (m, seat_set_raw_focus) at e) in
              rw (← after) (fun_ext (things_of-mark_focus root i s)))
      ]

  inactive-found :
      (root depth i a : ℕ) (things : ℕ → Thing D) (seat seat' : Seat)
      → is_view_thing (things a) ≡ false
      → first_node (λ j. node_has_ancestor root things depth j a) seat'.focus_stack ≡ (
          if node_has_ancestor root things depth i a
          then some i
          else first_node (λ j. node_has_ancestor root things depth j a) seat.focus_stack)
      → seat_get_focus_inactive root depth things a seat' ≡ (
          if node_has_ancestor root things depth i a
          then some i
          else seat_get_focus_inactive root depth things a seat)
  unfolding seat_get_focus_inactive
  inactive-found root depth i a things seat seat' v e =
      elim (Bool-cases (node_has_ancestor root things depth i a)) [
        | inl t ↦ (let e' = rw t at e in rw (t, v, e') refl)
        | inr t ↦ (let e' = rw t at e in rw (t, v, e') refl)
      ]

  -- When the node `i` has got the focus by `seat_set_raw_focus`, the searches from a node `a` that is
  -- no view find `i`, if it is below `a`, for `seat_get_focus_inactive`, a view below `a`, for
  -- `seat_get_focus_inactive_view`, or a child of `a`, and one of its tiling children if `a` is a
  -- workspace, for `seat_get_active_tiling_child`. Otherwise each finds what it found before.
  pub searches-raw_focus :
      (alloc : Bool) (root depth i a : ℕ) (seat seat' : Seat) (s s' : Server D)
      → seat_set_raw_focus alloc root i seat s ≡ some (seat', s')
      → is_view_thing (things_of s a) ≡ false
      → (seat_get_focus_inactive root depth (things_of s') a seat' ≡ (
          if node_has_ancestor root (things_of s) depth i a
          then some i
          else seat_get_focus_inactive root depth (things_of s) a seat))
        × (seat_get_focus_inactive_view root depth (things_of s') a seat' ≡ (
            if is_view_thing (things_of s i) && node_has_ancestor root (things_of s) depth i a
            then some i
            else seat_get_focus_inactive_view root depth (things_of s) a seat))
        × (seat_get_active_tiling_child root depth (things_of s') a seat' ≡ (
            if is_node (node_get_parent root (things_of s) i) a && is_tiling_child (things_of s a) i
            then some i
            else seat_get_active_tiling_child root depth (things_of s) a seat))
  unfolding seat_get_focus_inactive seat_get_focus_inactive_view seat_get_active_tiling_child
  searches-raw_focus alloc root depth i a seat seat' s s' e v =
      let same = things_of-raw_focus alloc root i seat seat' s s' e in
      let inactive : ℕ → Bool = λ j. node_has_ancestor root (things_of s) depth j a in
      let view : ℕ → Bool = λ j. is_view_thing (things_of s j) && inactive j in
      let child : ℕ → Bool = λ j.
        is_node (node_get_parent root (things_of s) j) a && is_tiling_child (things_of s a) j in
      (
        ap (λ t. seat_get_focus_inactive root depth t a seat') same
            ∙ (inactive-found root depth i a (things_of s) seat seat' v
                (first_node-raw_focus alloc root i seat seat' s s' inactive e)),
        ap (λ t. seat_get_focus_inactive_view root depth t a seat') same
            ∙ rw v (first_node-raw_focus alloc root i seat seat' s s' view e),
        ap (λ t. seat_get_active_tiling_child root depth t a seat') same
            ∙ rw v (first_node-raw_focus alloc root i seat seat' s s' child e),
      )

-- No node of the list has the property.
abbrev pub NoneOf : (ℕ → Type 0) → List ℕ → Type 0
NoneOf P [] = Unit
NoneOf P (x ∷ xs) = (¬ P x) × NoneOf P xs

-- The first node of the list with the property, if there is one.
abbrev pub Foremost : (ℕ → Type 0) → List ℕ → Option ℕ → Type 0
Foremost P xs none = NoneOf P xs
Foremost P xs (some j) =
    (before : List ℕ) × (after : List ℕ) × (xs ≡ before ++ j ∷ after) × NoneOf P before × P j

module _ {D : Type 0} (root depth : ℕ) (things : ℕ → Thing D) where
  -- The ways up from all nodes of the list end within the rounds of the search.
  abbrev pub AllEnd : List ℕ → Type 0
  AllEnd [] = Unit
  AllEnd (x ∷ xs) = Ends root things depth (node_get_parent root things x) × AllEnd xs

  first_node-Foremost :
      (a : ℕ) (xs : List ℕ)
      → AllEnd xs
      → Foremost
          (IsAbove root things a)
          xs
          (first_node (λ j. node_has_ancestor root things depth j a) xs)
  first_node-Foremost a [] v = tt
  first_node-Foremost a (x ∷ xs) v =
      let exact = node_has_ancestor_lem root things depth x a v.0 in
      elim (Bool-cases (node_has_ancestor root things depth x a)) [
        | inl t ↦ rw t ([], xs, refl, tt, exact.0 t)
        | inr t ↦
            (let not_above : ¬ IsAbove root things a x = λ b. (let t' = exact.1 b in cc) in
              let rest = first_node-Foremost a xs v.1 in
              elim (Option-cases (first_node (λ j. node_has_ancestor root things depth j a) xs)) [
                | inl e ↦ rw (t, e) (not_above, rw e at rest)
                | inr (j, e) ↦
                    (let (before, after, split, none_before, above) = rw e at rest in
                      rw (t, e)
                        (x ∷ before, after, ap (λ r. x ∷ r) split, (not_above, none_before), above))
              ])
      ]

  -- If the ways up from all nodes in the focus stack end within the rounds of the search,
  -- `seat_get_focus_inactive` finds, for a node `a` that is no view, the foremost node in the stack
  -- that is below `a`. Without one it finds `a` itself, if `a` is a workspace, and nothing otherwise.
  pub seat_get_focus_inactive_lem :
      (a : ℕ) (seat : Seat)
      → AllEnd seat.focus_stack
      → is_view_thing (things a) ≡ false
      → (found : Option ℕ) × Foremost (IsAbove root things a) seat.focus_stack found
        × (seat_get_focus_inactive root depth things a seat ≡ (elim found [
          | some j ↦ some j
          | none ↦ if is_workspace (things a) then some a else none
        ]))
  unfolding seat_get_focus_inactive
  seat_get_focus_inactive_lem a seat v h = (
    first_node (λ j. node_has_ancestor root things depth j a) seat.focus_stack,
    first_node-Foremost a seat.focus_stack v,
    rw h refl,
  )
