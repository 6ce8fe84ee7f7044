-- ===== src/Input/Focus.antt =====
-- The focus stack of a seat in sway/input/seat.c: the seat nodes in the order in which their nodes had
-- the focus last, as a list of nodes. `root` is the root node, and `depth` the number of rounds of
-- node_has_ancestor (Tree.Ancestors).
pub mod Stack
pub mod Recent
use swirl.Prelude.{
  ℕ, ◌==◌, Bool, true, false, not, ◌&&◌, ◌||◌, Option, none, some, List, [], ◌∷◌, ◌++◌,
  if◌then◌else◌,
}
use swirl.Prelude.Members.{member, unlink}
use swirl.Tree.Types.{Workspace, Container, Thing, n_root, n_output, n_workspace, n_container, Node}
use swirl.Tree.Ancestors.{node_get_parent, node_has_ancestor}
use swirl.Txn.State.{Server, node_set_dirty, is_view_thing}

-- The fields of `struct sway_seat` for the focus.
pub record Seat : Type 0 where
  pub focus_stack : List ℕ
  pub has_focus : Bool

-- The loops over the focus stack: the first node that passes the test.
abbrev pub first_node : (ℕ → Bool) → List ℕ → Option ℕ
first_node test [] = none
first_node test (x ∷ xs) = if test x then some x else first_node test xs

abbrev head_of : List ℕ → Option ℕ
head_of [] = none
head_of (x ∷ xs) = some x

abbrev pub is_empty : List ℕ → Bool
is_empty [] = true
is_empty (x ∷ xs) = false

-- `parent == child`, where the first may be NULL.
abbrev is_node : Option ℕ → ℕ → Bool
is_node none i = false
is_node (some p) i = p == i

module _ {D : Type 0} where
  -- The root and the outputs have no seat nodes.
  abbrev pub may_have_seat_node : Thing D → Bool
  may_have_seat_node n_root = false
  may_have_seat_node (n_output o) = false
  may_have_seat_node (n_workspace w) = true
  may_have_seat_node (n_container c) = true

  abbrev pub is_workspace : Thing D → Bool
  is_workspace n_root = false
  is_workspace (n_output o) = false
  is_workspace (n_workspace w) = true
  is_workspace (n_container c) = false

  -- Only the tiling children of a workspace count.
  abbrev pub is_tiling_child : Thing D → ℕ → Bool
  is_tiling_child n_root i = true
  is_tiling_child (n_output o) i = true
  is_tiling_child (n_workspace w) i = member i w.tiling
  is_tiling_child (n_container c) i = true

  abbrev pub things_of : Server D → ℕ → Thing D
  things_of s i = (s.nodes i).thing

  -- `seat_node_from_node`: the seat in which the node has its seat node, or NULL. `alloc` says whether
  -- `calloc` succeeds.
  unfoldable pub seat_node_from_node : Bool → Thing D → ℕ → Seat → Option Seat
  seat_node_from_node alloc thing i seat =
      if may_have_seat_node thing
      then if member i seat.focus_stack
        then some seat
        else if alloc
        then some (record seat { focus_stack = seat.focus_stack ++ i ∷ [] })
        else none
      else none

  -- `handle_new_node`
  unfoldable pub handle_new_node : Bool → Thing D → ℕ → Seat → Seat
  unfolding seat_node_from_node
  handle_new_node alloc thing i seat = elim (seat_node_from_node alloc thing i seat) [
    | none ↦ seat
    | some seat' ↦ seat'
  ]

  -- The end of `seat_set_raw_focus`: the node and its parent are dirty.
  unfoldable pub mark_focus : ℕ → ℕ → Server D → Server D
  unfolding node_set_dirty node_get_parent
  mark_focus root i s =
      let s' = node_set_dirty i s in
      elim (node_get_parent root (things_of s') i) [ none ↦ s' | some p ↦ node_set_dirty p s' ]

  -- `seat_set_raw_focus`; it uses the seat node without a test, so without one there is no result.
  unfoldable pub seat_set_raw_focus : Bool → ℕ → ℕ → Seat → Server D → Option (Seat × Server D)
  unfolding seat_node_from_node mark_focus
  seat_set_raw_focus alloc root i seat s = elim (seat_node_from_node alloc (things_of s i) i seat) [
    | none ↦ none
    | some seat' ↦
        some (record seat' { focus_stack = i ∷ unlink i seat'.focus_stack }, mark_focus root i s)
  ]

-- `seat_node_destroy`
unfoldable pub seat_node_destroy : ℕ → Seat → Seat
seat_node_destroy i seat =
    let stack = unlink i seat.focus_stack in
    record { focus_stack = stack; has_focus = if is_empty stack then false else seat.has_focus }

-- `seat_get_focus`; an empty stack with the focus fails its assertion.
unfoldable pub seat_get_focus : Seat → Option ℕ
seat_get_focus seat = if seat.has_focus then head_of seat.focus_stack else none

module _ {D : Type 0} (root depth : ℕ) (things : ℕ → Thing D) where
  unfoldable pub seat_get_focus_inactive : ℕ → Seat → Option ℕ
  unfolding node_has_ancestor
  seat_get_focus_inactive i seat =
      if is_view_thing (things i)
      then some i
      else elim (first_node (λ j. node_has_ancestor root things depth j i) seat.focus_stack) [
        | some j ↦ some j
        | none ↦ if is_workspace (things i) then some i else none
      ]

  unfoldable pub seat_get_focus_inactive_view : ℕ → Seat → Option ℕ
  unfolding node_has_ancestor
  seat_get_focus_inactive_view i seat =
      if is_view_thing (things i)
      then some i
      else first_node (λ j. is_view_thing (things j) && node_has_ancestor root things depth j i)
          seat.focus_stack

  unfoldable pub seat_get_active_tiling_child : ℕ → Seat → Option ℕ
  unfolding node_get_parent
  seat_get_active_tiling_child i seat =
      if is_view_thing (things i)
      then some i
      else first_node
          (λ j. is_node (node_get_parent root things j) i && is_tiling_child (things i) j)
          seat.focus_stack

  -- `pending.workspace` of a container, the workspace itself, or NULL.
  abbrev pub workspace_of : Thing D → ℕ → Option ℕ
  workspace_of n_root i = none
  workspace_of (n_output o) i = none
  workspace_of (n_workspace w) i = some i
  workspace_of (n_container c) i = c.pending.workspace

  unfoldable pub seat_get_focused_workspace : Seat → Option ℕ
  unfolding seat_get_focus_inactive
  seat_get_focused_workspace seat = elim (seat_get_focus_inactive root seat) [
    | none ↦ none
    | some focus ↦ workspace_of (things focus) focus
  ]

  abbrev pub last_workspace : List ℕ → Option ℕ
  last_workspace [] = none
  last_workspace (j ∷ rest) = elim (workspace_of (things j) j) [
    | some ws ↦ some ws
    | none ↦ last_workspace rest
  ]

  unfoldable pub seat_get_last_known_workspace : Seat → Option ℕ
  seat_get_last_known_workspace seat = last_workspace seat.focus_stack
