-- ===== src/Input/Focus/Stack.antt =====
-- The order of the focus stack of sway/input/seat.c under new nodes, focus and the loss of nodes.
use swirl.Prelude.Members.{member, unlink}
use swirl.Prelude.{
  ℕ, ◌==◌, ◌≡◌, refl, arith, Bool, true, false, ◌||◌, none, some, List, [], ◌∷◌, ◌++◌, inl, inr,
  Option-cases, Bool-cases,
}
use swirl.Txn.State.{Server}
use swirl.Input.Focus.{
  Seat, is_empty, may_have_seat_node, things_of, seat_node_from_node, handle_new_node,
  seat_set_raw_focus, seat_node_destroy,
}

abbrev pub Unique : List ℕ → Type 0
Unique [] = Unit
Unique (x ∷ xs) = (member x xs ≡ false) × Unique xs

-- No node occurs twice, and a seat with the focus has a node to which it belongs.
pub record IsValid (seat : Seat) : Type 0 where
  pub unique : Unique seat.focus_stack
  pub focusable : seat.has_focus ≡ true → is_empty seat.focus_stack ≡ false

-- A node appears, gets the focus, or is destroyed.
pub data FocusEvent : Type 0 where
  appeared : Bool → ℕ → FocusEvent
  focused : Bool → ℕ → FocusEvent
  gone : ℕ → FocusEvent

module _ {D : Type 0} (root : ℕ) where
  -- A call that has no result leaves the state.
  unfoldable pub focus_step : FocusEvent → Seat × Server D → Seat × Server D
  unfolding handle_new_node seat_set_raw_focus seat_node_destroy
  focus_step (appeared alloc i) (seat, s) = (handle_new_node alloc (things_of s i) i seat, s)
  focus_step (focused alloc i) (seat, s) = elim (seat_set_raw_focus alloc root i seat s) [
    | none ↦ (seat, s)
    | some after ↦ after
  ]
  focus_step (gone i) (seat, s) = (seat_node_destroy i seat, s)

  unfoldable pub run_focus : List FocusEvent → Seat × Server D → Seat × Server D
  unfolding focus_step
  run_focus [] state = state
  run_focus (e ∷ es) state = run_focus es (focus_step e state)

pub member-append : (i j : ℕ) (xs : List ℕ) → member i (xs ++ j ∷ []) ≡ (member i xs || j == i)
member-append i j [] = ground arith
member-append i j (x ∷ xs) = ground (arith, member-append i j xs)

append-Unique : (i : ℕ) (xs : List ℕ) → member i xs ≡ false → Unique xs → Unique (xs ++ i ∷ [])
append-Unique i [] h v = (refl, tt)
append-Unique i (x ∷ xs) h v =
    (ground (arith, member-append x i xs, v), append-Unique i xs (ground arith) v.1)

member-unlink : (i j : ℕ) (xs : List ℕ) → member i xs ≡ false → member i (unlink j xs) ≡ false
member-unlink i j [] h = refl
member-unlink i j (x ∷ xs) h = ground (arith, member-unlink i j xs)

unlink-Unique : (i : ℕ) (xs : List ℕ) → Unique xs → Unique (unlink i xs)
unlink-Unique i [] v = tt
unlink-Unique i (x ∷ xs) v = elim (Bool-cases (x == i)) [
  | inl e ↦ rw e v.1
  | inr e ↦ rw e (member-unlink x i xs v.0, unlink-Unique i xs v.1)
]

unlink-absent : (i : ℕ) (xs : List ℕ) → Unique xs → member i (unlink i xs) ≡ false
unlink-absent i [] v = refl
unlink-absent i (x ∷ xs) v = ground (arith, unlink-absent i xs v.1, v.0)

nonempty-append : (xs : List ℕ) (i : ℕ) → is_empty (xs ++ i ∷ []) ≡ false
nonempty-append [] i = refl
nonempty-append (x ∷ xs) i = refl

seat_node_destroy-IsValid :
    (i : ℕ) (seat : Seat) → IsValid seat → IsValid (seat_node_destroy i seat)
unfolding seat_node_destroy
seat_node_destroy-IsValid i seat v = record {
  unique = unlink-Unique i seat.focus_stack v.unique;
  focusable = λ h. ground arith;
}

module _ {D : Type 0} (root : ℕ) where
  handle_new_node-IsValid :
      (alloc : Bool) (i : ℕ) (seat : Seat) (s : Server D)
      → IsValid seat
      → IsValid (handle_new_node alloc (things_of s i) i seat)
  unfolding handle_new_node
  handle_new_node-IsValid alloc i seat s v =
      elim (Bool-cases (may_have_seat_node (things_of s i))) [
        | inr e ↦ rw (e, handle_new_node, seat_node_from_node) v
        | inl e ↦ elim (Bool-cases (member i seat.focus_stack)) [
          | inl m ↦ rw (e, m, handle_new_node, seat_node_from_node) v
          | inr m ↦ elim (Bool-cases alloc) [
            | inr a ↦ rw (e, m, a, handle_new_node, seat_node_from_node) v
            | inl a ↦
                rw (e, m, a, handle_new_node, seat_node_from_node)
                  (record {
                    unique = append-Unique i seat.focus_stack m v.unique;
                    focusable = λ h. nonempty-append seat.focus_stack i;
                  })
          ]
        ]
      ]

  raw_focus-IsValid :
      (alloc : Bool) (i : ℕ) (seat : Seat) (s : Server D)
      → IsValid seat
      → IsValid (focus_step root (focused alloc i) (seat, s)).0
  unfolding focus_step
  raw_focus-IsValid alloc i seat s v =
      let new = handle_new_node-IsValid alloc i seat s v in
      elim (Option-cases (seat_node_from_node alloc (things_of s i) i seat)) [
        | inl e ↦ rw (e, focus_step, seat_set_raw_focus) v
        | inr (seat', e) ↦
            (let v' : IsValid seat' = rw (e, handle_new_node) at new in
              rw (e, focus_step, seat_set_raw_focus)
                (record {
                  unique = (
                    unlink-absent i seat'.focus_stack v'.unique,
                    unlink-Unique i seat'.focus_stack v'.unique,
                  );
                  focusable = λ h. refl;
                }))
      ]

  step-IsValid :
      (e : FocusEvent) (state : Seat × Server D)
      → IsValid state.0
      → IsValid (focus_step root e state).0
  unfolding focus_step
  step-IsValid (appeared alloc i) (seat, s) v = handle_new_node-IsValid alloc i seat s v
  step-IsValid (focused alloc i) (seat, s) v = raw_focus-IsValid alloc i seat s v
  step-IsValid (gone i) (seat, s) v = seat_node_destroy-IsValid i seat v

  -- After any history of nodes that appear, get the focus or are destroyed, no node is twice in the
  -- focus stack, and a seat that has the focus has a node in its stack.
  pub run_focus-IsValid :
      (es : List FocusEvent) (state : Seat × Server D)
      → IsValid state.0
      → IsValid (run_focus root es state).0
  unfolding run_focus
  run_focus-IsValid [] state v = v
  run_focus-IsValid (e ∷ es) state v =
      run_focus-IsValid es (focus_step root e state) (step-IsValid e state v)
