-- ===== src/Common/Tests.antt =====
-- Tests of the models of the common code, and the theorems at concrete inputs.
use swirl.Prelude.{
  ltb, ◌-◌, ℕ, ◌+◌, ◌==◌, ◌≡◌, refl, arith, true, false, none, some, [], ◌∷◌, ◌++◌, take, drop, ◌⊎◌,
  get_elem?,
}
use swirl.Prelude.Text.{codes}
use swirl.Prelude.Int.{pos, negsuc}
use swirl.Common.ArrayList.{
  ListT, contents, create_list, list_add, list_cat, list_insert, list_del, list_seq_find, list_find,
  list_swap, list_move_to_end,
}
use swirl.Common.ArrayList.Contents.{IsValid, operations_lem, list_del_lem, list_del-list_insert}
use swirl.Common.ArrayList.Search.{
  AllFail, FirstFrom, list_seq_find-FirstFrom, list_move_to_end_lem,
}
use swirl.Common.Split.{split_string, split_string-join}
use swirl.Common.Gesture.{
  type_pinch, type_none, gesture_directions_count, Gesture, type_swipe, expected_fingers,
  gesture_parse, gesture_to_string, gesture_match, gesture_compare,
}
use swirl.Common.Gesture.Tracker.{
  Floats, GestureTracker, gesture_tracker_update, gesture_tracker_end, gesture_tracker_end_lem,
  gesture_directions_count-gesture_tracker_end,
}
use swirl.Common.Gesture.Parsing.{gesture_parse-gesture_to_string, gesture_parse-any_fingers}

-- A full list of two items.
abbrev two : ListT ℕ
two = record { capacity = 2; length = 2; items = 5 ∷ 7 ∷ [] }

abbrev spare : ListT ℕ
spare = record { capacity = 4; length = 3; items = 1 ∷ 2 ∷ 3 ∷ 99 ∷ [] }

two-IsValid : IsValid two
two-IsValid = omega arith

spare-IsValid : IsValid spare
spare-IsValid = omega arith

insert_runs : contents (list_insert 0 two 1 6) ≡ 5 ∷ 6 ∷ 7 ∷ []
unfolding list_insert
insert_runs = refl

swap_runs : contents (list_swap spare 0 2) ≡ 3 ∷ 2 ∷ 1 ∷ []
unfolding list_swap
swap_runs = refl

find_runs : (list_find spare 3 ≡ pos 2) × (list_find spare 4 ≡ negsuc 0)
unfolding list_find
find_runs = (refl, refl)

created : contents {A = ℕ} (list_add 0 (create_list 0) 8) ≡ 8 ∷ []
unfolding list_add create_list
created = refl

operations_lem_example :
    (IsValid (list_add 0 two 6) × (contents (list_add 0 two 6) ≡ 5 ∷ 7 ∷ 6 ∷ []))
    × (IsValid (list_cat 0 two spare) × (contents (list_cat 0 two spare) ≡ 5 ∷ 7 ∷ 1 ∷ 2 ∷ 3 ∷ []))
    × (IsValid (list_insert 0 two 1 6) × (contents (list_insert 0 two 1 6) ≡ 5 ∷ 6 ∷ 7 ∷ []))
operations_lem_example = operations_lem 0 two spare 6 1 two-IsValid (omega arith)

list_del_lem_example : IsValid (list_del two 1) × (contents (list_del two 1) ≡ 5 ∷ [])
list_del_lem_example = list_del_lem two 1 two-IsValid (omega arith)

list_del-list_insert_example : contents (list_del (list_insert 0 two 2 6) 2) ≡ 5 ∷ 7 ∷ []
list_del-list_insert_example = list_del-list_insert 0 two 2 6 two-IsValid (omega arith)

list_seq_find_example : FirstFrom (λ x. x == 7) 0 (5 ∷ 7 ∷ []) (list_seq_find two (λ x. x == 7))
list_seq_find_example = list_seq_find-FirstFrom two (λ x. x == 7)

list_move_to_end_example :
    ((j : ℕ) × (get_elem? (contents spare) j ≡ some 2)
      × (contents (list_move_to_end 0 spare 2)
          ≡ (take j (contents spare) ++ drop (j + 1) (contents spare)) ++ 2 ∷ []))
    ⊎ (AllFail (λ x. x == 2) (contents spare) × (list_move_to_end 0 spare 2 ≡ spare))
list_move_to_end_example = list_move_to_end_lem 0 spare 2 spare-IsValid

moved_last : contents (list_move_to_end 0 spare 2) ≡ 1 ∷ 3 ∷ 2 ∷ []
unfolding list_move_to_end
moved_last = refl

split_runs : split_string (codes "::a:bc:") (codes ":") ≡ codes "a" ∷ codes "bc" ∷ []
unfolding split_string
split_runs = refl

split_string-join_example :
    split_string (codes "up+left") (codes "+") ≡ codes "up" ∷ codes "left" ∷ []
split_string-join_example =
    split_string-join (codes "+") b'+' (codes "up" ∷ codes "left" ∷ []) refl
      ((refl, (refl, tt)), ((refl, (refl, (refl, (refl, tt)))), tt))

abbrev three_up : Gesture
three_up = record { type = type_swipe; fingers = 3; directions = 5 }

to_string_runs : gesture_to_string three_up ≡ codes "swipe:3:up+left"
unfolding gesture_to_string
to_string_runs = refl

gesture_round_trip_example : gesture_parse (gesture_to_string three_up) ≡ (none, three_up)
gesture_round_trip_example =
    gesture_parse-gesture_to_string three_up (λ e. cc) (omega arith) (omega arith) (omega arith)

any_fingers_example :
    (gesture_parse (gesture_to_string (record three_up { fingers = 0 }))).0
    ≡ some (expected_fingers (codes "0"))
any_fingers_example =
    gesture_parse-any_fingers (record three_up { fingers = 0 }) (λ e. cc) refl (omega arith)

match_runs :
    (gesture_match (record three_up { directions = 1 }) three_up false ≡ true)
    × (gesture_match (record three_up { directions = 1 }) three_up true ≡ false)
    × (gesture_compare three_up (record three_up { directions = 1 }) ≡ pos 1)
unfolding gesture_match gesture_compare
match_runs = (refl, refl, refl)

abbrev floats : Floats ℕ
floats = record {
  zero_float = 0;
  one_float = 10;
  min_rotation = 50;
  min_scale_delta = 1;
  add = λ x y. x + y;
  sub = λ x y. x - y;
  neg = λ x. 0;
  fabs = λ x. x;
  less = ltb;
}

-- A pinch of two fingers to the right that turns and shrinks.
abbrev pinching : GestureTracker ℕ
pinching = record { type = type_pinch; fingers = 2; dx = 7; dy = 3; scale = 5; rotation = 60 }

pinch_ends : (gesture_tracker_end floats pinching).0.directions ≡ 88
unfolding gesture_tracker_end
pinch_ends = refl

pinch_tracked :
    gesture_tracker_update floats (record pinching { scale = 10; rotation = 20 }) 0 0 5 40
    ≡ pinching
unfolding gesture_tracker_update
pinch_tracked = refl

gesture_tracker_end_example :
    let (g, ended) = gesture_tracker_end floats pinching in
    (gesture_parse (gesture_to_string g) ≡ (none, g))
    × (g.type ≡ type_pinch)
    × (g.fingers ≡ 2)
    × (ended.type ≡ type_none)
gesture_tracker_end_example =
    gesture_tracker_end_lem floats pinching (λ e. cc) (omega arith) (omega arith)

direction_count_example :
    gesture_directions_count
      (gesture_tracker_end floats (record pinching { type = type_swipe })).0.directions
    ≡ 1
direction_count_example =
    gesture_directions_count-gesture_tracker_end floats (record pinching { type = type_swipe }) refl
