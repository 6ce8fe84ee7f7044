-- ===== src/Common/Gesture.antt =====
-- The gestures of common/gesture.c: gesture_parse, gesture_to_string,
-- gesture_check, gesture_match, gesture_equal and gesture_compare.
pub mod Parsing
pub mod Tracker
use Prim.Native.Nat.{bit_and, bit_or}
use swirl.Prelude.{
  ℕ, zero, suc, ◌+◌, ◌-◌, ◌*◌, ◌/◌, ◌%◌, ◌^◌, ◌==◌, ltb, leb, Bool, true, false, not, ◌&&◌, ◌||◌,
  Option, none, some, List, [], ◌∷◌, ◌++◌, if◌then◌else◌, length,
}
use swirl.Prelude.Int.{ℤ, pos, negsuc}
use swirl.Prelude.Text.{Text, codes, text_eq}
use swirl.Common.Split.{split_string}

-- `enum gesture_type`
pub data GestureType : Type 0 where
  type_none type_hold type_pinch type_swipe : GestureType

abbrev pub same_type : GestureType → GestureType → Bool
same_type type_none type_none = true
same_type type_hold type_hold = true
same_type type_pinch type_pinch = true
same_type type_swipe type_swipe = true
same_type a b = false

-- GESTURE_FINGERS_ANY
abbrev pub fingers_any : ℕ
fingers_any = 0

-- `struct gesture`; `directions` is a mask of `enum gesture_direction`.
pub record Gesture : Type 0 where
  pub type : GestureType
  pub fingers : ℕ
  pub directions : ℕ

-- The errors of `gesture_parse`, with the text that each message cites.
pub data Message : Type 0 where
  expected_gesture expected_type expected_fingers expected_direction : Text → Message

abbrev cleared : Gesture
cleared = record { type = type_none; fingers = fingers_any; directions = 0 }

-- The chain of comparisons for the type.
parse_type : Text → Option GestureType
parse_type item =
    if text_eq item (codes "hold")
    then some type_hold
    else if text_eq item (codes "pinch")
    then some type_pinch
    else if text_eq item (codes "swipe")
    then some type_swipe
    else none

-- The chain of comparisons for a direction; `any` adds no bit.
pub parse_direction : Text → Option ℕ
parse_direction item =
    if text_eq item (codes "any")
    then some 0
    else if text_eq item (codes "up")
    then some 1
    else if text_eq item (codes "down")
    then some 2
    else if text_eq item (codes "left")
    then some 4
    else if text_eq item (codes "right")
    then some 8
    else if text_eq item (codes "inward")
    then some 16
    else if text_eq item (codes "outward")
    then some 32
    else if text_eq item (codes "clockwise")
    then some 64
    else if text_eq item (codes "counterclockwise")
    then some 128
    else none

-- The loop over the directions; an error leaves those that were read before it.
pub parse_directions : List Text → Gesture → Option Message × Gesture
unfolding parse_direction
parse_directions [] output = (none, output)
parse_directions (item ∷ items) output = elim (parse_direction item) [
  | none ↦ (some (expected_direction item), output)
  | some bit ↦ parse_directions items (record output { directions = bit_or output.directions bit })
]

-- `strlen(next) == 1 && '1' <= next[0] && next[0] <= '9'`, and `atoi`.
abbrev pub finger_count : Text → Option ℕ
finger_count [] = none
finger_count (c ∷ []) = if leb b'1' c && leb c b'9' then some (c - b'0') else none
finger_count (c ∷ (d ∷ cs)) = none

pub parse_last : Text → Gesture → Option Message × Gesture
unfolding parse_directions
parse_last next output = parse_directions (split_string next (codes "+")) output

-- The arguments behind the type.
pub parse_arguments : List Text → Gesture → Option Message × Gesture
unfolding parse_last
parse_arguments [] output = (none, output)
parse_arguments (next ∷ []) output = elim (finger_count next) [
  | some n ↦ (none, record output { fingers = n })
  | none ↦ parse_last next output
]
parse_arguments (next ∷ (last ∷ others)) output = elim (finger_count next) [
  | some n ↦ parse_last last (record output { fingers = n })
  | none ↦ (some (expected_fingers next), output)
]

pub parse_split : Text → List Text → Option Message × Gesture
unfolding parse_type parse_arguments
parse_split input [] = (some (expected_gesture input), cleared)
parse_split input (first ∷ rest) =
    if ltb 2 (length rest)
    then (some (expected_gesture input), cleared)
    else elim (parse_type first) [
      | none ↦ (some (expected_type first), cleared)
      | some type ↦ parse_arguments rest (record cleared { type = type })
    ]

-- `gesture_parse`: the error message, if any, and what `output` holds.
unfoldable pub gesture_parse : Text → Option Message × Gesture
unfolding parse_split
gesture_parse input = parse_split input (split_string input (codes ":"))

pub gesture_type_string : GestureType → Text
gesture_type_string type_none = codes "none"
gesture_type_string type_hold = codes "hold"
gesture_type_string type_pinch = codes "pinch"
gesture_type_string type_swipe = codes "swipe"

-- `none` is NULL, for a number that is no value of the enumeration.
pub gesture_direction_string : ℕ → Option Text
gesture_direction_string direction =
    if direction == 0
    then some (codes "none")
    else if direction == 1
    then some (codes "up")
    else if direction == 2
    then some (codes "down")
    else if direction == 4
    then some (codes "left")
    else if direction == 8
    then some (codes "right")
    else if direction == 16
    then some (codes "inward")
    else if direction == 32
    then some (codes "outward")
    else if direction == 64
    then some (codes "clockwise")
    else if direction == 128
    then some (codes "counterclockwise")
    else none

-- The name of one bit, with the separator behind what was written before it.
abbrev add_name : Option Text → Option Text → Text
add_name none none = codes "unknown"
add_name none (some name) = name
add_name (some result) none = result ++ (codes "+" ++ codes "unknown")
add_name (some result) (some name) = result ++ (codes "+" ++ name)

-- The loop over the bits from `bit` on.
pub directions_loop : ℕ → ℕ → ℕ → Option Text → Option Text
unfolding gesture_direction_string
directions_loop zero bit directions result = result
directions_loop (suc rounds) bit directions result =
    let masked = bit_and directions (2 ^ bit) in
    directions_loop rounds (bit + 1) directions
      (if masked == 0 then result else some (add_name result (gesture_direction_string masked)))

pub gesture_directions_to_string : ℕ → Text
unfolding directions_loop
gesture_directions_to_string directions = elim (directions_loop 32 0 directions none) [
  | none ↦ codes "any"
  | some result ↦ result
]

-- `%u` of a `uint8_t`
pub decimal : ℕ → Text
decimal n =
    if ltb n 10
    then (b'0' + n) ∷ []
    else if ltb n 100
    then (b'0' + n / 10) ∷ ((b'0' + n % 10) ∷ [])
    else (b'0' + n / 100) ∷ ((b'0' + n / 10 % 10) ∷ ((b'0' + n % 10) ∷ []))

unfoldable pub gesture_to_string : Gesture → Text
unfolding gesture_directions_to_string gesture_type_string decimal
gesture_to_string g =
    gesture_type_string g.type
    ++ (codes ":"
        ++ (decimal g.fingers ++ (codes ":" ++ gesture_directions_to_string g.directions)))

pub gesture_check : Gesture → GestureType → ℕ → Bool
gesture_check target type fingers =
    if not (same_type target.type type)
    then false
    else not (not (target.fingers == fingers_any) && not (target.fingers == fingers))

unfoldable pub gesture_match : Gesture → Gesture → Bool → Bool
unfolding gesture_check
gesture_match target to_match exact =
    if not (gesture_check target to_match.type to_match.fingers)
    then false
    else if exact && not (target.directions == to_match.directions)
    then false
    else bit_and target.directions to_match.directions == target.directions

pub gesture_equal : Gesture → Gesture → Bool
gesture_equal a b =
    same_type a.type b.type && a.fingers == b.fingers && a.directions == b.directions

-- `for (; directions; directions >>= 1) count += directions & 1;` on at most 32 bits.
pub count_loop : ℕ → ℕ → ℕ → ℕ
count_loop zero directions count = count
count_loop (suc rounds) directions count =
    let more = count_loop rounds (directions / 2) ((count + directions % 2) % 2 ^ 8) in
    if directions == 0 then count else more

pub gesture_directions_count : ℕ → ℕ
unfolding count_loop
gesture_directions_count directions = count_loop 32 directions 0

-- `gesture_compare`, through `gesture_directions_compare`; the counts are at most 32, so the
-- difference fits an `int8_t`.
unfoldable pub gesture_compare : Gesture → Gesture → ℤ
unfolding gesture_directions_count
gesture_compare a b =
    let m = gesture_directions_count a.directions in
    let n = gesture_directions_count b.directions in
    if leb n m then pos (m - n) else negsuc (n - m - 1)
