-- ===== src/Common/Gesture/Parsing.antt =====
-- Reading back what gesture_to_string of common/gesture.c writes.
use swirl.Prelude.{
  ℕ, zero, suc, ◌+◌, ◌≤◌, ◌<◌, ◌==◌, ◌≡◌, ◌≢◌, refl, ◌∙◌, arith, ltb, Bool, true, false, not, ◌&&◌,
  Option, none, some, List, [], ◌∷◌, inl, inr, Option-cases, Bool-cases, ==_iff,
}
use Prim.Native.Nat.{bit_or}
use swirl.Prelude.Text.{Text, codes, contains_byte}
use swirl.Common.Split.{split_string, Free, AllTokens, split_string-join}
use swirl.Common.Gesture.{
  expected_fingers, GestureType, type_none, type_hold, type_pinch, type_swipe, Gesture, Message,
  parse_directions, parse_last, parse_arguments, parse_split, gesture_parse, finger_count,
  gesture_type_string, gesture_directions_to_string, decimal, gesture_to_string, parse_type,
  parse_direction,
}

holds_for : (ℕ → Bool) → ℕ → ℕ → Bool
holds_for test start zero = true
holds_for test start (suc count) = test start && holds_for test (start + 1) count

holds_for-at :
    (test : ℕ → Bool) (start count d : ℕ)
    → holds_for test start count ≡ true
    → start ≤ d
    → d < start + count
    → test d ≡ true
unfolding holds_for
holds_for-at test start zero d e lower upper = absurd (omega arith)
holds_for-at test start (suc count) d e lower upper = elim (Bool-cases (start == d)) [
  | inl same ↦ rw (← (==_iff start d).0 same) (ground arith)
  | inr other ↦
      holds_for-at test (start + 1) count d (ground arith) (ground (arith, (==_iff start d).1))
        (omega arith)
]

abbrev is_free : Text → Text → Bool
is_free delims [] = true
is_free delims (c ∷ cs) = not (contains_byte delims c) && is_free delims cs

abbrev is_token : Text → Text → Bool
is_token delims [] = false
is_token delims (c ∷ cs) = is_free delims (c ∷ cs)

is_free-Free : (delims cs : Text) → is_free delims cs ≡ true → Free delims cs
is_free-Free delims [] h = tt
is_free-Free delims (c ∷ cs) h = (ground arith, is_free-Free delims cs (ground arith))

-- Reading directions changes no other field, and does not depend on one.
parse_directions-frame :
    (items : List Text) (t : GestureType) (f d : ℕ)
    → parse_directions items (record { type = t; fingers = f; directions = d }) ≡ (
      (parse_directions items (record { type = type_none; fingers = 0; directions = d })).0,
      record {
        type = t;
        fingers = f;
        directions =
            (parse_directions items
              (record { type = type_none; fingers = 0; directions = d })).1.directions;
      },
    )
unfolding parse_directions
parse_directions-frame [] t f d = refl
parse_directions-frame (item ∷ items) t f d = elim (Option-cases (parse_direction item)) [
  | inl e ↦ rw (e, parse_directions) refl
  | inr (bit, e) ↦ rw (e, parse_directions) (parse_directions-frame items t f (bit_or d bit))
]

abbrev empty_gesture : Gesture
empty_gesture = record { type = type_none; fingers = 0; directions = 0 }

abbrev is_none : Option Message → Bool
is_none none = true
is_none (some m) = false

-- The directions `d` are read back, and their text is a token.
reads_back : ℕ → Bool
reads_back d =
    let (m, g) = parse_last (gesture_directions_to_string d) empty_gesture in
    is_none m && g.directions == d && is_token (codes ":") (gesture_directions_to_string d)

reads_back_table : holds_for reads_back 0 256 ≡ true
unfolding holds_for reads_back parse_last gesture_directions_to_string split_string
reads_back_table = refl

is_none-eq : (m : Option Message) → is_none m ≡ true → m ≡ none
is_none-eq none h = refl
is_none-eq (some m) h = cc

-- The text of a mask of the eight directions is read back at any type and number of fingers.
parse_last-directions :
    (t : GestureType) (f d : ℕ)
    → d < 256
    → (parse_last
          (gesture_directions_to_string d)
          (record { type = t; fingers = f; directions = 0 })
        ≡ (none, record { type = t; fingers = f; directions = d }))
      × (is_token (codes ":") (gesture_directions_to_string d) ≡ true)
unfolding parse_last reads_back
parse_last-directions t f d h =
    let fine = holds_for-at reads_back 0 256 d reads_back_table (omega arith) (omega arith) in
    let items = split_string (gesture_directions_to_string d) (codes "+") in
    let read = parse_directions items empty_gesture in
    let same : read.1.directions ≡ d = ground arith in
    (
      parse_directions-frame items t f 0 ∙ rw (is_none-eq read.0 (ground arith), same) refl,
      ground arith,
    )

AllTokens-cons :
    (delims t : Text) (ts : List Text)
    → is_token delims t ≡ true
    → AllTokens delims ts
    → AllTokens delims (t ∷ ts)
AllTokens-cons delims [] ts h v = cc
AllTokens-cons delims (c ∷ cs) ts h v = (is_free-Free delims (c ∷ cs) h, v)

decimal_lem :
    (n : ℕ)
    → 0 < n
    → n < 10
    → (finger_count (decimal n) ≡ some n) × (is_token (codes ":") (decimal n) ≡ true)
unfolding decimal
decimal_lem n h k = let e : ltb n 10 ≡ true = ground arith in rw e (ground arith, ground arith)

decimal-is_token : (n : ℕ) → n < 10 → is_token (codes ":") (decimal n) ≡ true
unfolding decimal
decimal-is_token n k = let e : ltb n 10 ≡ true = ground arith in rw e (ground arith)

-- The three parts of the text of a gesture with fingers and directions, read as arguments.
parse_arguments-parts :
    (t : GestureType) (n d : ℕ)
    → 0 < n
    → n < 10
    → d < 256
    → parse_arguments
        (decimal n ∷ (gesture_directions_to_string d ∷ []))
        (record { type = t; fingers = 0; directions = 0 })
      ≡ (none, record { type = t; fingers = n; directions = d })
unfolding parse_arguments
parse_arguments-parts t n d h k l =
    rw ((decimal_lem n h k).0, parse_arguments) (parse_last-directions t n d l).0

split-gesture :
    (t : GestureType) (n d : ℕ)
    → is_token (codes ":") (gesture_type_string t) ≡ true
    → n < 10
    → d < 256
    → split_string
        (gesture_to_string (record { type = t; fingers = n; directions = d }))
        (codes ":")
      ≡ gesture_type_string t ∷ (decimal n ∷ (gesture_directions_to_string d ∷ []))
unfolding gesture_to_string
split-gesture t n d f k l =
    split_string-join (codes ":") b':'
      (gesture_type_string t ∷ (decimal n ∷ (gesture_directions_to_string d ∷ []))) refl
      (AllTokens-cons (codes ":") (gesture_type_string t) _ f (
        AllTokens-cons (codes ":") (decimal n) _ (decimal-is_token n k) (
          AllTokens-cons (codes ":") (gesture_directions_to_string d) []
            (parse_last-directions t n d l).1 tt)))

round_trip :
    (t : GestureType) (n d : ℕ)
    → t ≢ type_none
    → 0 < n
    → n < 10
    → d < 256
    → gesture_parse (gesture_to_string (record { type = t; fingers = n; directions = d }))
      ≡ (none, record { type = t; fingers = n; directions = d })
unfolding gesture_parse parse_split parse_type gesture_type_string
round_trip type_none n d f h k l = absurd (f refl)
round_trip type_hold n d f h k l =
    rw (split-gesture type_hold n d refl k l) (parse_arguments-parts type_hold n d h k l)
round_trip type_pinch n d f h k l =
    rw (split-gesture type_pinch n d refl k l) (parse_arguments-parts type_pinch n d h k l)
round_trip type_swipe n d f h k l =
    rw (split-gesture type_swipe n d refl k l) (parse_arguments-parts type_swipe n d h k l)

-- `gesture_parse` reads back what `gesture_to_string` writes for a gesture of some type with one to
-- nine fingers and any of the eight directions, and reports no error.
pub gesture_parse-gesture_to_string :
    (g : Gesture)
    → g.type ≢ type_none
    → 0 < g.fingers
    → g.fingers < 10
    → g.directions < 256
    → gesture_parse (gesture_to_string g) ≡ (none, g)
gesture_parse-gesture_to_string g f h k l = round_trip g.type g.fingers g.directions f h k l

any_fingers :
    (t : GestureType) (n d : ℕ)
    → t ≢ type_none
    → n ≡ 0
    → d < 256
    → (gesture_parse (gesture_to_string (record { type = t; fingers = n; directions = d }))).0
      ≡ some (expected_fingers (codes "0"))
unfolding gesture_parse parse_split parse_type parse_arguments gesture_type_string decimal
any_fingers type_none n d f e l = absurd (f refl)
any_fingers type_hold n d f e l = rw (e, split-gesture type_hold 0 d refl (omega arith) l)
any_fingers type_pinch n d f e l = rw (e, split-gesture type_pinch 0 d refl (omega arith) l)
any_fingers type_swipe n d f e l = rw (e, split-gesture type_swipe 0 d refl (omega arith) l)

-- A gesture of some type for any number of fingers is written as a text that `gesture_parse`
-- refuses, since it takes no 0 for the number of fingers.
pub gesture_parse-any_fingers :
    (g : Gesture)
    → g.type ≢ type_none
    → g.fingers ≡ 0
    → g.directions < 256
    → (gesture_parse (gesture_to_string g)).0 ≡ some (expected_fingers (codes "0"))
gesture_parse-any_fingers g f e l = any_fingers g.type g.fingers g.directions f e l
