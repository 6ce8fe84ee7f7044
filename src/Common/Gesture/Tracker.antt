-- ===== src/Common/Gesture/Tracker.antt =====
-- The gesture tracker of common/gesture.c, from gesture_tracker_begin to gesture_tracker_end. The
-- type `double` is a parameter, with the operations and constants that the code uses.
use swirl.Prelude.{ℕ, ◌<◌, ◌≡◌, ◌≢◌, refl, sym, ◌∙◌, arith, Bool, true, false, none, if◌then◌else◌}
use Prim.Native.Nat.{bit_or}
use swirl.Common.Gesture.{
  GestureType, type_none, type_hold, type_pinch, type_swipe, same_type, Gesture, gesture_parse,
  gesture_to_string, gesture_directions_count,
}
use swirl.Common.Gesture.Parsing.{gesture_parse-gesture_to_string}

-- `double`: 0.0, 1.0, `min_rotation` and `min_scale_delta`, `+`, `-`, `fabs` and `<`.
pub record Floats (D : Type 0) : Type 0 where
  pub zero_float : D
  pub one_float : D
  pub min_rotation : D
  pub min_scale_delta : D
  pub add : D → D → D
  pub sub : D → D → D
  pub neg : D → D
  pub fabs : D → D
  pub less : D → D → Bool

-- `struct gesture_tracker`
pub record GestureTracker (D : Type 0) : Type 0 where
  pub type : GestureType
  pub fingers : ℕ
  pub dx : D
  pub dy : D
  pub scale : D
  pub rotation : D

module _ {D : Type 0} (floats : Floats D) where
  open floats use {zero_float, one_float, min_rotation, min_scale_delta, add, sub, neg, fabs, less}

  pub gesture_tracker_begin : GestureType → ℕ → GestureTracker D
  gesture_tracker_begin type fingers = record {
    type = type;
    fingers = fingers;
    dx = zero_float;
    dy = zero_float;
    scale = one_float;
    rotation = zero_float;
  }

  pub gesture_tracker_check : GestureTracker D → GestureType → Bool
  gesture_tracker_check tracker type = same_type tracker.type type

  -- A gesture without updates fails the assertion and stays.
  unfoldable pub gesture_tracker_update : GestureTracker D → D → D → D → D → GestureTracker D
  gesture_tracker_update tracker dx dy scale rotation =
      let moved = record tracker { dx = add tracker.dx dx; dy = add tracker.dy dy } in
      elim tracker.type [
        | type_hold ↦ tracker
        | type_pinch ↦ record moved { scale = scale; rotation = add tracker.rotation rotation }
        | type_swipe ↦ moved
        | type_none ↦ moved
      ]

  pub gesture_tracker_cancel : GestureTracker D → GestureTracker D
  gesture_tracker_cancel tracker = record tracker { type = type_none }

  -- The directions from scale and rotation: clockwise 64, counterclockwise 128, outward 32, inward 16.
  pub turn_directions : GestureTracker D → ℕ → ℕ
  turn_directions tracker d0 =
      let d1 = if less min_rotation tracker.rotation then bit_or d0 64 else d0 in
      let d2 = if less tracker.rotation (neg min_rotation) then bit_or d1 128 else d1 in
      let d3 = if less (add one_float min_scale_delta) tracker.scale then bit_or d2 32 else d2 in
      if less tracker.scale (sub one_float min_scale_delta) then bit_or d3 16 else d3

  -- The direction from the larger of the two distances: right 8, left 4, down 2, up 1.
  pub move_directions : GestureTracker D → ℕ → ℕ
  move_directions tracker d =
      if less (fabs tracker.dy) (fabs tracker.dx)
      then if less zero_float tracker.dx then bit_or d 8 else bit_or d 4
      else if less zero_float tracker.dy
      then bit_or d 2
      else bit_or d 1

  -- `gesture_tracker_end`; without a gesture it fails its assertion and returns the empty result.
  unfoldable pub gesture_tracker_end : GestureTracker D → Gesture × GestureTracker D
  unfolding turn_directions move_directions
  gesture_tracker_end tracker =
      let ended : ℕ → Gesture × GestureTracker D = λ d. (
        record { type = tracker.type; fingers = tracker.fingers; directions = d },
        record tracker { type = type_none },
      ) in
      elim tracker.type [
        | type_pinch ↦ ended (move_directions tracker (turn_directions tracker 0))
        | type_swipe ↦ ended (move_directions tracker 0)
        | type_hold ↦ ended 0
        | type_none ↦ (record { type = type_none; fingers = 0; directions = 0 }, tracker)
      ]

  end-directions : (tracker : GestureTracker D) → (gesture_tracker_end tracker).0.directions < 256
  unfolding gesture_tracker_end
  end-directions tracker = ground arith

  end-fields :
      (tracker : GestureTracker D)
      → tracker.type ≢ type_none
      → let (g, ended) = gesture_tracker_end tracker in
        (g.type ≡ tracker.type) × (g.fingers ≡ tracker.fingers) × (ended.type ≡ type_none)
  unfolding gesture_tracker_end
  end-fields tracker h = ground arith

  -- Ending a tracked gesture of one to nine fingers gives a gesture of the tracker's type and fingers,
  -- which `gesture_parse` reads back from its text, and leaves the tracker without a gesture.
  pub gesture_tracker_end_lem :
      (tracker : GestureTracker D)
      → tracker.type ≢ type_none
      → 0 < tracker.fingers
      → tracker.fingers < 10
      → let (g, ended) = gesture_tracker_end tracker in
        (gesture_parse (gesture_to_string g) ≡ (none, g))
        × (g.type ≡ tracker.type)
        × (g.fingers ≡ tracker.fingers)
        × (ended.type ≡ type_none)
  gesture_tracker_end_lem tracker h positive few =
      let g = (gesture_tracker_end tracker).0 in
      let (type, fingers, ended) = end-fields tracker h in
      (
        gesture_parse-gesture_to_string g (λ e. h (sym type ∙ e)) (omega (arith, fingers))
            (omega (arith, fingers)) (end-directions tracker),
        type,
        fingers,
        ended,
      )

  count-move :
      (far right low : Bool)
      → gesture_directions_count (
          if far
          then if right then bit_or 0 8 else bit_or 0 4
          else if low
          then bit_or 0 2
          else bit_or 0 1)
        ≡ 1
  unfolding gesture_directions_count
  count-move true true low = refl
  count-move true false low = refl
  count-move false right true = refl
  count-move false right false = refl

  -- Ending a swipe gives exactly one direction.
  pub gesture_directions_count-gesture_tracker_end :
      (tracker : GestureTracker D)
      → tracker.type ≡ type_swipe
      → gesture_directions_count (gesture_tracker_end tracker).0.directions ≡ 1
  unfolding gesture_tracker_end
  gesture_directions_count-gesture_tracker_end tracker e =
      rw (e, gesture_tracker_end)
        (count-move (less (fabs tracker.dy) (fabs tracker.dx)) (less zero_float tracker.dx)
          (less zero_float tracker.dy))
