-- ===== src/Input/Binding.antt =====
-- Key bindings: `struct sway_binding` of include/sway/config.h, the search for the binding to execute
-- (get_active_binding of sway/input/keyboard.c), and the table of bindings
-- (binding_key_compare, binding_upsert and binding_remove of sway/commands/bind.c).
pub mod Choice
pub mod Executable
pub mod Table
use Prim.Native.Nat.{bit_and}
use Prim.Native.String.{String}
use text.Mathlib.Text.{◌==◌ as str_eq}
use swirl.Prelude.{
  ℕ, zero, suc, ◌+◌, ◌-◌, ◌^◌, ◌==◌, ltb, Bool, true, false, not, ◌&&◌, ◌||◌, Option, none, some,
  List, [], ◌∷◌, ◌++◌, if◌then◌else◌, same_bool, get_or, length,
}
use swirl.Input.Shortcut.{ShortcutState}

-- `enum binding_input_type`
pub data BindingType : Type 0 where
  binding_keycode binding_keysym binding_mousecode binding_mousesym binding_switch binding_gesture :
      BindingType

-- `struct sway_binding`, with its address; `keys` ascend.
pub record Binding : Type 0 where
  pub addr : ℕ
  pub type : BindingType
  pub order : ℕ
  pub input : String
  pub flags : ℕ
  pub keys : List ℕ
  pub modifiers : ℕ
  pub group : ℕ
  pub command : String

-- `enum binding_flags`
abbrev pub flag_release : ℕ
flag_release = 1

abbrev pub flag_locked : ℕ
flag_locked = 2

abbrev pub flag_inhibited : ℕ
flag_inhibited = 128

-- XKB_LAYOUT_INVALID, the largest `uint32_t`
abbrev pub layout_invalid : ℕ
layout_invalid = 2 ^ 32 - 1

-- `(flags & flag) != 0`
pub has_flag : ℕ → ℕ → Bool
has_flag flags flag = not (bit_and flags flag == 0)

-- A `bool` as an `int`.
abbrev pub bool_int : Bool → ℕ
bool_int b = if b then 1 else 0

-- `a > b` of two values of type `bool`.
abbrev pub exceeds : Bool → Bool → Bool
exceeds a b = a && not b

-- What `get_active_binding` is asked for, besides the state and the table.
pub record Query : Type 0 where
  pub modifiers : ℕ
  pub release : Bool
  pub locked : Bool
  pub inhibited : Bool
  pub input : String
  pub exact_input : Bool
  pub group : ℕ

-- The negation of the first test of the loop. `a ^ b` is zero for equal numbers only.
pub is_eligible : Query → Binding → Bool
unfolding has_flag
is_eligible q b =
    q.modifiers == b.modifiers
    && same_bool q.release (has_flag b.flags flag_release)
    && not (exceeds q.locked (has_flag b.flags flag_locked))
    && not (exceeds q.inhibited (has_flag b.flags flag_inhibited))
    && (b.group == layout_invalid || b.group == q.group)
    && (str_eq b.input q.input || str_eq b.input "*" && not q.exact_input)

-- The comparison loop, from the index `j` on.
abbrev pub same_keys : List ℕ → ℕ → List ℕ → Bool
same_keys [] j pressed_keys = true
same_keys (key ∷ keys) j pressed_keys =
    key == get_or pressed_keys j 0 && same_keys keys (j + 1) pressed_keys

-- `match`
pub keys_match : ShortcutState → Binding → Bool
keys_match st b =
    if st.npressed == length b.keys
    then same_keys b.keys 0 st.pressed_keys
    else if length b.keys == 1
    then st.current_key == get_or b.keys 0 0
    else false

-- Whether the loop keeps the binding `c` that it has found when it meets the matching binding `b`.
pub keeps : Query → Binding → Binding → Bool
unfolding has_flag
keeps q c b =
    let current_locked = has_flag c.flags flag_locked in
    let current_inhibited = has_flag c.flags flag_inhibited in
    let current_input = str_eq c.input q.input in
    let current_group_set = not (c.group == layout_invalid) in
    let binding_locked = has_flag b.flags flag_locked in
    let binding_inhibited = has_flag b.flags flag_inhibited in
    let binding_input = str_eq b.input q.input in
    let binding_group_set = not (b.group == layout_invalid) in
    c.addr == b.addr
    || same_bool current_input binding_input
      && same_bool current_locked binding_locked
      && same_bool current_inhibited binding_inhibited
      && same_bool current_group_set binding_group_set
    || current_input && not binding_input
    || same_bool current_input binding_input && c.group == q.group
    || same_bool current_input binding_input
      && same_bool current_group_set binding_group_set
      && same_bool current_locked q.locked
    || same_bool current_input binding_input
      && same_bool current_group_set binding_group_set
      && same_bool current_locked binding_locked
      && same_bool current_inhibited q.inhibited

-- The test that ends the search; it compares the masked flags with the integers 0 and 1.
pub is_perfect : Query → Binding → Bool
is_perfect q b =
    str_eq b.input q.input
    && bit_and b.flags flag_locked == bool_int q.locked
    && bit_and b.flags flag_inhibited == bool_int q.inhibited
    && b.group == q.group

-- Whether `binding` takes the place of the binding found before it.
abbrev pub takes_over : Query → Option Binding → Binding → Bool
takes_over q none b = true
takes_over q (some c) b = not (keeps q c b)

-- `get_active_binding`, from the value of `*current_binding`.
unfoldable pub get_active_binding :
    ShortcutState → Query → List Binding → Option Binding → Option Binding
unfolding is_eligible keys_match keeps is_perfect
get_active_binding st q [] current = current
get_active_binding st q (b ∷ bindings) current =
    let next = if takes_over q current b then some b else current in
    let skip = get_active_binding st q bindings current in
    let go_on = get_active_binding st q bindings next in
    if is_eligible q b && keys_match st b
    then if takes_over q current b && is_perfect q b then some b else go_on
    else skip

-- The flags that tell bindings of the same keys apart.
abbrev pub conflict_generating_flags : ℕ
conflict_generating_flags = 159

abbrev type_index : BindingType → ℕ
type_index binding_keycode = 0
type_index binding_keysym = 1
type_index binding_mousecode = 2
type_index binding_mousesym = 3
type_index binding_switch = 4
type_index binding_gesture = 5

abbrev pub equal_keys : List ℕ → List ℕ → Bool
equal_keys [] [] = true
equal_keys [] (y ∷ ys) = false
equal_keys (x ∷ xs) [] = false
equal_keys (x ∷ xs) (y ∷ ys) = x == y && equal_keys xs ys

-- `binding_key_compare`; lists of different lengths differ.
unfoldable pub binding_key_compare : Binding → Binding → Bool
binding_key_compare a b =
    str_eq a.input b.input
    && type_index a.type == type_index b.type
    && bit_and a.flags conflict_generating_flags == bit_and b.flags conflict_generating_flags
    && a.group == b.group
    && a.modifiers == b.modifiers
    && equal_keys a.keys b.keys

-- `binding_upsert`: the table, and the binding that was replaced.
pub binding_upsert : Binding → List Binding → List Binding × Option Binding
unfolding binding_key_compare
binding_upsert binding [] = (binding ∷ [], none)
binding_upsert binding (c ∷ rest) =
    let (rest', old) = binding_upsert binding rest in
    if binding_key_compare binding c then (binding ∷ rest, some c) else (c ∷ rest', old)

-- `binding_remove`: the table, and whether a binding was removed (CMD_SUCCESS).
pub binding_remove : Binding → List Binding → List Binding × Bool
unfolding binding_key_compare
binding_remove binding [] = ([], false)
binding_remove binding (c ∷ rest) =
    let (rest', removed) = binding_remove binding rest in
    if binding_key_compare binding c then (rest, true) else (c ∷ rest', removed)
