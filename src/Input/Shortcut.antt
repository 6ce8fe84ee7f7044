-- ===== src/Input/Shortcut.antt =====
-- The shortcut model of sway/input/keyboard.c: state_erase_key, state_add_key and
-- update_shortcut_state over `struct sway_shortcut_state`, whose two arrays have
-- SWAY_KEYBOARD_PRESSED_KEYS_CAP cells. Key ids, keycodes and masks are numbers.
pub mod Arrays
pub mod Shift
pub mod Pressed
pub mod Order
use swirl.Prelude.{
  ℕ, zero, suc, ◌+◌, ◌-◌, ◌==◌, ltb, leb, Bool, true, false, not, ◌&&◌, List, [], ◌∷◌,
  if◌then◌else◌, get_or, set,
}

-- SWAY_KEYBOARD_PRESSED_KEYS_CAP
abbrev pub pressed_keys_cap : ℕ
pressed_keys_cap = 32

-- `struct sway_shortcut_state`
pub record ShortcutState : Type 0 where
  pub pressed_keys : List ℕ
  pub pressed_keycodes : List ℕ
  pub last_keycode : ℕ
  pub last_raw_modifiers : ℕ
  pub npressed : ℕ
  pub current_key : ℕ

-- What the first loop of `state_erase_key` changes.
pub record Erasing : Type 0 where
  pub keys : List ℕ
  pub codes : List ℕ
  pub kept : ℕ
  pub found : Bool

-- The round at the index `i`, for `j = e.kept`.
pub erase_round : ℕ → ℕ → Erasing → Erasing
erase_round keycode i e =
    let keys = if ltb e.kept i then set e.keys e.kept (get_or e.keys i 0) else e.keys in
    let codes = if ltb e.kept i then set e.codes e.kept (get_or e.codes i 0) else e.codes in
    if get_or codes i 0 == keycode
    then record { keys = keys; codes = codes; kept = e.kept; found = true }
    else record { keys = keys; codes = codes; kept = e.kept + 1; found = e.found }

-- `rounds` rounds of that loop from the index `i` on.
pub erase_loop : ℕ → ℕ → ℕ → Erasing → Erasing
unfolding erase_round
erase_loop keycode zero i e = e
erase_loop keycode (suc rounds) i e = erase_loop keycode rounds (i + 1) (erase_round keycode i e)

-- `while (npressed > j) { --npressed; cells[npressed] = 0; }` for one of the arrays, with
-- `rounds = npressed - j`.
pub clear_loop : ℕ → ℕ → List ℕ → List ℕ
clear_loop zero n cells = cells
clear_loop (suc rounds) n cells = clear_loop rounds (n - 1) (set cells (n - 1) 0)

-- `state_erase_key`, with its result.
unfoldable pub state_erase_key : ShortcutState → ℕ → ShortcutState × Bool
unfolding erase_loop clear_loop
state_erase_key st keycode =
    let e =
      erase_loop keycode st.npressed 0
        (record { keys = st.pressed_keys; codes = st.pressed_keycodes; kept = 0; found = false }) in
    let rounds = st.npressed - e.kept in
    (
      record st {
        pressed_keys = clear_loop rounds st.npressed e.keys;
        pressed_keycodes = clear_loop rounds st.npressed e.codes;
        npressed = e.kept;
        current_key = 0;
      },
      e.found,
    )

-- `while (i < npressed && pressed_keys[i] < key_id) ++i;` over the keys from `i` on.
pub find_place : ℕ → ℕ → ℕ → List ℕ → ℕ
find_place key_id zero i keys = i
find_place key_id (suc rounds) i keys =
    let next = find_place key_id rounds (i + 1) keys in
    if ltb (get_or keys i 0) key_id then next else i

-- `while (j > i) { cells[j] = cells[j - 1]; --j; }` with `rounds = j - i`.
pub shift_loop : ℕ → ℕ → List ℕ → List ℕ
shift_loop zero j cells = cells
shift_loop (suc rounds) j cells = shift_loop rounds (j - 1) (set cells j (get_or cells (j - 1) 0))

-- `state_add_key`
unfoldable pub state_add_key : ShortcutState → ℕ → ℕ → ShortcutState
unfolding find_place shift_loop
state_add_key st keycode key_id =
    if leb pressed_keys_cap st.npressed
    then st
    else (let i = find_place key_id st.npressed 0 st.pressed_keys in
        record st {
          pressed_keys = set (shift_loop (st.npressed - i) st.npressed st.pressed_keys) i key_id;
          pressed_keycodes =
              set (shift_loop (st.npressed - i) st.npressed st.pressed_keycodes) i keycode;
          npressed = st.npressed + 1;
          current_key = key_id;
        })

-- `update_shortcut_state`; `pressed` says that `keystate` is WL_KEYBOARD_KEY_STATE_PRESSED.
pub update_shortcut_state : ShortcutState → ℕ → Bool → ℕ → ℕ → ShortcutState × Bool
unfolding state_erase_key state_add_key
update_shortcut_state st keycode pressed new_key raw_modifiers =
    let last_key_was_a_modifier = not (raw_modifiers == st.last_raw_modifiers) in
    let st1 : ShortcutState = record st { last_raw_modifiers = raw_modifiers } in
    let st2 =
      if last_key_was_a_modifier && not (st1.last_keycode == 0)
      then (state_erase_key st1 st1.last_keycode).0
      else st1 in
    if pressed
    then (record (state_add_key st2 keycode new_key) { last_keycode = keycode }, false)
    else state_erase_key st2 keycode
