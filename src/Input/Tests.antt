-- ===== src/Input/Tests.antt =====
-- Tests of the input models, and the theorems at concrete inputs.
use swirl.Prelude.{
  ◌≡◌, refl, arith, true, false, ◌&&◌, none, some, List, [], ◌∷◌, if◌then◌else◌, inl, inr,
  replicate, is_some,
}
use swirl.Input.Shortcut.{ShortcutState, state_erase_key, state_add_key}
use swirl.Input.Shortcut.Pressed.{IsValid, pressed, state_erase_key_lem, state_add_key_lem}
use swirl.Input.Shortcut.Order.{IsOrdered, KeyEvent, run_keys, run_keys-IsOrdered, erase-add}
use swirl.Input.Binding.{
  Binding, binding_keysym, Query, get_active_binding, binding_key_compare, binding_upsert,
  binding_remove,
}
use swirl.Input.Binding.Choice.{
  In, is_candidate, get_active_binding_sound, get_active_binding_complete, get_active_binding-input,
}
use swirl.Input.Binding.Executable.{IsExecutable, candidate_sound}
use swirl.Input.Binding.Table.{
  bound, Unique, bound-binding_upsert, bound-binding_remove, operations-Unique,
}
use text.Mathlib.Text.{◌==◌ as str_eq}

-- The keys 30 and 40 are pressed, from the keycodes 3 and 4.
abbrev two_keys : ShortcutState
two_keys = record {
  pressed_keys = 30 ∷ 40 ∷ replicate 30 0;
  pressed_keycodes = 3 ∷ 4 ∷ replicate 30 0;
  last_keycode = 4;
  last_raw_modifiers = 0;
  npressed = 2;
  current_key = 40;
}

two_keys-IsValid : IsValid two_keys
two_keys-IsValid = omega arith

added : pressed (state_add_key two_keys 5 35) ≡ (30, 3) ∷ (35, 5) ∷ (40, 4) ∷ []
unfolding state_add_key
added = refl

erased : pressed (state_erase_key two_keys 3).0 ≡ (40, 4) ∷ []
unfolding state_erase_key
erased = refl

state_erase_key_lem_example :
    let (st, found) = state_erase_key two_keys 3 in
    IsValid st × (pressed st ≡ (40, 4) ∷ []) × (found ≡ true)
state_erase_key_lem_example = state_erase_key_lem two_keys 3 two_keys-IsValid

state_add_key_lem_example :
    IsValid (state_add_key two_keys 5 35)
    × (pressed (state_add_key two_keys 5 35) ≡ (30, 3) ∷ (35, 5) ∷ (40, 4) ∷ [])
state_add_key_lem_example = state_add_key_lem two_keys 5 35 two_keys-IsValid

abbrev keys_history : List KeyEvent
keys_history =
    record { keycode = 5; pressed = true; key = 35; raw_modifiers = 0 }
    ∷ record { keycode = 3; pressed = false; key = 30; raw_modifiers = 1 }
    ∷ []

run_keys-IsOrdered_example : IsOrdered (run_keys keys_history two_keys)
run_keys-IsOrdered_example =
    run_keys-IsOrdered keys_history two_keys (two_keys-IsValid, omega arith)

erase-add_example :
    pressed (state_erase_key (state_add_key two_keys 5 35) 5).0 ≡ (30, 3) ∷ (40, 4) ∷ []
erase-add_example = erase-add two_keys 5 35 two_keys-IsValid refl

abbrev any_device : Binding
any_device = record {
  addr = 100;
  type = binding_keysym;
  order = 0;
  input = "*";
  flags = 0;
  keys = 30 ∷ 40 ∷ [];
  modifiers = 64;
  group = 0;
  command = "kill";
}

abbrev one_device : Binding
one_device = record any_device { addr = 200; order = 1; input = "pad"; command = "reload" }

abbrev table : List Binding
table = any_device ∷ one_device ∷ []

abbrev query : Query
query = record {
  modifiers = 64;
  release = false;
  locked = false;
  inhibited = false;
  input = "pad";
  exact_input = false;
  group = 0;
}

chosen : get_active_binding two_keys query table none ≡ some one_device
unfolding get_active_binding
chosen = refl

sound_example : In one_device table × IsExecutable two_keys query one_device
sound_example = get_active_binding_sound two_keys query table one_device chosen

first_candidate : is_candidate two_keys query any_device ≡ true
unfolding get_active_binding
first_candidate = refl

second_candidate : (is_candidate two_keys query one_device && str_eq one_device.input "pad") ≡ true
unfolding get_active_binding
second_candidate = refl

any_device-IsExecutable : IsExecutable two_keys query any_device
any_device-IsExecutable = record {
  modifiers = refl;
  released = λ e. absurd (cc e);
  pressed = λ e. refl;
  locked = λ e. absurd (cc e);
  inhibited = λ e. absurd (cc e);
  group = inr refl;
  input = inr (refl, refl);
  keys = (candidate_sound two_keys query any_device first_candidate).keys;
}

complete_example : (c : Binding) × (get_active_binding two_keys query table none ≡ some c)
complete_example =
    get_active_binding_complete two_keys query table any_device (inl refl) any_device-IsExecutable

input_example : str_eq one_device.input "pad" ≡ true
input_example =
    get_active_binding-input two_keys query table one_device (omega arith)
      (inr (inl second_candidate)) chosen

abbrev replacement : Binding
replacement = record one_device { addr = 300; command = "exit" }

bound-binding_upsert_example :
    (bound one_device (binding_upsert replacement table).0 ≡ (
      if binding_key_compare one_device replacement
      then some replacement
      else bound one_device table))
    × ((binding_upsert replacement table).1 ≡ bound replacement table)
bound-binding_upsert_example = bound-binding_upsert one_device replacement table

different : binding_key_compare any_device one_device ≡ false
unfolding binding_key_compare
different = refl

table-Unique : Unique table
unfolding binding_key_compare
table-Unique = (refl, (refl, tt))

bound-binding_remove_example :
    (bound any_device (binding_remove one_device table).0
      ≡ (if binding_key_compare any_device one_device then none else bound any_device table))
    × ((binding_remove one_device table).1 ≡ is_some (bound one_device table))
bound-binding_remove_example = bound-binding_remove any_device one_device table table-Unique

operations-Unique_example :
    Unique (binding_upsert replacement table).0 × Unique (binding_remove replacement table).0
operations-Unique_example = operations-Unique replacement table table-Unique
