-- ===== src/Input/Shortcut/Order.antt =====
-- The order of the pressed keys of sway/input/keyboard.c, on which the search for a binding relies.
use swirl.Prelude.{
  ℕ, ◌≤◌, ◌==◌, ◌≡◌, refl, ap, ◌∙◌, arith, Bool, true, false, not, ◌&&◌, List, [], ◌∷◌,
  if◌then◌else◌, ltb, inl, inr, Bool-cases,
}
use swirl.Input.Shortcut.{
  ShortcutState, state_erase_key, state_add_key, update_shortcut_state, pressed_keys_cap,
}
use swirl.Input.Shortcut.Arrays.{without, has_code}
use swirl.Input.Shortcut.Pressed.{
  IsValid, pressed, insert_pair, state_erase_key_lem, state_add_key_lem,
}

-- Every key is `k` or more.
abbrev pub FromKey : ℕ → List (ℕ × ℕ) → Type 0
FromKey k [] = Unit
FromKey k ((x, c) ∷ ps) = (k ≤ x) × FromKey k ps

abbrev pub Ascending : List (ℕ × ℕ) → Type 0
Ascending [] = Unit
Ascending ((x, c) ∷ ps) = FromKey x ps × Ascending ps

FromKey-trans : (k l : ℕ) (ps : List (ℕ × ℕ)) → k ≤ l → FromKey l ps → FromKey k ps
FromKey-trans k l [] h v = tt
FromKey-trans k l ((x, c) ∷ ps) h v = (omega arith, FromKey-trans k l ps h v.1)

FromKey-insert :
    (m k c : ℕ) (ps : List (ℕ × ℕ)) → m ≤ k → FromKey m ps → FromKey m (insert_pair k c ps)
FromKey-insert m k c [] h v = (h, tt)
FromKey-insert m k c ((x, d) ∷ ps) h v = ground (arith, FromKey-insert m k c ps)

insert_pair-Ascending :
    (k c : ℕ) (ps : List (ℕ × ℕ)) → Ascending ps → Ascending (insert_pair k c ps)
insert_pair-Ascending k c [] v = (tt, tt)
insert_pair-Ascending k c ((x, d) ∷ ps) (above, rest) = elim (Bool-cases (ltb x k)) [
  | inl t ↦ rw t (FromKey-insert x k c ps (ground arith) above, insert_pair-Ascending k c ps rest)
  | inr f ↦
      (let le : k ≤ x = ground arith in rw f ((le, FromKey-trans k x ps le above), (above, rest)))
]

FromKey-without : (m c : ℕ) (ps : List (ℕ × ℕ)) → FromKey m ps → FromKey m (without c ps)
FromKey-without m c [] v = tt
FromKey-without m c ((x, d) ∷ ps) v = ground (arith, FromKey-without m c ps)

without-Ascending : (c : ℕ) (ps : List (ℕ × ℕ)) → Ascending ps → Ascending (without c ps)
without-Ascending c [] v = tt
without-Ascending c ((x, d) ∷ ps) (above, rest) = elim (Bool-cases (d == c)) [
  | inl t ↦ rw t (without-Ascending c ps rest)
  | inr f ↦ rw f (FromKey-without x c ps above, without-Ascending c ps rest)
]

-- The state is valid and its pressed keys ascend.
abbrev pub IsOrdered : ShortcutState → Type 0
IsOrdered st = IsValid st × Ascending (pressed st)

erase-IsOrdered :
    (st : ShortcutState) (keycode : ℕ) → IsOrdered st → IsOrdered (state_erase_key st keycode).0
erase-IsOrdered st keycode (v, a) =
    let (v', e, found) = state_erase_key_lem st keycode v in
    (v', rw e (without-Ascending keycode (pressed st) a))

add-IsOrdered :
    (st : ShortcutState) (keycode key_id : ℕ)
    → IsOrdered st
    → IsOrdered (state_add_key st keycode key_id)
add-IsOrdered st keycode key_id (v, a) =
    let (v', e) = state_add_key_lem st keycode key_id v in
    (v', rw e (choose (ltb st.npressed pressed_keys_cap)))
  where
    choose :
        (b : Bool) → Ascending (if b then insert_pair key_id keycode (pressed st) else pressed st)
    choose true = insert_pair-Ascending key_id keycode (pressed st) a
    choose false = a

-- A key event as `update_shortcut_state` receives it.
pub record KeyEvent : Type 0 where
  pub keycode : ℕ
  pub pressed : Bool
  pub key : ℕ
  pub raw_modifiers : ℕ

pub run_keys : List KeyEvent → ShortcutState → ShortcutState
run_keys [] st = st
run_keys (e ∷ es) st =
    run_keys es (update_shortcut_state st e.keycode e.pressed e.key e.raw_modifiers).0

-- `update_shortcut_state` after the removal of a modifier that was pressed before.
update_rest : ShortcutState → ℕ → Bool → ℕ → ShortcutState × Bool
update_rest st keycode pressed new_key =
    if pressed
    then (record (state_add_key st keycode new_key) { last_keycode = keycode }, false)
    else state_erase_key st keycode

update_rest-IsOrdered :
    (st : ShortcutState) (keycode : ℕ) (pressed : Bool) (new_key : ℕ)
    → IsOrdered st
    → IsOrdered (update_rest st keycode pressed new_key).0
unfolding update_rest
update_rest-IsOrdered st keycode true new_key v =
    let (v', a) = add-IsOrdered st keycode new_key v in
    (record { keys_cells = v'.keys_cells; codes_cells = v'.codes_cells; fits = v'.fits }, a)
update_rest-IsOrdered st keycode false new_key v = erase-IsOrdered st keycode v

-- `update_shortcut_state` keeps the pressed keys in ascending order and within their arrays.
pub update-IsOrdered :
    (st : ShortcutState) (keycode : ℕ) (pressed : Bool) (new_key raw_modifiers : ℕ)
    → IsOrdered st
    → IsOrdered (update_shortcut_state st keycode pressed new_key raw_modifiers).0
unfolding update_shortcut_state update_rest
update-IsOrdered st keycode pressed new_key raw_modifiers v =
    update_rest-IsOrdered (if test then (state_erase_key st1 st1.last_keycode).0 else st1) keycode
      pressed new_key (choose test)
  where
    st1 : ShortcutState
    st1 = record st { last_raw_modifiers = raw_modifiers }

    test : Bool
    test = not (raw_modifiers == st.last_raw_modifiers) && not (st.last_keycode == 0)

    same : IsOrdered st1
    same = (
      record { keys_cells = v.0.keys_cells; codes_cells = v.0.codes_cells; fits = v.0.fits },
      v.1,
    )

    choose : (b : Bool) → IsOrdered (if b then (state_erase_key st1 st1.last_keycode).0 else st1)
    choose true = erase-IsOrdered st1 st1.last_keycode same
    choose false = same

-- After any sequence of key events from a valid and ordered state, at most 32 keys are pressed,
-- inside their arrays, in ascending order.
pub run_keys-IsOrdered :
    (es : List KeyEvent) (st : ShortcutState) → IsOrdered st → IsOrdered (run_keys es st)
unfolding run_keys
run_keys-IsOrdered [] st v = v
run_keys-IsOrdered (e ∷ es) st v =
    run_keys-IsOrdered es _ (update-IsOrdered st e.keycode e.pressed e.key e.raw_modifiers v)

without-absent : (c : ℕ) (ps : List (ℕ × ℕ)) → has_code c ps ≡ false → without c ps ≡ ps
without-absent c [] h = refl
without-absent c ((x, d) ∷ ps) h = ground (arith, without-absent c ps)

without-insert_pair : (k c : ℕ) (ps : List (ℕ × ℕ)) → without c (insert_pair k c ps) ≡ without c ps
without-insert_pair k c [] = ground arith
without-insert_pair k c ((x, d) ∷ ps) = ground (arith, without-insert_pair k c ps)

-- In a valid state, adding a key whose keycode was not pressed and erasing that keycode gives back
-- the pressed keys.
pub erase-add :
    (st : ShortcutState) (keycode key_id : ℕ)
    → IsValid st
    → has_code keycode (pressed st) ≡ false
    → pressed (state_erase_key (state_add_key st keycode key_id) keycode).0 ≡ pressed st
erase-add st keycode key_id v h =
    let (v', e) = state_add_key_lem st keycode key_id v in
    (state_erase_key_lem (state_add_key st keycode key_id) keycode v').1
    ∙ ap (without keycode) e
    ∙ choose (ltb st.npressed pressed_keys_cap)
  where
    choose :
        (b : Bool)
        → without keycode (if b then insert_pair key_id keycode (pressed st) else pressed st)
          ≡ pressed st
    choose true =
        without-insert_pair key_id keycode (pressed st) ∙ without-absent keycode (pressed st) h
    choose false = without-absent keycode (pressed st) h
