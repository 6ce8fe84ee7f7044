-- ===== src/Input/Shortcut/Pressed.antt =====
-- The functions of the shortcut model in sway/input/keyboard.c on the list of the pressed keys.
use native.Mathlib.Numerals.{add-one}
use swirl.Prelude.{
  ℕ, zero, suc, ◌+◌, ◌-◌, ◌≤◌, ◌<◌, ◌≡◌, refl, ap, ◌∙◌, arith, true, false, List, [], ◌∷◌, ◌++◌,
  if◌then◌else◌, ltb, leb, get_or, take, drop, length, length-set, length-take, inl, inr,
  Bool-cases,
}
use swirl.Input.Shortcut.{
  ShortcutState, Erasing, erase_loop, shift_loop, find_place, state_erase_key, state_add_key,
  pressed_keys_cap,
}
use swirl.Input.Shortcut.Shift.{take-set-shift_loop, length-shift_loop}
use swirl.Input.Shortcut.Arrays.{
  pairs, without, has_code, Erased, erase_loop-Erased, take-clear_loop, length-clear_loop,
}

-- The arrays have all their cells, and no more keys are pressed than fit.
pub record IsValid (st : ShortcutState) : Type 0 where
  pub keys_cells : length st.pressed_keys ≡ pressed_keys_cap
  pub codes_cells : length st.pressed_keycodes ≡ pressed_keys_cap
  pub fits : st.npressed ≤ pressed_keys_cap

-- The pressed keys with their keycodes.
abbrev pub pressed : ShortcutState → List (ℕ × ℕ)
pressed st = pairs (take st.npressed st.pressed_keys) (take st.npressed st.pressed_keycodes)

-- From a valid state, `state_erase_key` takes exactly the entries of that keycode off the pressed
-- keys, says whether there was one, and leaves a valid state.
pub state_erase_key_lem :
    (st : ShortcutState) (keycode : ℕ)
    → IsValid st
    → let (st', found) = state_erase_key st keycode in
      IsValid st'
      × (pressed st' ≡ without keycode (pressed st))
      × (found ≡ has_code keycode (pressed st))
unfolding state_erase_key
state_erase_key_lem st keycode v =
    let e0 : Erasing = record {
      keys = st.pressed_keys;
      codes = st.pressed_keycodes;
      kept = 0;
      found = false;
    } in
    let e = erase_loop keycode st.npressed 0 e0 in
    let done : Erased keycode st.npressed st.pressed_keys st.pressed_keycodes e =
      erase_loop-Erased keycode st.npressed 0 st.npressed st.pressed_keys st.pressed_keycodes e0
        (omega (arith, v)) (omega arith) (omega (arith, v))
        (record {
          kept_le = omega arith;
          keys_length = refl;
          codes_length = refl;
          keys_rest = refl;
          codes_rest = refl;
          kept_pairs = refl;
          found_eq = refl;
        }) in
    let rounds : e.kept + (st.npressed - e.kept) ≡ st.npressed = omega (arith, done) in
    (
      record {
        keys_cells =
            length-clear_loop (st.npressed - e.kept) st.npressed e.keys
            ∙ done.keys_length
            ∙ v.keys_cells;
        codes_cells =
            length-clear_loop (st.npressed - e.kept) st.npressed e.codes
            ∙ done.codes_length
            ∙ v.codes_cells;
        fits = omega (arith, done, v);
      },
      rw
          (
            take-clear_loop (st.npressed - e.kept) st.npressed e.kept e.keys rounds,
            take-clear_loop (st.npressed - e.kept) st.npressed e.kept e.codes rounds,
          )
          done.kept_pairs,
      done.found_eq,
    )

-- The entry stands before the first pressed key that is not below it.
abbrev pub insert_pair : ℕ → ℕ → List (ℕ × ℕ) → List (ℕ × ℕ)
insert_pair k c [] = (k, c) ∷ []
insert_pair k c ((k', c') ∷ ps) =
    if ltb k' k then (k', c') ∷ insert_pair k c ps else (k, c) ∷ ((k', c') ∷ ps)

-- The index of the first key that is not below `k`.
abbrev place : ℕ → List ℕ → ℕ
place k [] = 0
place k (x ∷ xs) = if ltb x k then suc (place k xs) else 0

place-le : (k : ℕ) (xs : List ℕ) → place k xs ≤ length xs
place-le k [] = omega arith
place-le k (x ∷ xs) = ground (arith, place-le k xs)

drop-get_or : (i : ℕ) (xs : List ℕ) → i < length xs → drop i xs ≡ get_or xs i 0 ∷ drop (suc i) xs
drop-get_or i [] h = absurd (omega arith)
drop-get_or zero (x ∷ xs) h = refl
drop-get_or (suc i) (x ∷ xs) h = drop-get_or i xs (omega arith)

find_place-place :
    (k n i : ℕ) (keys : List ℕ)
    → i + n ≤ length keys
    → find_place k n i keys ≡ i + place k (take n (drop i keys))
unfolding find_place
find_place-place k zero i keys h = omega arith
find_place-place k (suc n) i keys h =
    rw (drop-get_or i keys (omega arith), add-one i)
      (ground (arith, find_place-place k n (suc i) keys))

pairs-insert :
    (k c : ℕ) (ks cs : List ℕ)
    → length ks ≡ length cs
    → pairs
        (take (place k ks) ks ++ k ∷ drop (place k ks) ks)
        (take (place k ks) cs ++ c ∷ drop (place k ks) cs)
      ≡ insert_pair k c (pairs ks cs)
pairs-insert k c [] [] h = refl
pairs-insert k c [] (y ∷ cs) h = absurd (omega arith)
pairs-insert k c (x ∷ ks) [] h = absurd (omega arith)
pairs-insert k c (x ∷ ks) (y ∷ cs) h = elim (Bool-cases (ltb x k)) [
  | inl t ↦ rw t (ap (λ p. (x, y) ∷ p) (pairs-insert k c ks cs (omega arith)))
  | inr f ↦ rw f refl
]

-- From a valid state, `state_add_key` inserts the key with its keycode before the first pressed key
-- that is not less, or changes nothing if the array is full, and leaves a valid state.
pub state_add_key_lem :
    (st : ShortcutState) (keycode key_id : ℕ)
    → IsValid st
    → IsValid (state_add_key st keycode key_id)
      × (pressed (state_add_key st keycode key_id) ≡ (
          if ltb st.npressed pressed_keys_cap
          then insert_pair key_id keycode (pressed st)
          else pressed st))
unfolding state_add_key
state_add_key_lem st keycode key_id v = elim (Bool-cases (ltb st.npressed pressed_keys_cap)) [
  | inr f ↦
      (let full : leb pressed_keys_cap st.npressed ≡ true = ground arith in rw (full, f) (v, refl))
  | inl t ↦
      (let room : leb pressed_keys_cap st.npressed ≡ false = ground arith in
        let n = st.npressed in
        let i = find_place key_id n 0 st.pressed_keys in
        let at_place : i ≡ place key_id (take n st.pressed_keys) =
          find_place-place key_id n 0 st.pressed_keys (omega (arith, v)) ∙ omega arith in
        let le : i ≤ n = omega (
          arith,
          at_place,
          place-le key_id (take n st.pressed_keys),
          length-take n st.pressed_keys,
        ) in
        rw (room, t)
          (
            record {
              keys_cells =
                  length-set (shift_loop (n - i) n st.pressed_keys) i key_id
                  ∙ length-shift_loop (n - i) n st.pressed_keys
                  ∙ v.keys_cells;
              codes_cells =
                  length-set (shift_loop (n - i) n st.pressed_keycodes) i keycode
                  ∙ length-shift_loop (n - i) n st.pressed_keycodes
                  ∙ v.codes_cells;
              fits = ground arith;
            },
            rw
                (
                  add-one n,
                  take-set-shift_loop i n st.pressed_keys key_id le (ground (arith, v)),
                  take-set-shift_loop i n st.pressed_keycodes keycode le (ground (arith, v)),
                  at_place,
                )
                (pairs-insert key_id keycode (take n st.pressed_keys) (take n st.pressed_keycodes) (
                  omega
                    (arith, length-take n st.pressed_keys, length-take n st.pressed_keycodes, v))),
          ))
]
