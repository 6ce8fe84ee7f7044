-- ===== src/Input/Binding/Executable.antt =====
-- When get_active_binding of sway/input/keyboard.c may choose a binding, field by field, and its
-- tests in these terms.
use Prim.Native.Nat.{bit_and}
use text.Mathlib.Text.{◌==◌ as str_eq}
use text.Mathlib.TextEquality.{eq_iff}
use swirl.Prelude.{
  ℕ, zero, suc, ◌+◌, ◌==◌, ==_iff, ◌≡◌, ◌≢◌, refl, ◌∙◌, ap, arith, true, false, not, ◌&&◌, ◌||◌,
  some, List, [], ◌∷◌, inl, inr, ◌⊎◌, Bool-cases, get_or, get_elem?, length,
}
use swirl.Input.Shortcut.{ShortcutState}
use swirl.Input.Binding.{
  Binding, Query, layout_invalid, has_flag, is_eligible, same_keys, keys_match,
}

-- All pressed keys, in their order, are those of the binding; or, of another number of pressed keys,
-- the last one is the only key of the binding.
abbrev pub ArePressed : ShortcutState → Binding → Type 0
ArePressed st b =
    ((st.npressed ≡ length b.keys)
      × ((i key : ℕ) → get_elem? b.keys i ≡ some key → get_or st.pressed_keys i 0 ≡ key))
    ⊎ ((st.npressed ≢ length b.keys) × (b.keys ≡ st.current_key ∷ []))

-- The binding may be executed: the modifiers are the same, it is a binding for a release if and only
-- if a key was released, it is for a locked screen if the screen is locked and for inhibited
-- shortcuts if they are inhibited, it is for the keyboard layout or for all, it is for the device or,
-- unless an exact one is asked for, for all devices, and its keys are pressed.
pub record IsExecutable (st : ShortcutState) (q : Query) (b : Binding) : Type 0 where
  pub modifiers : b.modifiers ≡ q.modifiers
  pub released : q.release ≡ true → bit_and b.flags 1 ≢ 0
  pub pressed : q.release ≡ false → bit_and b.flags 1 ≡ 0
  pub locked : q.locked ≡ true → bit_and b.flags 2 ≢ 0
  pub inhibited : q.inhibited ≡ true → bit_and b.flags 128 ≢ 0
  pub group : (b.group ≡ layout_invalid) ⊎ (b.group ≡ q.group)
  pub input : (b.input ≡ q.input) ⊎ ((b.input ≡ "*") × (q.exact_input ≡ false))
  pub keys : ArePressed st b

same_keys_sound :
    (keys : List ℕ) (j : ℕ) (ps : List ℕ)
    → same_keys keys j ps ≡ true
    → (i key : ℕ) → get_elem? keys i ≡ some key
    → get_or ps (j + i) 0 ≡ key
same_keys_sound [] j ps h i key e = absurd (cc e)
same_keys_sound (k ∷ keys) j ps h zero key e =
    let same : k ≡ key = cc in let at_j : j + 0 ≡ j = omega arith in rw at_j (ground (arith, same))
same_keys_sound (k ∷ keys) j ps h (suc i) key e =
    let at_i : j + suc i ≡ j + 1 + i = omega arith in
    rw at_i (same_keys_sound keys (j + 1) ps (ground arith) i key e)

same_keys_complete :
    (keys : List ℕ) (j : ℕ) (ps : List ℕ)
    → ((i key : ℕ) → get_elem? keys i ≡ some key → get_or ps (j + i) 0 ≡ key)
    → same_keys keys j ps ≡ true
same_keys_complete [] j ps h = refl
same_keys_complete (k ∷ keys) j ps h =
    let at_j : j + 0 ≡ j = omega arith in
    let first : get_or ps j 0 ≡ k = rw at_j at (h 0 k refl) in
    let same : (k == get_or ps j 0) ≡ true = rw first ((==_iff k k).1 refl) in
    rw same (
      same_keys_complete keys (j + 1) ps
        (λ i key e. ap (λ t. get_or ps t 0) (omega arith) ∙ h (suc i) key e))

one_key : (keys : List ℕ) → length keys ≡ 1 → keys ≡ get_or keys 0 0 ∷ []
one_key [] h = absurd (omega arith)
one_key (k ∷ []) h = refl
one_key (k ∷ l ∷ keys) h = absurd (omega arith)

keys_match-ArePressed :
    (st : ShortcutState) (b : Binding) → keys_match st b ≡ true → ArePressed st b
unfolding keys_match
keys_match-ArePressed st b h = elim (Bool-cases (st.npressed == length b.keys)) [
  | inl all ↦ inl (
    (==_iff st.npressed (length b.keys)).0 all,
    λ i key e.
        ap (λ t. get_or st.pressed_keys t 0) (omega arith)
        ∙ same_keys_sound b.keys 0 st.pressed_keys (ground arith) i key e,
  )
  | inr some_other ↦ inr (
    λ e. let all = (==_iff st.npressed (length b.keys)).1 e in cc,
    let one : length b.keys ≡ 1 = ground arith in
        let same : get_or b.keys 0 0 ≡ st.current_key = ground arith in
        one_key b.keys one ∙ ap (λ k. k ∷ []) same,
  )
]

ArePressed-keys_match :
    (st : ShortcutState) (b : Binding) → ArePressed st b → keys_match st b ≡ true
unfolding keys_match
ArePressed-keys_match st b (inl (n, all)) =
    let same = (==_iff st.npressed (length b.keys)).1 n in
    rw same (
      same_keys_complete b.keys 0 st.pressed_keys
        (λ i key e. ap (λ t. get_or st.pressed_keys t 0) (omega arith) ∙ all i key e))
ArePressed-keys_match st b (inr (n, e)) =
    let size : length b.keys ≡ 1 = ap length e in
    let key : get_or b.keys 0 0 ≡ st.current_key = ap (λ t. get_or t 0 0) e in ground arith

-- The tests of the loop hold of a binding if and only if it may be executed.
pub candidate_sound :
    (st : ShortcutState) (q : Query) (b : Binding)
    → (is_eligible q b && keys_match st b) ≡ true
    → IsExecutable st q b
unfolding is_eligible has_flag
candidate_sound st q b h =
    let same_input = eq_iff b.input q.input in
    let any_input = eq_iff b.input "*" in
    record {
      modifiers = ground arith;
      released = λ e. ground arith;
      pressed = λ e. ground arith;
      locked = λ e. ground arith;
      inhibited = λ e. ground arith;
      group = ground arith;
      input = elim (Bool-cases (str_eq b.input q.input)) [
        | inl t ↦ inl (same_input.0 t)
        | inr f ↦ inr (any_input.0 (ground arith), ground arith)
      ];
      keys = keys_match-ArePressed st b (ground arith);
    }

pub candidate_complete :
    (st : ShortcutState) (q : Query) (b : Binding)
    → IsExecutable st q b
    → (is_eligible q b && keys_match st b) ≡ true
unfolding is_eligible has_flag
candidate_complete st q b x =
    let keys = ArePressed-keys_match st b x.keys in
    let input : (str_eq b.input q.input || str_eq b.input "*" && not q.exact_input) ≡ true =
      elim (x.input) [
        | inl e ↦ (let t = (eq_iff b.input q.input).1 e in rw t refl)
        | inr (e, f) ↦ (let t = (eq_iff b.input "*").1 e in ground arith)
      ] in
    let a = x.modifiers in
    let c = x.released in
    let d = x.pressed in let e = x.locked in let f = x.inhibited in let g = x.group in ground arith
