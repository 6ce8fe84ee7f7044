-- ===== src/Input/Shortcut/Arrays.antt =====
-- What the loops of state_erase_key and state_add_key in sway/input/keyboard.c do to the arrays.
use native.Mathlib.Numerals.{add-one}
use mathlib.Core.List.{append-nil}
use swirl.Prelude.{
  ℕ, zero, suc, ◌+◌, ◌-◌, ◌≤◌, ◌<◌, ◌==◌, ◌≡◌, refl, sym, ap, ◌∙◌, arith, Bool, true, false, ◌||◌,
  List, [], ◌∷◌, ◌++◌, if◌then◌else◌, ltb, get_or, set, take, drop, length, length-set, length-take,
  inl, inr, Bool-cases,
}
use swirl.Prelude.Moves.{
  take-set_end, take-set_self, drop-set_lt, take-suc, take-set_le, get_or-drop,
}
use swirl.Input.Shortcut.{Erasing, erase_round, erase_loop, clear_loop}

-- The keys with their keycodes.
abbrev pub pairs : List ℕ → List ℕ → List (ℕ × ℕ)
pairs [] codes = []
pairs (k ∷ keys) [] = []
pairs (k ∷ keys) (c ∷ codes) = (k, c) ∷ pairs keys codes

-- The pairs of the other keycodes.
abbrev pub without : ℕ → List (ℕ × ℕ) → List (ℕ × ℕ)
without keycode [] = []
without keycode ((k, c) ∷ ps) =
    if c == keycode then without keycode ps else (k, c) ∷ without keycode ps

-- Whether the keycode occurs.
abbrev pub has_code : ℕ → List (ℕ × ℕ) → Bool
has_code keycode [] = false
has_code keycode ((k, c) ∷ ps) = c == keycode || has_code keycode ps

-- After `i` rounds of the first loop of `state_erase_key` on the arrays `keys` and `codes`.
pub record Erased (keycode i : ℕ) (keys codes : List ℕ) (e : Erasing) : Type 0 where
  pub kept_le : e.kept ≤ i
  pub keys_length : length e.keys ≡ length keys
  pub codes_length : length e.codes ≡ length codes
  pub keys_rest : drop i e.keys ≡ drop i keys
  pub codes_rest : drop i e.codes ≡ drop i codes
  pub kept_pairs :
      pairs (take e.kept e.keys) (take e.kept e.codes)
      ≡ without keycode (pairs (take i keys) (take i codes))
  pub found_eq : e.found ≡ has_code keycode (pairs (take i keys) (take i codes))

pub pairs-append :
    (xs ys us vs : List ℕ)
    → length xs ≡ length us
    → pairs (xs ++ ys) (us ++ vs) ≡ pairs xs us ++ pairs ys vs
pairs-append [] ys [] vs h = refl
pairs-append [] ys (u ∷ us) vs h = absurd (omega arith)
pairs-append (x ∷ xs) ys [] vs h = absurd (omega arith)
pairs-append (x ∷ xs) ys (u ∷ us) vs h =
    ap (λ t. (x, u) ∷ t) (pairs-append xs ys us vs (omega arith))

without-append :
    (k : ℕ) (xs ys : List (ℕ × ℕ)) → without k (xs ++ ys) ≡ without k xs ++ without k ys
without-append k [] ys = refl
without-append k ((a, c) ∷ xs) ys = ground (arith, without-append k xs ys)

has_code-append :
    (k : ℕ) (xs ys : List (ℕ × ℕ)) → has_code k (xs ++ ys) ≡ (has_code k xs || has_code k ys)
has_code-append k [] ys = refl
has_code-append k ((a, c) ∷ xs) ys = ground (arith, has_code-append k xs ys)

drop-suc_eq : (i : ℕ) (xs : List ℕ) → drop (suc i) xs ≡ drop 1 (drop i xs)
drop-suc_eq zero xs = refl
drop-suc_eq (suc i) [] = refl
drop-suc_eq (suc i) (x ∷ xs) = drop-suc_eq i xs

drop-suc : (i : ℕ) (xs ys : List ℕ) → drop i xs ≡ drop i ys → drop (suc i) xs ≡ drop (suc i) ys
drop-suc i xs ys e = drop-suc_eq i xs ∙ ap (λ t. drop 1 t) e ∙ sym (drop-suc_eq i ys)

-- One array after a round: the cell `j`, if it stands before `i`, is the cell `i`.
moved : ℕ → ℕ → List ℕ → List ℕ
moved j i xs = if ltb j i then set xs j (get_or xs i 0) else xs

moved_lem :
    (j i : ℕ) (xs orig : List ℕ)
    → j ≤ i
    → i < length orig
    → length xs ≡ length orig
    → drop i xs ≡ drop i orig
    → (length (moved j i xs) ≡ length orig)
      × (drop (suc i) (moved j i xs) ≡ drop (suc i) orig)
      × (take j (moved j i xs) ≡ take j xs)
      × (take (suc j) (moved j i xs) ≡ take j xs ++ get_or orig i 0 ∷ [])
      × (get_or (moved j i xs) i 0 ≡ get_or orig i 0)
unfolding moved
moved_lem j i xs orig h lt len rest = elim (Bool-cases (ltb j i)) [
  | inl t ↦
      (let v = get_or xs i 0 in
        rw t (
          length-set xs j v ∙ len,
          drop-set_lt j (suc i) xs v (omega arith) ∙ drop-suc i xs orig rest,
          take-set_self j xs v,
          take-set_end j xs v (ground arith)
              ∙ ap (λ x. take j xs ++ x ∷ []) (get_or-drop i xs orig 0 rest),
          get_or-drop i (set xs j v) orig 0 (drop-set_lt j i xs v (ground arith) ∙ rest),
        ))
  | inr f ↦
      (let e : i ≡ j = ground arith in
        rw f (
          len,
          drop-suc i xs orig rest,
          refl,
          take-suc j xs 0 (omega arith)
              ∙ ap (λ x. take j xs ++ x ∷ [])
                  (ap (λ n. get_or xs n 0) (sym e) ∙ get_or-drop i xs orig 0 rest),
          get_or-drop i xs orig 0 rest,
        ))
]

or_true : (b : Bool) → (b || true) ≡ true
or_true b = ground arith

or_false : (b : Bool) → (b || false) ≡ b
or_false b = ground arith

split_eq :
    (keys codes : List ℕ) (i : ℕ)
    → i < length keys
    → length keys ≡ length codes
    → pairs (take (suc i) keys) (take (suc i) codes)
      ≡ pairs (take i keys) (take i codes) ++ (get_or keys i 0, get_or codes i 0) ∷ []
split_eq keys codes i lt same =
    rw (take-suc i keys 0 lt, take-suc i codes 0 (omega arith))
      (pairs-append (take i keys) (get_or keys i 0 ∷ []) (take i codes) (get_or codes i 0 ∷ [])
        (omega (arith, length-take i keys, length-take i codes)))

erase_round-Erased :
    (keycode i : ℕ) (keys codes : List ℕ) (e : Erasing)
    → length keys ≡ length codes
    → i < length keys
    → Erased keycode i keys codes e
    → Erased keycode (suc i) keys codes (erase_round keycode i e)
unfolding erase_round moved
erase_round-Erased keycode i keys codes e same lt v =
    let (kl, kr, kt, kn, kx) =
      moved_lem e.kept i e.keys keys v.kept_le lt v.keys_length v.keys_rest in
    let (cl, cr, ct, cn, cx) =
      moved_lem e.kept i e.codes codes v.kept_le (omega arith) v.codes_length v.codes_rest in
    let split : pairs (take (suc i) keys) (take (suc i) codes)
        ≡ pairs (take i keys) (take i codes) ++ (get_or keys i 0, get_or codes i 0) ∷ [] =
      split_eq keys codes i lt same in
    elim (Bool-cases (get_or codes i 0 == keycode)) [
      | inl t ↦
          rw (cx, t)
            (record {
              kept_le = omega (arith, v.kept_le);
              keys_length = kl;
              codes_length = cl;
              keys_rest = kr;
              codes_rest = cr;
              kept_pairs =
                  rw (kt, ct, split, without-append, t) (v.kept_pairs ∙ sym (append-nil _));
              found_eq =
                  rw (split, has_code-append, t)
                    (sym (or_true (has_code keycode (pairs (take i keys) (take i codes)))));
            })
      | inr f ↦
          rw (cx, f)
            (record {
              kept_le = omega (arith, v.kept_le);
              keys_length = kl;
              codes_length = cl;
              keys_rest = kr;
              codes_rest = cr;
              kept_pairs =
                  rw (add-one e.kept, kn, cn, split, without-append, f)
                    (pairs-append (take e.kept e.keys) _ (take e.kept e.codes) _
                        (omega (arith, length-take e.kept e.keys, length-take e.kept e.codes, v))
                      ∙ ap (λ t. t ++ (get_or keys i 0, get_or codes i 0) ∷ []) v.kept_pairs);
              found_eq =
                  rw (split, has_code-append, f)
                    (v.found_eq
                      ∙ sym (or_false (has_code keycode (pairs (take i keys) (take i codes)))));
            })
    ]

pub erase_loop-Erased :
    (keycode rounds i n : ℕ) (keys codes : List ℕ) (e : Erasing)
    → length keys ≡ length codes
    → i + rounds ≡ n
    → n ≤ length keys
    → Erased keycode i keys codes e
    → Erased keycode n keys codes (erase_loop keycode rounds i e)
unfolding erase_loop
erase_loop-Erased keycode zero i n keys codes e same h lt v =
    let h' : i ≡ n = omega arith in rw (← h') v
erase_loop-Erased keycode (suc rounds) i n keys codes e same h lt v = rw (add-one i) (
    erase_loop-Erased keycode rounds (suc i) n keys codes (erase_round keycode i e) same
      (omega arith) lt (erase_round-Erased keycode i keys codes e same (omega arith) v))

-- Clearing the cells from `j` up to `n` keeps those before `j`.
pub take-clear_loop :
    (rounds n j : ℕ) (cells : List ℕ)
    → j + rounds ≡ n
    → take j (clear_loop rounds n cells) ≡ take j cells
unfolding clear_loop
take-clear_loop zero n j cells h = refl
take-clear_loop (suc rounds) n j cells h =
    take-clear_loop rounds (n - 1) j (set cells (n - 1) 0) (omega arith)
    ∙ take-set_le j (n - 1) cells 0 (omega arith)

pub length-clear_loop :
    (rounds n : ℕ) (cells : List ℕ) → length (clear_loop rounds n cells) ≡ length cells
unfolding clear_loop
length-clear_loop zero n cells = refl
length-clear_loop (suc rounds) n cells =
    length-clear_loop rounds (n - 1) (set cells (n - 1) 0) ∙ length-set cells (n - 1) 0
