-- ===== src/Input/Shortcut/Shift.antt =====
-- The insertion of a cell by the second loop of state_add_key in sway/input/keyboard.c.
use mathlib.Core.List.{append-nil, append_assoc}
use swirl.Prelude.{
  ℕ, zero, suc, ◌+◌, ◌-◌, ◌≤◌, ◌<◌, ◌≡◌, refl, ap, ◌∙◌, arith, List, [], ◌∷◌, ◌++◌, get_or, set,
  take, drop, length, length-set,
}
use swirl.Prelude.Moves.{take-suc, take-set_le}
use swirl.Input.Shortcut.{shift_loop}

get_or-set_lt : (i j : ℕ) (xs : List ℕ) (v : ℕ) → i < j → get_or (set xs i v) j 0 ≡ get_or xs j 0
get_or-set_lt i j [] v h = refl
get_or-set_lt i zero (x ∷ xs) v h = absurd (omega arith)
get_or-set_lt zero (suc j) (x ∷ xs) v h = refl
get_or-set_lt (suc i) (suc j) (x ∷ xs) v h = get_or-set_lt i j xs v (omega arith)

get_or-set_self : (i : ℕ) (xs : List ℕ) (v : ℕ) → i < length xs → get_or (set xs i v) i 0 ≡ v
get_or-set_self i [] v h = absurd (omega arith)
get_or-set_self zero (x ∷ xs) v h = refl
get_or-set_self (suc i) (x ∷ xs) v h = get_or-set_self i xs v (omega arith)

get_or-drop_at : (i r n : ℕ) (xs : List ℕ) → i + r ≡ n → get_or (drop i xs) r 0 ≡ get_or xs n 0
get_or-drop_at zero r n xs h = let e : r ≡ n = omega arith in rw e
get_or-drop_at (suc i) r n [] h = refl
get_or-drop_at (suc i) r zero (x ∷ xs) h = absurd (omega arith)
get_or-drop_at (suc i) r (suc n) (x ∷ xs) h = get_or-drop_at i r n xs (omega arith)

pub length-shift_loop : (r n : ℕ) (cells : List ℕ) → length (shift_loop r n cells) ≡ length cells
unfolding shift_loop
length-shift_loop zero n cells = refl
length-shift_loop (suc r) n cells =
    length-shift_loop r (n - 1) (set cells n (get_or cells (n - 1) 0)) ∙ length-set cells n _

-- A cell above those that are shifted stays.
get_or-shift_loop :
    (r m n : ℕ) (cells : List ℕ) → m < n → get_or (shift_loop r m cells) n 0 ≡ get_or cells n 0
unfolding shift_loop
get_or-shift_loop zero m n cells h = refl
get_or-shift_loop (suc r) m n cells h =
    get_or-shift_loop r (m - 1) n (set cells m (get_or cells (m - 1) 0)) (omega arith)
    ∙ get_or-set_lt m n cells (get_or cells (m - 1) 0) h

take-drop-set :
    (r i j : ℕ) (xs : List ℕ) (v : ℕ)
    → i + r ≤ j
    → take r (drop i (set xs j v)) ≡ take r (drop i xs)
take-drop-set r zero j xs v h = take-set_le r j xs v (omega arith)
take-drop-set r (suc i) j [] v h = refl
take-drop-set r (suc i) zero (x ∷ xs) v h = absurd (omega arith)
take-drop-set r (suc i) (suc j) (x ∷ xs) v h = take-drop-set r i j xs v (omega arith)

length-drop_lt : (i : ℕ) (xs : List ℕ) (r : ℕ) → i + r < length xs → r < length (drop i xs)
length-drop_lt zero xs r h = omega arith
length-drop_lt (suc i) [] r h = absurd (omega arith)
length-drop_lt (suc i) (x ∷ xs) r h = length-drop_lt i xs r (omega arith)

-- The cells up to `n` after the loop: those up to `i`, then the `r` cells from `i` on.
take-shift_loop :
    (r i n : ℕ) (cells : List ℕ)
    → i + r ≡ n
    → n < length cells
    → take (suc n) (shift_loop r n cells) ≡ take (suc i) cells ++ take r (drop i cells)
unfolding shift_loop
take-shift_loop zero i n cells h lt = let e : i ≡ n = omega arith in rw (e, append-nil)
take-shift_loop (suc r) i zero cells h lt = absurd (omega arith)
take-shift_loop (suc r) i (suc n) cells h lt =
    let v = get_or cells n 0 in
    let cells' = set cells (suc n) v in
    let back : suc n - 1 ≡ n = omega arith in
    let shifted = shift_loop r n cells' in
    let here : get_or shifted (suc n) 0 ≡ v =
      get_or-shift_loop r n (suc n) cells' (omega arith) ∙ get_or-set_self (suc n) cells v lt in
    let size : length shifted ≡ length cells =
      length-shift_loop r n cells' ∙ length-set cells (suc n) v in
    rw back (
      take-suc (suc n) shifted 0 (omega (arith, size))
      ∙ rw
          (
            here,
            take-shift_loop r i n cells' (omega arith) (omega (arith, length-set cells (suc n) v)),
            take-set_le (suc i) (suc n) cells v (omega arith),
            take-drop-set r i (suc n) cells v (omega arith),
            take-suc r (drop i cells) 0 (length-drop_lt i cells r (omega arith)),
            get_or-drop_at i r n cells (omega arith),
          )
          (append_assoc (take (suc i) cells) (take r (drop i cells)) (v ∷ [])))

take-set_in : (i n : ℕ) (xs : List ℕ) (x : ℕ) → i < n → take n (set xs i x) ≡ set (take n xs) i x
take-set_in i zero xs x h = absurd (omega arith)
take-set_in i (suc n) [] x h = refl
take-set_in zero (suc n) (y ∷ ys) x h = refl
take-set_in (suc i) (suc n) (y ∷ ys) x h = ap (λ t. y ∷ t) (take-set_in i n ys x (omega arith))

set-take-suc :
    (i : ℕ) (xs ts : List ℕ) (x : ℕ)
    → i < length xs
    → set (take (suc i) xs ++ ts) i x ≡ take i xs ++ x ∷ ts
set-take-suc i [] ts x h = absurd (omega arith)
set-take-suc zero (y ∷ ys) ts x h = refl
set-take-suc (suc i) (y ∷ ys) ts x h = ap (λ t. y ∷ t) (set-take-suc i ys ts x (omega arith))

drop-take : (i r n : ℕ) (xs : List ℕ) → i + r ≡ n → take r (drop i xs) ≡ drop i (take n xs)
drop-take zero r n xs h = let e : r ≡ n = omega arith in rw e
drop-take (suc i) r zero xs h = absurd (omega arith)
drop-take (suc i) zero (suc n) [] h = refl
drop-take (suc i) (suc r) (suc n) [] h = refl
drop-take (suc i) r (suc n) (x ∷ xs) h = drop-take i r n xs (omega arith)

take-take_lt : (i n : ℕ) (xs : List ℕ) → i ≤ n → take i (take n xs) ≡ take i xs
take-take_lt zero n xs h = refl
take-take_lt (suc i) zero xs h = absurd (omega arith)
take-take_lt (suc i) (suc n) [] h = refl
take-take_lt (suc i) (suc n) (x ∷ xs) h = ap (λ t. x ∷ t) (take-take_lt i n xs (omega arith))

-- Shifting the cells from `i` up to `n` and writing the cell `i` inserts a value.
pub take-set-shift_loop :
    (i n : ℕ) (cells : List ℕ) (x : ℕ)
    → i ≤ n
    → n < length cells
    → take (suc n) (set (shift_loop (n - i) n cells) i x)
      ≡ take i (take n cells) ++ x ∷ drop i (take n cells)
take-set-shift_loop i n cells x h lt = rw (
  take-set_in i (suc n) (shift_loop (n - i) n cells) x (omega arith),
  take-shift_loop (n - i) i n cells (omega arith) lt,
  set-take-suc i cells (take (n - i) (drop i cells)) x (omega arith),
  drop-take i (n - i) n cells (omega arith),
  take-take_lt i n cells h,
)
