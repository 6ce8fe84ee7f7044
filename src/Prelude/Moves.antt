-- ===== src/Prelude/Moves.antt =====
-- Moves of cells in a buffer, as `memmove` and assignments make them.
use Prim.Native.Nat.{ℕ, zero, suc, ◌+◌, ◌-◌, ◌≤◌, ◌<◌}
use Prim.Native.Nat.add
use mathlib.Core.Path.{◌≡◌, refl, sym, ap, ◌∙◌}
use mathlib.Core.List.{List, [], ◌∷◌, ◌++◌}
use native.Mathlib.Numerals.{add-one}
use native.Mathlib.Omega.{arith}
use swirl.Prelude.Lists.{length, get_or, set, take, drop, length-append, length-take, length-drop}

-- `memmove(&items[dst], &items[src], n * sizeof(void *))`
abbrev pub memmove : {A : Type 0} → ℕ → ℕ → ℕ → List A → List A
memmove dst src n items = take dst items ++ (take n (drop src items) ++ drop (dst + n) items)

module _ {A : Type 0} where
  pub take-append_le : (n : ℕ) (xs ys : List A) → n ≤ length xs → take n (xs ++ ys) ≡ take n xs
  take-append_le zero xs ys h = refl
  take-append_le (suc n) [] ys h = absurd (omega arith)
  take-append_le (suc n) (x ∷ xs) ys h = ap (λ t. x ∷ t) (take-append_le n xs ys (omega arith))

  pub drop-append_le :
      (n : ℕ) (xs ys : List A) → n ≤ length xs → drop n (xs ++ ys) ≡ drop n xs ++ ys
  drop-append_le zero xs ys h = refl
  drop-append_le (suc n) [] ys h = absurd (omega arith)
  drop-append_le (suc n) (x ∷ xs) ys h = drop-append_le n xs ys (omega arith)

  pub take-set_end :
      (n : ℕ) (xs : List A) (x : A)
      → n < length xs
      → take (suc n) (set xs n x) ≡ take n xs ++ (x ∷ [])
  take-set_end zero [] x h = absurd (omega arith)
  take-set_end zero (y ∷ ys) x h = refl
  take-set_end (suc n) [] x h = absurd (omega arith)
  take-set_end (suc n) (y ∷ ys) x h = ap (λ t. y ∷ t) (take-set_end n ys x (omega arith))

  pub take-take_le : (n : ℕ) (xs : List A) → take n (take n xs) ≡ take n xs
  take-take_le zero xs = refl
  take-take_le (suc n) [] = refl
  take-take_le (suc n) (x ∷ xs) = ap (λ t. x ∷ t) (take-take_le n xs)

  pub take-take_append :
      (n : ℕ) (xs ys : List A) → n ≤ length xs → take n (take n xs ++ ys) ≡ take n xs
  take-take_append n xs ys h =
      take-append_le n (take n xs) ys (omega (arith, length-take n xs)) ∙ take-take_le n xs

  -- Moving the cells from `i` on up by one and writing the cell `i` inserts an item.
  pub take-insert :
      (i n : ℕ) (xs : List A) (x : A)
      → i ≤ n
      → n < length xs
      → take (suc n) (set (memmove (suc i) i (n - i) xs) i x)
        ≡ take i (take n xs) ++ x ∷ drop i (take n xs)
  take-insert zero n [] x h k = absurd (omega arith)
  take-insert zero n (y ∷ ys) x h k =
      let e : n - 0 ≡ n = omega arith in
      rw e (ap (λ t. x ∷ t) (take-take_append n (y ∷ ys) _ (omega arith)))
  take-insert (suc i) zero xs x h k = absurd (omega arith)
  take-insert (suc i) (suc n) [] x h k = absurd (omega arith)
  take-insert (suc i) (suc n) (y ∷ ys) x h k =
      let e : suc n - suc i ≡ n - i = omega arith in
      rw (e, add.suc) (ap (λ t. y ∷ t) (take-insert i n ys x (omega arith) (omega arith)))

  -- Moving the cells past `i` down by one removes an item.
  pub take-delete :
      (i n : ℕ) (xs : List A)
      → i ≤ n
      → n < length xs
      → take n (memmove i (suc i) (n - i) xs)
        ≡ take i (take (suc n) xs) ++ drop (suc i) (take (suc n) xs)
  take-delete zero n [] h k = absurd (omega arith)
  take-delete zero n (y ∷ ys) h k =
      let e : n - 0 ≡ n = omega arith in rw e (take-take_append n ys _ (omega arith))
  take-delete (suc i) zero xs h k = absurd (omega arith)
  take-delete (suc i) (suc n) [] h k = absurd (omega arith)
  take-delete (suc i) (suc n) (y ∷ ys) h k =
      let e : suc n - suc i ≡ n - i = omega arith in
      rw (e, add.suc) (ap (λ t. y ∷ t) (take-delete i n ys (omega arith) (omega arith)))

  -- With the length before the deletion.
  pub take-delete_one :
      (i n m : ℕ) (xs : List A)
      → m ≡ suc n
      → i < m
      → m ≤ length xs
      → take (m - 1) (memmove i (i + 1) (m - 1 - i) xs)
        ≡ take i (take m xs) ++ drop (i + 1) (take m xs)
  take-delete_one i n m xs e h k =
      let back : suc n - 1 ≡ n = omega arith in
      rw (e, back, add-one i) (take-delete i n xs (omega arith) (omega arith))

  pub length-memmove :
      (dst src n : ℕ) (xs : List A)
      → dst + n ≤ length xs
      → src + n ≤ length xs
      → length (memmove dst src n xs) ≡ length xs
  length-memmove dst src n xs h k = omega (
    arith,
    length-append (take dst xs) (take n (drop src xs) ++ drop (dst + n) xs),
    length-append (take n (drop src xs)) (drop (dst + n) xs),
    length-take dst xs,
    length-take n (drop src xs),
    length-drop src xs,
    length-drop (dst + n) xs,
  )

  pub drop-set_lt : (i j : ℕ) (xs : List A) (x : A) → i < j → drop j (set xs i x) ≡ drop j xs
  drop-set_lt i zero xs x h = absurd (omega arith)
  drop-set_lt i (suc j) [] x h = refl
  drop-set_lt zero (suc j) (y ∷ ys) x h = refl
  drop-set_lt (suc i) (suc j) (y ∷ ys) x h = drop-set_lt i j ys x (omega arith)

  pub take-set_self : (i : ℕ) (xs : List A) (x : A) → take i (set xs i x) ≡ take i xs
  take-set_self zero xs x = refl
  take-set_self (suc i) [] x = refl
  take-set_self (suc i) (y ∷ ys) x = ap (λ t. y ∷ t) (take-set_self i ys x)

  pub take-set_le : (i j : ℕ) (xs : List A) (x : A) → i ≤ j → take i (set xs j x) ≡ take i xs
  take-set_le zero j xs x h = refl
  take-set_le (suc i) j [] x h = refl
  take-set_le (suc i) zero (y ∷ ys) x h = absurd (omega arith)
  take-set_le (suc i) (suc j) (y ∷ ys) x h = ap (λ t. y ∷ t) (take-set_le i j ys x (omega arith))

  pub take-suc :
      (i : ℕ) (xs : List A) (d : A)
      → i < length xs
      → take (suc i) xs ≡ take i xs ++ get_or xs i d ∷ []
  take-suc i [] d h = absurd (omega arith)
  take-suc zero (y ∷ ys) d h = refl
  take-suc (suc i) (y ∷ ys) d h = ap (λ t. y ∷ t) (take-suc i ys d (omega arith))

  get_or_of_drop : (i : ℕ) (xs : List A) (d : A) → get_or xs i d ≡ get_or (drop i xs) 0 d
  get_or_of_drop zero [] d = refl
  get_or_of_drop (suc i) [] d = refl
  get_or_of_drop zero (y ∷ ys) d = refl
  get_or_of_drop (suc i) (y ∷ ys) d = get_or_of_drop i ys d

  pub get_or-drop :
      (i : ℕ) (xs ys : List A) (d : A) → drop i xs ≡ drop i ys → get_or xs i d ≡ get_or ys i d
  get_or-drop i xs ys d e =
      get_or_of_drop i xs d ∙ ap (λ t. get_or t 0 d) e ∙ sym (get_or_of_drop i ys d)
