-- ===== src/Common/ArrayList/Sort/Cells.antt =====
-- Reads and writes of cells in the middle of a buffer, and what list_rotate and list_swap of
-- common/list.c do to the cells between their indices.
use swirl.Prelude.{
  ℕ, zero, suc, ◌+◌, ◌-◌, ◌≡◌, refl, sym, ap, ◌∙◌, arith, List, [], ◌∷◌, ◌++◌, inl, inr, ◌⊎◌,
  List-cases, length, get_or, set, length-append, append_assoc,
}
use swirl.Common.ArrayList.Sort.{rotate_loop, list_rotate, swap_cells}

module _ {A : Type 0} where
  pub get_or_middle :
      (i : ℕ) (pre : List A) (x : A) (post : List A) (junk : A)
      → i ≡ length pre
      → get_or (pre ++ x ∷ post) i junk ≡ x
  get_or_middle zero [] x post junk e = refl
  get_or_middle zero (p ∷ pre) x post junk e = absurd (omega arith)
  get_or_middle (suc i) [] x post junk e = absurd (omega arith)
  get_or_middle (suc i) (p ∷ pre) x post junk e = get_or_middle i pre x post junk (omega arith)

  pub set_middle :
      (i : ℕ) (pre : List A) (x v : A) (post : List A)
      → i ≡ length pre
      → set (pre ++ x ∷ post) i v ≡ pre ++ v ∷ post
  set_middle zero [] x v post e = refl
  set_middle zero (p ∷ pre) x v post e = absurd (omega arith)
  set_middle (suc i) [] x v post e = absurd (omega arith)
  set_middle (suc i) (p ∷ pre) x v post e =
      ap (λ t. p ∷ t) (set_middle i pre x v post (omega arith))

  pub set_after :
      (i : ℕ) (pre : List A) (y x v : A) (post : List A)
      → i ≡ length pre + 1
      → set (pre ++ y ∷ x ∷ post) i v ≡ pre ++ y ∷ v ∷ post
  set_after zero pre y x v post e = absurd (omega arith)
  set_after (suc i) [] y x v post e = let z : i ≡ 0 = omega arith in rw z refl
  set_after (suc i) (p ∷ pre) y x v post e =
      ap (λ t. p ∷ t) (set_after i pre y x v post (omega arith))

  pub last_cases : (xs : List A) → (xs ≡ []) ⊎ ((ys : List A) × (z : A) × (xs ≡ ys ++ z ∷ []))
  last_cases [] = inl refl
  last_cases (x ∷ xs) = elim (last_cases xs) [
    | inl e ↦ inr ([], x, ap (λ t. x ∷ t) e)
    | inr (ys, z, e) ↦ inr (x ∷ ys, z, ap (λ t. x ∷ t) e)
  ]

  module _ (junk : A) where
    rotate_loop_lem :
        (n to : ℕ) (pre xs : List A) (v w : A) (post : List A)
        → length xs ≡ n
        → to ≡ length pre + n
        → set (rotate_loop junk n to (pre ++ (xs ++ w ∷ post))) (length pre) v
          ≡ pre ++ v ∷ (xs ++ post)
    unfolding rotate_loop
    rotate_loop_lem zero to pre xs v w post e k = elim (List-cases xs) [
      | inl none_left ↦ rw none_left (set_middle (length pre) pre w v post refl)
      | inr (x, rest, some_left) ↦
          absurd (let bad : length (x ∷ rest) ≡ 0 = rw some_left at e in omega arith)
    ]
    rotate_loop_lem (suc n) to pre xs v w post e k = elim (last_cases xs) [
      | inl none_left ↦ absurd (let bad : 0 ≡ suc n = rw none_left at e in omega arith)
      | inr (ys, z, same) ↦
          (let fewer : length ys ≡ n = omega (arith, length-append ys (z ∷ []), ap length same) in
            let split : pre ++ (xs ++ w ∷ post) ≡ (pre ++ ys) ++ z ∷ w ∷ post = rw same (
              ap (λ t. pre ++ t) (append_assoc ys (z ∷ []) (w ∷ post))
              ∙ sym (append_assoc pre ys (z ∷ w ∷ post))) in
            let back : to - 1 ≡ length pre + n = omega arith in
            let at_z : to - 1 ≡ length (pre ++ ys) = omega (arith, length-append pre ys) in
            let read : get_or (pre ++ (xs ++ w ∷ post)) (to - 1) junk ≡ z =
              rw split (get_or_middle (to - 1) (pre ++ ys) z (w ∷ post) junk at_z) in
            let written : set (pre ++ (xs ++ w ∷ post)) to z ≡ pre ++ (ys ++ z ∷ z ∷ post) =
              rw split (
                set_after to (pre ++ ys) z w z post (omega (arith, length-append pre ys))
                ∙ append_assoc pre ys (z ∷ z ∷ post)) in
            rw (read, written)
              (rotate_loop_lem n (to - 1) pre ys v z (z ∷ post) fewer back
                ∙ ap (λ t. pre ++ v ∷ t)
                    (sym (ap (λ t. t ++ post) same ∙ append_assoc ys (z ∷ []) post))))
    ]

    -- `list_rotate` moves the item at its second index in front of those from the first index on.
    pub list_rotate_lem :
        (from to : ℕ) (pre xs : List A) (w : A) (post : List A)
        → from ≡ length pre
        → to ≡ length pre + length xs
        → list_rotate junk (pre ++ (xs ++ w ∷ post)) from to ≡ pre ++ w ∷ (xs ++ post)
    unfolding list_rotate
    list_rotate_lem from to pre xs w post e k =
        let rounds : to - from ≡ length xs = omega arith in
        let read : get_or (pre ++ (xs ++ w ∷ post)) to junk ≡ w =
          ap (λ t. get_or t to junk) (sym (append_assoc pre xs (w ∷ post)))
          ∙ get_or_middle to (pre ++ xs) w post junk (omega (arith, length-append pre xs)) in
        rw (rounds, read, e) (rotate_loop_lem (length xs) to pre xs w w post refl k)

    pub swap_cells_lem :
        (first last : ℕ) (pre : List A) (x y : A) (post : List A)
        → first ≡ length pre
        → last ≡ length pre + 1
        → swap_cells junk (pre ++ x ∷ y ∷ post) first last ≡ pre ++ y ∷ x ∷ post
    swap_cells_lem first last pre x y post e k =
        let read_x = get_or_middle first pre x (y ∷ post) junk e in
        let read_y : get_or (pre ++ x ∷ y ∷ post) last junk ≡ y =
          ap (λ t. get_or t last junk) (sym (append_assoc pre (x ∷ []) (y ∷ post)))
          ∙ get_or_middle last (pre ++ x ∷ []) y post junk
              (omega (arith, length-append pre (x ∷ []))) in
        rw (read_x, read_y, set_middle first pre x y (y ∷ post) e) (set_after last pre y y x post k)
