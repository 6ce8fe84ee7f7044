-- ===== src/Common/ArrayList/Search.antt =====
-- The searches of common/list.c, and list_move_to_end, which deletes what it finds.
use swirl.Prelude.{
  ℕ, suc, ◌+◌, ◌≤◌, ◌<◌, ◌==◌, ◌≡◌, refl, ◌∙◌, ap, arith, Bool, true, false, some, List, [], ◌∷◌,
  ◌++◌, length, get_elem?, take, drop, ltb, ltb→lt, ==_iff, Bool-cases, inl, inr, ◌⊎◌,
}
use swirl.Prelude.Int.{ℤ, pos, negsuc}
use swirl.Common.ArrayList.{
  ListT, contents, list_del, search_from, list_seq_find, index_from, list_move_to_end,
}
use swirl.Common.ArrayList.Contents.{IsValid, list_del_lem, list_add_lem, length-contents}

module _ {A : Type 0} where
  -- No item of the list passes the test.
  abbrev pub AllFail : (A → Bool) → List A → Type 0
  AllFail test [] = Unit
  AllFail test (x ∷ xs) = (test x ≡ false) × AllFail test xs

  -- The integer is the index, counted from `k`, of the first item that passes the test, or -1 if
  -- none does.
  abbrev pub FirstFrom : (A → Bool) → ℕ → List A → ℤ → Type 0
  FirstFrom test k xs (negsuc n) = (n ≡ 0) × AllFail test xs
  FirstFrom test k xs (pos i) =
      (j : ℕ) × (i ≡ k + j)
      × AllFail test (take j xs)
      × ((x : A) × (get_elem? xs j ≡ some x) × (test x ≡ true))

  FirstFrom-later :
      (test : A → Bool) (k : ℕ) (x : A) (xs : List A) (r : ℤ)
      → test x ≡ false
      → FirstFrom test (k + 1) xs r
      → FirstFrom test k (x ∷ xs) r
  FirstFrom-later test k x xs (negsuc n) f (e, all) = (e, (f, all))
  FirstFrom-later test k x xs (pos i) f (j, e, all, found) = (suc j, omega arith, (f, all), found)

  search_from-FirstFrom :
      (test : A → Bool) (k : ℕ) (xs : List A) → FirstFrom test k xs (search_from test k xs)
  unfolding search_from
  search_from-FirstFrom test k [] = (refl, tt)
  search_from-FirstFrom test k (x ∷ xs) = elim (Bool-cases (test x)) [
    | inl t ↦ rw (t, search_from) (0, omega arith, tt, (x, refl, t))
    | inr f ↦
        rw (f, search_from)
          (FirstFrom-later test k x xs (search_from test (k + 1) xs) f
            (search_from-FirstFrom test (k + 1) xs))
  ]

  -- `list_seq_find` returns the index of the first item that the comparison accepts, or -1 if it
  -- accepts none.
  pub list_seq_find-FirstFrom :
      (l : ListT A) (test : A → Bool) → FirstFrom test 0 (contents l) (list_seq_find l test)
  unfolding list_seq_find
  list_seq_find-FirstFrom l test = search_from-FirstFrom test 0 (contents l)

index_from_lem :
    (item k : ℕ) (xs : List ℕ)
    → (j : ℕ) × (index_from item k xs ≡ k + j)
      × (j ≤ length xs)
      × (j < length xs → get_elem? xs j ≡ some item)
      × (j ≡ length xs → AllFail (λ x. x == item) xs)
unfolding index_from
index_from_lem item k [] = (0, omega arith, omega arith, (λ h. absurd (omega arith)), (λ _. tt))
index_from_lem item k (x ∷ xs) = elim (Bool-cases (x == item)) [
  | inl t ↦
      rw (t, index_from)
        (
          0,
          omega arith,
          omega arith,
          (λ _. ap some ((==_iff x item).0 t)),
          (λ h. absurd (omega arith)),
        )
  | inr f ↦
      (let (j, e, h, at_j, all) = index_from_lem item (k + 1) xs in
        rw (f, index_from)
          (
            suc j,
            omega arith,
            omega arith,
            (λ g. at_j (omega arith)),
            (λ g. (refl, all (omega arith))),
          ))
]

-- `list_move_to_end` takes an item that occurs in a valid list out of one of its places and puts it
-- last; a list in which the item does not occur stays as it is.
pub list_move_to_end_lem :
    (junk : ℕ) (l : ListT ℕ) (item : ℕ)
    → IsValid l
    → ((j : ℕ) × (get_elem? (contents l) j ≡ some item)
        × (contents (list_move_to_end junk l item)
            ≡ (take j (contents l) ++ drop (j + 1) (contents l)) ++ item ∷ []))
      ⊎ (AllFail (λ x. x == item) (contents l) × (list_move_to_end junk l item ≡ l))
unfolding list_move_to_end
list_move_to_end_lem junk l item v =
    let (j, e, h, at_j, all) = index_from_lem item 0 (contents l) in
    let len = length-contents l v in
    let i : index_from item 0 (contents l) ≡ j = omega arith in
    elim (Bool-cases (ltb j l.length)) [
      | inl t ↦
          (let inside : j < l.length = ltb→lt j l.length t in
            let (valid, held) = list_del_lem l j v inside in
            inl (
              j,
              at_j (omega arith),
              rw (i, t)
                  ((list_add_lem junk (list_del l j) item valid).1 ∙ ap (λ c. c ++ item ∷ []) held),
            ))
      | inr f ↦ inr (all (ground arith), rw (i, f))
    ]
