-- ===== src/Common/ArrayList/Sort/Reference.antt =====
-- What a stable sort is: insertion, and the merge of two lists, for the sort of common/list.c.
use swirl.Prelude.{
  ◌≡◌, refl, ap, ◌∙◌, Bool, true, false, List, [], ◌∷◌, ◌++◌, if◌then◌else◌, inl, inr, Bool-cases,
}

module _ {A : Type 0} (le : A → A → Bool) where
  -- The comparison is a total preorder.
  pub record IsOrder : Type 0 where
    pub total : (a b : A) → le a b ≡ false → le b a ≡ true
    pub transitive : (a b c : A) → le a b ≡ true → le b c ≡ true → le a c ≡ true

  -- An item goes before the first one that is not less.
  abbrev pub insert : A → List A → List A
  insert x [] = x ∷ []
  insert x (y ∷ ys) = if le x y then x ∷ y ∷ ys else y ∷ insert x ys

  -- Insertion sort: items that are equal in the order keep their order.
  abbrev pub insertion_sort : List A → List A
  insertion_sort [] = []
  insertion_sort (x ∷ xs) = insert x (insertion_sort xs)

  -- The merge of two lists, the items of the first before equal ones of the second.
  abbrev pub merge : List A → List A → List A
  merge [] ys = ys
  merge (x ∷ xs) [] = x ∷ xs
  merge (x ∷ xs) (y ∷ ys) = if le x y then x ∷ merge xs (y ∷ ys) else y ∷ merge (x ∷ xs) ys

  pub merge_nil : (xs : List A) → merge xs [] ≡ xs
  merge_nil [] = refl
  merge_nil (x ∷ xs) = refl

  module _ (o : IsOrder) where
    -- An item inserted into the first list goes before equal items of the second.
    merge-insert : (x : A) (xs ys : List A) → merge (insert x xs) ys ≡ insert x (merge xs ys)
    merge-insert x [] [] = refl
    merge-insert x [] (y ∷ ys) = elim (Bool-cases (le x y)) [
      | inl e ↦ rw e refl
      | inr e ↦ rw e (ap (λ t. y ∷ t) (merge-insert x [] ys))
    ]
    merge-insert x (s ∷ xs) [] = merge_nil (insert x (s ∷ xs))
    merge-insert x (s ∷ xs) (y ∷ ys) = elim (Bool-cases (le x s)) [
      | inl xs≤ ↦ elim (Bool-cases (le x y)) [
        | inl e ↦ elim (Bool-cases (le s y)) [
          | inl f ↦ rw (xs≤, e, f, xs≤) refl
          | inr f ↦ rw (xs≤, e, f, e) refl
        ]
        | inr e ↦ elim (Bool-cases (le s y)) [
          | inl f ↦ absurd (let t = o.transitive x s y xs≤ f in cc)
          | inr f ↦ rw (xs≤, e, f, e) (ap (λ t. y ∷ t) (rw xs≤ at (merge-insert x (s ∷ xs) ys)))
        ]
      ]
      | inr xs> ↦ elim (Bool-cases (le s y)) [
        | inl f ↦ rw (xs>, f, xs>) (ap (λ t. s ∷ t) (merge-insert x xs (y ∷ ys)))
        | inr f ↦ elim (Bool-cases (le x y)) [
          | inl e ↦ absurd (let t = o.transitive x y s e (o.total s y f) in cc)
          | inr e ↦ rw (xs>, f, e) (ap (λ t. y ∷ t) (rw xs> at (merge-insert x (s ∷ xs) ys)))
        ]
      ]
    ]

    -- Merging two sorted parts sorts the whole.
    pub merge-insertion_sort :
        (xs ys : List A) → merge (insertion_sort xs) (insertion_sort ys) ≡ insertion_sort (xs ++ ys)
    merge-insertion_sort [] ys = refl
    merge-insertion_sort (x ∷ xs) ys =
        merge-insert x (insertion_sort xs) (insertion_sort ys)
        ∙ ap (insert x) (merge-insertion_sort xs ys)

    -- No item is greater than the next one.
    abbrev pub IsSorted : List A → Type 0
    IsSorted [] = Unit
    IsSorted (x ∷ []) = Unit
    IsSorted (x ∷ y ∷ xs) = (le x y ≡ true) × IsSorted (y ∷ xs)

    insert-IsSorted : (x : A) (xs : List A) → IsSorted xs → IsSorted (insert x xs)
    insert-IsSorted x [] h = tt
    insert-IsSorted x (y ∷ []) h = elim (Bool-cases (le x y)) [
      | inl e ↦ rw e (e, tt)
      | inr e ↦ rw e (o.total x y e, tt)
    ]
    insert-IsSorted x (y ∷ z ∷ xs) h = elim (Bool-cases (le x y)) [
      | inl e ↦ rw e (e, h)
      | inr e ↦ elim (Bool-cases (le x z)) [
        | inl f ↦ rw (e, f) (o.total x y e, (f, h.1))
        | inr f ↦ rw (e, f) (h.0, rw f at (insert-IsSorted x (z ∷ xs) h.1))
      ]
    ]

    pub insertion_sort-IsSorted : (xs : List A) → IsSorted (insertion_sort xs)
    insertion_sort-IsSorted [] = tt
    insertion_sort-IsSorted (x ∷ xs) =
        insert-IsSorted x (insertion_sort xs) (insertion_sort-IsSorted xs)

    tail-IsSorted : (z : A) (xs : List A) → IsSorted (z ∷ xs) → IsSorted xs
    tail-IsSorted z [] h = tt
    tail-IsSorted z (x ∷ xs) h = h.1

    first_le :
        (z : A) (xs : List A) (x y : A)
        → IsSorted (z ∷ (xs ++ x ∷ []))
        → le x y ≡ true
        → le z y ≡ true
    first_le z [] x y h e = o.transitive z x y h.0 e
    first_le z (w ∷ xs) x y h e = o.transitive z w y h.0 (first_le w xs x y h.1 e)

    -- If the last item of the first part is not greater than the first of the second, the parts are
    -- merged already.
    pub merge-append :
        (xs : List A) (x y : A) (ys : List A)
        → IsSorted (xs ++ x ∷ [])
        → le x y ≡ true
        → merge (xs ++ x ∷ []) (y ∷ ys) ≡ (xs ++ x ∷ []) ++ y ∷ ys
    merge-append [] x y ys h e = rw e refl
    merge-append (z ∷ xs) x y ys h e =
        rw (first_le z xs x y h e)
          (ap (λ t. z ∷ t) (merge-append xs x y ys (tail-IsSorted z (xs ++ x ∷ []) h) e))
