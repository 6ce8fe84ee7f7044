-- ===== src/Common/ArrayList/Sort/Sorting.antt =====
-- list_stable_sort of common/list.c is insertion sort.
use swirl.Prelude.{
  ℕ, zero, suc, ◌+◌, ◌-◌, ◌/◌, ◌≤◌, ◌<◌, ◌≡◌, refl, sym, ap, ◌∙◌, arith, Bool, true, false, ◌==◌,
  leb, ltb, ltb→lt, List, [], ◌∷◌, ◌++◌, inl, inr, Bool-cases, length, get_or, length-append,
  append_assoc, take, drop, take-append-drop, length-take, take-append_all, length-drop,
}
use swirl.Common.ArrayList.{ListT, contents}
use swirl.Common.ArrayList.Contents.{IsValid, length-contents}
use swirl.Common.ArrayList.Sort.{list_inplace_sort, list_inplace_merge, list_stable_sort}
use swirl.Common.ArrayList.Sort.Reference.{
  insert, IsOrder, IsSorted, insertion_sort, merge-insertion_sort, insertion_sort-IsSorted,
}
use swirl.Common.ArrayList.Sort.Cells.{get_or_middle, swap_cells_lem}
use swirl.Common.ArrayList.Sort.Merge.{list_inplace_merge_lem}

module _ {A : Type 0} (junk : A) (le : A → A → Bool) (o : IsOrder le) where
  length-insert : (x : A) (xs : List A) → length (insert le x xs) ≡ length xs + 1
  length-insert x [] = omega arith
  length-insert x (y ∷ ys) = elim (Bool-cases (le x y)) [
    | inl t ↦ rw t (omega arith)
    | inr f ↦ rw f (omega (arith, length-insert x ys))
  ]

  length-insertion_sort : (xs : List A) → length (insertion_sort le xs) ≡ length xs
  length-insertion_sort [] = refl
  length-insertion_sort (x ∷ xs) =
      omega (arith, length-insert x (insertion_sort le xs), length-insertion_sort xs)

  -- If both halves are sorted one after the other, the merge sorts the whole.
  sort_halves :
      (sorted : ℕ → ℕ → List A → List A) (first mid last : ℕ) (pre xs ys post : List A)
      → first ≡ length pre
      → mid + 1 ≡ length pre + length xs
      → last + 1 ≡ length pre + length xs + length ys
      → first ≤ mid
      → mid + 1 ≤ last
      → sorted first mid (pre ++ (xs ++ (ys ++ post)))
        ≡ pre ++ (insertion_sort le xs ++ (ys ++ post))
      → sorted (mid + 1) last ((pre ++ insertion_sort le xs) ++ (ys ++ post))
        ≡ (pre ++ insertion_sort le xs) ++ (insertion_sort le ys ++ post)
      → list_inplace_merge junk le first last mid
          (sorted (mid + 1) last (sorted first mid (pre ++ (xs ++ (ys ++ post)))))
        ≡ pre ++ (insertion_sort le (xs ++ ys) ++ post)
  sort_halves sorted first mid last pre xs ys post a b d h k left right =
      let xs' = insertion_sort le xs in
      let ys' = insertion_sort le ys in
      let n = length-insertion_sort xs in
      let m = length-insertion_sort ys in
      let both : sorted (mid + 1) last (sorted first mid (pre ++ (xs ++ (ys ++ post))))
          ≡ pre ++ (xs' ++ (ys' ++ post)) =
        ap (sorted (mid + 1) last) (left ∙ sym (append_assoc pre xs' (ys ++ post)))
        ∙ right
        ∙ append_assoc pre xs' (ys' ++ post) in
      rw both (
        list_inplace_merge_lem junk le o first last mid pre xs' ys' post a (omega arith)
          (omega arith) h k (insertion_sort-IsSorted le o xs)
        ∙ ap (λ t. pre ++ (t ++ post)) (merge-insertion_sort le o xs ys))

  list_inplace_sort_lem :
      (rounds first last : ℕ) (pre xs post : List A)
      → first ≡ length pre
      → last + 1 ≡ length pre + length xs
      → length xs ≤ rounds
      → list_inplace_sort junk le rounds first last (pre ++ (xs ++ post))
        ≡ pre ++ (insertion_sort le xs ++ post)
  unfolding list_inplace_sort
  list_inplace_sort_lem zero first last pre [] post a b h = refl
  list_inplace_sort_lem zero first last pre (x ∷ xs) post a b h = absurd (omega arith)
  list_inplace_sort_lem (suc rounds) first last pre [] post a b h =
      let one : leb last first ≡ true = ground arith in rw (list_inplace_sort, one) refl
  list_inplace_sort_lem (suc rounds) first last pre (x ∷ []) post a b h =
      let one : leb last first ≡ true = ground arith in rw (list_inplace_sort, one) refl
  list_inplace_sort_lem (suc rounds) first last pre (x ∷ y ∷ []) post a b h =
      let more : leb last first ≡ false = ground arith in
      let two : (last - first == 1) ≡ true = ground arith in
      let read_x = get_or_middle first pre x (y ∷ post) junk a in
      let read_y : get_or (pre ++ x ∷ y ∷ post) last junk ≡ y =
        ap (λ t. get_or t last junk) (sym (append_assoc pre (x ∷ []) (y ∷ post)))
        ∙ get_or_middle last (pre ++ x ∷ []) y post junk
            (omega (arith, length-append pre (x ∷ []))) in
      elim (Bool-cases (le x y)) [
        | inl t ↦ rw (list_inplace_sort, more, two, read_x, read_y, t) refl
        | inr f ↦
            rw (list_inplace_sort, more, two, read_x, read_y, f)
              (swap_cells_lem junk first last pre x y post a (omega arith))
      ]
  list_inplace_sort_lem (suc rounds) first last pre (x ∷ y ∷ z ∷ xs) post a b h =
      let more : leb last first ≡ false = ground arith in
      let two : (last - first == 1) ≡ false = ground arith in
      let sorted = list_inplace_sort junk le rounds in
      let mid = (last + first) / 2 in
      let items = x ∷ y ∷ z ∷ xs in
      let front = take (mid + 1 - first) items in
      let back = drop (mid + 1 - first) items in
      let parts : front ++ back ≡ items = take-append-drop (mid + 1 - first) items in
      let whole : front ++ (back ++ post) ≡ items ++ post =
        sym (append_assoc front back post) ∙ ap (λ t. t ++ post) parts in
      let low : first ≤ mid = omega arith in
      let high : mid + 1 ≤ last = omega arith in
      let n = length-take (mid + 1 - first) items in
      let m = length-drop (mid + 1 - first) items in
      let l = length-append pre (insertion_sort le front) in
      let l' = length-insertion_sort front in
      rw (list_inplace_sort, more, two)
        (ap
            (λ t.
              list_inplace_merge junk le first last mid
                (sorted (mid + 1) last (sorted first mid (pre ++ t))))
            (sym whole)
          ∙ sort_halves sorted first mid last pre front back post a (omega arith) (omega arith)
              (omega arith) (omega arith)
              (list_inplace_sort_lem rounds first mid pre front (back ++ post) a (omega arith)
                (omega arith))
              (list_inplace_sort_lem rounds (mid + 1) last (pre ++ insertion_sort le front) back
                post (omega arith) (omega arith) (omega arith))
          ∙ ap (λ t. pre ++ (insertion_sort le t ++ post)) parts)

  short_sorted : (xs : List A) → length xs ≤ 1 → insertion_sort le xs ≡ xs
  short_sorted [] h = refl
  short_sorted (x ∷ []) h = refl
  short_sorted (x ∷ y ∷ xs) h = absurd (omega arith)

  list_inplace_sort_cells :
      (rounds : ℕ) (l : ListT A)
      → IsValid l
      → 1 < l.length
      → l.length ≤ rounds
      → list_inplace_sort junk le rounds 0 (l.length - 1) l.items
        ≡ insertion_sort le (contents l) ++ drop l.length l.items
  list_inplace_sort_cells rounds l v some enough =
      let n = length-contents l v in
      let parts = take-append-drop l.length l.items in
      ap (list_inplace_sort junk le rounds 0 (l.length - 1)) (sym parts)
      ∙ list_inplace_sort_lem rounds 0 (l.length - 1) [] (contents l) (drop l.length l.items) refl
          (omega arith) (omega arith)

  list_stable_sort_cells :
      (l : ListT A)
      → IsValid l
      → 1 < l.length
      → (list_stable_sort junk le l).items ≡ insertion_sort le (contents l) ++ drop l.length l.items
  unfolding list_stable_sort
  list_stable_sort_cells l v some =
      let many : ltb 1 l.length ≡ true = ground arith in
      rw (list_stable_sort, many) (list_inplace_sort_cells l.length l v some (omega arith))

  contents-list_stable_sort :
      (l : ListT A)
      → IsValid l
      → IsValid (list_stable_sort junk le l)
        × (contents (list_stable_sort junk le l) ≡ insertion_sort le (contents l))
  unfolding list_stable_sort
  contents-list_stable_sort l v =
      let n = length-contents l v in
      let rest = drop l.length l.items in
      let m = length-insertion_sort (contents l) in
      let parts : contents l ++ rest ≡ l.items = take-append-drop l.length l.items in
      elim (Bool-cases (ltb 1 l.length)) [
        | inr few ↦
            (let short : length (contents l) ≤ 1 = ground arith in
              rw few (v, sym (short_sorted (contents l) short)))
        | inl many ↦
            (let some : 1 < l.length = ltb→lt 1 l.length many in
              let cells = list_inplace_sort_cells l.length l v some (omega arith) in
              let size : length (insertion_sort le (contents l) ++ rest) ≡ length l.items = omega (
                arith,
                length-append (insertion_sort le (contents l)) rest,
                length-append (contents l) rest,
                ap length parts,
              ) in
              rw (many, cells)
                (
                  record { cells = size ∙ v.cells; fits = v.fits; positive = v.positive },
                  take-append_all l.length (insertion_sort le (contents l)) rest (omega arith),
                ))
      ]

  one_cell :
      (rounds last : ℕ) (items : List A)
      → last ≡ 0
      → list_inplace_sort junk le rounds 0 last items ≡ items
  unfolding list_inplace_sort
  one_cell zero last items h = refl
  one_cell (suc rounds) last items h =
      let one : leb last 0 ≡ true = ground arith in rw (list_inplace_sort, one) refl

  enough_rounds :
      (rounds : ℕ) (l : ListT A)
      → IsValid l
      → l.length ≤ rounds
      → list_inplace_sort junk le rounds 0 (l.length - 1) l.items
        ≡ (list_stable_sort junk le l).items
  unfolding list_stable_sort
  enough_rounds rounds l v enough = elim (Bool-cases (ltb 1 l.length)) [
    | inr few ↦ rw few (one_cell rounds (l.length - 1) l.items (ground arith))
    | inl many ↦
        (let some = ltb→lt 1 l.length many in
          list_inplace_sort_cells rounds l v some enough ∙ sym (list_stable_sort_cells l v some))
  ]

  -- For a comparison that is a total preorder, list_stable_sort keeps a valid list valid and leaves
  -- what insertion sort makes of its items, which puts an item before later ones that it is in order
  -- with; they ascend. As many nested calls as the list is long are enough: with any more allowed,
  -- the cells become the same.
  pub list_stable_sort_lem :
      (l : ListT A) (rounds : ℕ)
      → IsValid l
      → l.length ≤ rounds
      → IsValid (list_stable_sort junk le l)
        × (contents (list_stable_sort junk le l) ≡ insertion_sort le (contents l))
        × IsSorted le o (contents (list_stable_sort junk le l))
        × (list_inplace_sort junk le rounds 0 (l.length - 1) l.items
            ≡ (list_stable_sort junk le l).items)
  list_stable_sort_lem l rounds v enough =
      let (valid, same) = contents-list_stable_sort l v in
      (
        valid,
        same,
        rw same (insertion_sort-IsSorted le o (contents l)),
        enough_rounds rounds l v enough,
      )
