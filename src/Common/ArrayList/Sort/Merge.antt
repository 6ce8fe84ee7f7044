-- ===== src/Common/ArrayList/Sort/Merge.antt =====
-- list_inplace_merge of common/list.c merges two adjacent runs of cells.
use swirl.Prelude.{
  ℕ, zero, suc, ◌+◌, ◌-◌, ◌≤◌, ◌≡◌, refl, sym, ap, ◌∙◌, arith, Bool, true, false, ◌&&◌, leb, List,
  [], ◌∷◌, ◌++◌, inl, inr, Bool-cases, length, get_or, length-append, append_assoc,
}
use swirl.Common.ArrayList.Sort.{merge_loop, list_inplace_merge, list_rotate}
use swirl.Common.ArrayList.Sort.Reference.{merge, IsOrder, IsSorted, merge-append}
use swirl.Common.ArrayList.Sort.Cells.{get_or_middle, list_rotate_lem, last_cases}

module _ {A : Type 0} (junk : A) (le : A → A → Bool) where
  merge_loop_lem :
      (rounds left mid right last : ℕ) (pre xs ys post : List A)
      → left ≡ length pre
      → mid + 1 ≡ length pre + length xs
      → right ≡ mid + 1
      → last + 1 ≡ length pre + length xs + length ys
      → length xs + length ys ≤ rounds
      → merge_loop junk le rounds left mid right last (pre ++ (xs ++ (ys ++ post)))
        ≡ pre ++ (merge le xs ys ++ post)
  unfolding merge_loop
  merge_loop_lem zero left mid right last pre [] [] post a b c d e = refl
  merge_loop_lem zero left mid right last pre (x ∷ xs) ys post a b c d e = absurd (omega arith)
  merge_loop_lem zero left mid right last pre [] (y ∷ ys) post a b c d e = absurd (omega arith)
  merge_loop_lem (suc rounds) left mid right last pre [] ys post a b c d e =
      let over : leb left mid ≡ false = ground arith in rw (merge_loop, over) refl
  merge_loop_lem (suc rounds) left mid right last pre (x ∷ xs) [] post a b c d e =
      let over : (leb left mid && leb right last) ≡ false = ground arith in
      rw (merge_loop, over) refl
  merge_loop_lem (suc rounds) left mid right last pre (x ∷ xs) (y ∷ ys) post a b c d e =
      let on : (leb left mid && leb right last) ≡ true = ground arith in
      let items = pre ++ ((x ∷ xs) ++ ((y ∷ ys) ++ post)) in
      let read_x : get_or items left junk ≡ x = get_or_middle left pre x _ junk a in
      let read_y : get_or items right junk ≡ y =
        ap (λ t. get_or t right junk) (sym (append_assoc pre (x ∷ xs) (y ∷ (ys ++ post))))
        ∙ get_or_middle right (pre ++ x ∷ xs) y (ys ++ post) junk
            (omega (arith, length-append pre (x ∷ xs))) in
      elim (Bool-cases (le x y)) [
        | inl t ↦
            (let more = length-append pre (x ∷ []) in
              rw
                (
                  merge_loop,
                  on,
                  read_x,
                  read_y,
                  t,
                  ← append_assoc pre (x ∷ []) (xs ++ ((y ∷ ys) ++ post)),
                )
                (merge_loop_lem rounds (left + 1) mid right last (pre ++ x ∷ []) xs (y ∷ ys) post
                    (omega (arith, more)) (omega (arith, more)) c (omega (arith, more))
                    (omega arith)
                  ∙ append_assoc pre (x ∷ []) (merge le xs (y ∷ ys) ++ post)))
        | inr f ↦
            (let more = length-append pre (y ∷ []) in
              let rotated : list_rotate junk items left right
                  ≡ (pre ++ y ∷ []) ++ ((x ∷ xs) ++ (ys ++ post)) =
                list_rotate_lem junk left right pre (x ∷ xs) y (ys ++ post) a (omega arith)
                ∙ sym (append_assoc pre (y ∷ []) ((x ∷ xs) ++ (ys ++ post))) in
              rw (merge_loop, on, read_x, read_y, f, rotated)
                (merge_loop_lem rounds (left + 1) (mid + 1) (right + 1) last (pre ++ y ∷ [])
                    (x ∷ xs) ys post (omega (arith, more)) (omega (arith, more)) (omega arith)
                    (omega (arith, more)) (omega arith)
                  ∙ append_assoc pre (y ∷ []) (merge le (x ∷ xs) ys ++ post)))
      ]

  -- Two sorted runs become their merge.
  pub list_inplace_merge_lem :
      (o : IsOrder le) (left last mid : ℕ) (pre xs ys post : List A)
      → left ≡ length pre
      → mid + 1 ≡ length pre + length xs
      → last + 1 ≡ length pre + length xs + length ys
      → left ≤ mid
      → mid + 1 ≤ last
      → IsSorted le o xs
      → list_inplace_merge junk le left last mid (pre ++ (xs ++ (ys ++ post)))
        ≡ pre ++ (merge le xs ys ++ post)
  unfolding list_inplace_merge
  list_inplace_merge_lem o left last mid pre xs [] post a b d h k s = absurd (omega arith)
  list_inplace_merge_lem o left last mid pre xs (y ∷ ys) post a b d h k s = elim (last_cases xs) [
    | inl gone ↦ absurd (let n = ap length gone in omega arith)
    | inr (front, x, same) ↦
        (let n : length xs ≡ length front + 1 =
            omega (arith, ap length same, length-append front (x ∷ [])) in
          let items = pre ++ (xs ++ ((y ∷ ys) ++ post)) in
          let read_x : get_or items mid junk ≡ x =
            ap (λ t. get_or t mid junk)
              (ap (λ t. pre ++ (t ++ ((y ∷ ys) ++ post))) same
                ∙ ap (λ t. pre ++ t) (append_assoc front (x ∷ []) ((y ∷ ys) ++ post))
                ∙ sym (append_assoc pre front (x ∷ ((y ∷ ys) ++ post))))
            ∙ get_or_middle mid (pre ++ front) x ((y ∷ ys) ++ post) junk
                (omega (arith, length-append pre front)) in
          let read_y : get_or items (mid + 1) junk ≡ y =
            ap (λ t. get_or t (mid + 1) junk) (sym (append_assoc pre xs (y ∷ (ys ++ post))))
            ∙ get_or_middle (mid + 1) (pre ++ xs) y (ys ++ post) junk
                (omega (arith, length-append pre xs)) in
          elim (Bool-cases (le x y)) [
            | inl t ↦
                (let merged : merge le xs (y ∷ ys) ≡ xs ++ y ∷ ys =
                    rw same (merge-append le o front x y ys (rw same at s) t) in
                  rw (list_inplace_merge, read_x, read_y, t)
                    (sym (
                      ap (λ t. pre ++ t)
                        (ap (λ t. t ++ post) merged ∙ append_assoc xs (y ∷ ys) post))))
            | inr f ↦
                rw (list_inplace_merge, read_x, read_y, f)
                  (merge_loop_lem (last + 1 - left) left mid (mid + 1) last pre xs (y ∷ ys) post a b
                    refl d (omega arith))
          ])
  ]
