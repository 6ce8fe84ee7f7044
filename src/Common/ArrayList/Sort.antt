-- ===== src/Common/ArrayList/Sort.antt =====
-- The stable sort of common/list.c: list_rotate, list_inplace_merge, list_inplace_sort and
-- list_stable_sort, on the cells of a list. `le a b` is `compare(&a, &b) <= 0`. The loop of the merge
-- and the recursion of the sort take a number of rounds; the length of the list is enough of them.
pub mod Reference
pub mod Cells
pub mod Merge
pub mod Sorting
use swirl.Prelude.{
  ℕ, zero, suc, ◌+◌, ◌-◌, ◌/◌, ◌==◌, ltb, leb, Bool, true, false, ◌&&◌, List, if◌then◌else◌, get_or,
  set,
}
use swirl.Common.ArrayList.{ListT}

-- The value of a read out of range, which does not happen.
module _ {A : Type 0} (junk : A) where
  -- The loop of `list_rotate`.
  unfoldable pub rotate_loop : ℕ → ℕ → List A → List A
  rotate_loop zero to items = items
  rotate_loop (suc rounds) to items =
      rotate_loop rounds (to - 1) (set items to (get_or items (to - 1) junk))

  -- `list_rotate`
  unfoldable pub list_rotate : List A → ℕ → ℕ → List A
  unfolding rotate_loop
  list_rotate items from to =
      let tmp = get_or items to junk in set (rotate_loop (to - from) to items) from tmp

  -- `list_swap`, on the cells.
  abbrev pub swap_cells : List A → ℕ → ℕ → List A
  swap_cells items src dest =
      let tmp = get_or items src junk in set (set items src (get_or items dest junk)) dest tmp

  module _ (le : A → A → Bool) where
    -- The loop of `list_inplace_merge`.
    unfoldable pub merge_loop : ℕ → ℕ → ℕ → ℕ → ℕ → List A → List A
    unfolding list_rotate
    merge_loop zero left mid right last items = items
    merge_loop (suc rounds) left mid right last items = elim (leb left mid && leb right last) [
      | false ↦ items
      | true ↦ elim (le (get_or items left junk) (get_or items right junk)) [
        | true ↦ merge_loop rounds (left + 1) mid right last items
        | false ↦
            merge_loop rounds (left + 1) (mid + 1) (right + 1) last (list_rotate items left right)
      ]
    ]

    -- `list_inplace_merge`
    unfoldable pub list_inplace_merge : ℕ → ℕ → ℕ → List A → List A
    unfolding merge_loop
    list_inplace_merge left last mid items =
        elim (le (get_or items mid junk) (get_or items (mid + 1) junk)) [
          | true ↦ items
          | false ↦ merge_loop (last + 1 - left) left mid (mid + 1) last items
        ]

    -- `list_inplace_sort`
    unfoldable pub list_inplace_sort : ℕ → ℕ → ℕ → List A → List A
    unfolding list_inplace_merge
    list_inplace_sort zero first last items = items
    list_inplace_sort (suc rounds) first last items =
        let sorted = list_inplace_sort rounds in
        elim (leb last first) [
          | true ↦ items
          | false ↦ elim (last - first == 1) [
            | true ↦ elim (le (get_or items first junk) (get_or items last junk)) [
              | true ↦ items
              | false ↦ swap_cells items first last
            ]
            | false ↦
                (let mid = (last + first) / 2 in
                  list_inplace_merge first last mid
                    (sorted (mid + 1) last (sorted first mid items)))
          ]
        ]

    -- `list_stable_sort`
    unfoldable pub list_stable_sort : ListT A → ListT A
    unfolding list_inplace_sort
    list_stable_sort l =
        if ltb 1 l.length
        then record l { items = list_inplace_sort l.length 0 (l.length - 1) l.items }
        else l
