-- ===== src/Tree/WorkspaceTests.antt =====
-- Tests of the order of workspaces, and the theorems on it at concrete inputs.
use swirl.Prelude.{
  ℕ, zero, suc, get_elem?, ◌≡◌, refl, arith, true, false, Option, none, some, List, [], ◌∷◌,
  if◌then◌else◌, ltb,
}
use swirl.Prelude.Int.{pos}
use swirl.Common.ArrayList.{ListT, contents}
use swirl.Common.ArrayList.Contents.{IsValid}
use swirl.Common.ArrayList.Sort.{list_stable_sort, list_inplace_sort}
use swirl.Common.ArrayList.Sort.Reference.{IsSorted}
use swirl.Common.ArrayList.Sort.Sorting.{list_stable_sort_lem}
use swirl.Tree.Workspaces.{Names, is_in_order, output_sort_workspaces, workspace_next, joined}
use swirl.Tree.Workspaces.Prev.{workspace_prev}
use swirl.Tree.Workspaces.Cycle.{
  workspace_output_prev_next_impl, workspace_output_next, workspace_output_prev,
}
use swirl.Tree.Workspaces.Cycle.Around.{AreDistinct, prev_next_around}
use swirl.Tree.Workspaces.Sorted.{is_in_order-IsOrder}
use swirl.Tree.Workspaces.Next.Search.{AllNumbersFirst, IsNext, workspace_next_numbered}

-- The workspaces below 10 are called by their numbers, the others by words.
abbrev names : Names
names = record { starts_with_digit = λ w. ltb w 10; leading_number = λ w. pos w }

abbrev number : ℕ → Option ℕ
number w = if ltb w 10 then some w else none

abbrev workspaces : ListT ℕ
workspaces = record {
  capacity = 10;
  length = 6;
  items = 12 ∷ 3 ∷ 11 ∷ 9 ∷ 1 ∷ 3 ∷ 0 ∷ 0 ∷ 0 ∷ 0 ∷ [];
}

sorted_workspaces :
    contents (output_sort_workspaces names workspaces) ≡ 1 ∷ 3 ∷ 3 ∷ 9 ∷ 12 ∷ 11 ∷ []
unfolding output_sort_workspaces
sorted_workspaces = refl

-- Numbers ascend, and words follow in the order in which they were.
list_stable_sort_lem_example :
    let sorted = list_stable_sort 0 (is_in_order names) workspaces in
    IsValid sorted
    × (contents sorted ≡ 1 ∷ 3 ∷ 3 ∷ 9 ∷ 12 ∷ 11 ∷ [])
    × IsSorted (is_in_order names) (is_in_order-IsOrder names) (contents sorted)
    × (list_inplace_sort 0 (is_in_order names) 7 0 5 workspaces.items ≡ sorted.items)
unfolding is_in_order
list_stable_sort_lem_example =
    list_stable_sort_lem 0 (is_in_order names) (is_in_order-IsOrder names) workspaces 7
      (omega arith) (omega arith)

abbrev outputs : List (List ℕ)
outputs = (1 ∷ 7 ∷ 12 ∷ []) ∷ (4 ∷ 9 ∷ 11 ∷ []) ∷ []

next_runs : (workspace_next number 4 outputs ≡ some 7) × (workspace_next number 9 outputs ≡ some 12)
unfolding workspace_next
next_runs = (refl, refl)

numbers_first : AllNumbersFirst number outputs
numbers_first = (
  ((λ e. absurd (cc e)), ((λ e. (refl, tt)), ((λ e. tt), tt))),
  (((λ e. absurd (cc e)), ((λ e. (refl, tt)), ((λ e. tt), tt))), tt),
)

-- After workspace 4 comes 7, on the other output.
workspace_next_numbered_example :
    (r : ℕ) × (workspace_next number 4 outputs ≡ some r) × IsNext number 4 (joined outputs) r
workspace_next_numbered_example =
    workspace_next_numbered number 4 4 outputs refl numbers_first (λ e. cc e)

-- From the last word the search should come to the least number, 4; it stays at the first word,
-- which stands on the first output.
named_next : workspace_next number 11 ((12 ∷ []) ∷ (4 ∷ 9 ∷ 11 ∷ []) ∷ []) ≡ some 12
unfolding workspace_next
named_next = refl

abbrev on_output : List ℕ
on_output = 1 ∷ 7 ∷ 12 ∷ []

on_output-AreDistinct : AreDistinct on_output
on_output-AreDistinct w zero e = let same : 1 ≡ w = cc in rw (← same) refl
on_output-AreDistinct w (suc zero) e = let same : 7 ≡ w = cc in rw (← same) refl
on_output-AreDistinct w (suc (suc zero)) e = let same : 12 ≡ w = cc in rw (← same) refl
on_output-AreDistinct w (suc (suc (suc i))) e = absurd (cc e)

wraps_around :
    (workspace_output_prev_next_impl true on_output (some 12) ≡ some 1)
    × (workspace_output_prev_next_impl false on_output (some 1) ≡ some 12)
    × (workspace_output_prev_next_impl true on_output (some 99) ≡ some 1)
unfolding workspace_output_prev_next_impl
wraps_around = (refl, refl, refl)

prev_next_around_example :
    (next previous : ℕ) × (get_elem? on_output 0 ≡ some next)
    × (workspace_output_next on_output (some 12) ≡ some next)
    × (workspace_output_prev on_output (some next) ≡ some 12)
    × (get_elem? on_output 1 ≡ some previous)
    × (workspace_output_prev on_output (some 12) ≡ some previous)
    × (workspace_output_next on_output (some previous) ≡ some 12)
prev_next_around_example = prev_next_around on_output 12 2 on_output-AreDistinct refl

prev_runs :
    (workspace_prev number 7 outputs ≡ some 4)
    × (workspace_prev number 1 outputs ≡ some 11)
    × (workspace_prev number 11 outputs ≡ some 12)
unfolding workspace_prev
prev_runs = (refl, refl, refl)

-- Backwards the search does reach a number, the greatest one.
named_prev : workspace_prev number 12 ((12 ∷ []) ∷ (4 ∷ 9 ∷ 11 ∷ []) ∷ []) ≡ some 9
unfolding workspace_prev
named_prev = refl
