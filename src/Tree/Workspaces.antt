-- ===== src/Tree/Workspaces.antt =====
-- The order of workspaces: sort_workspace_cmp_qsort and output_sort_workspaces of sway/tree/output.c,
-- workspace_next and workspace_prev of sway/tree/workspace.c. What the C library reads from the names
-- is a parameter.
pub mod Sorted
pub mod Next
pub mod Prev
pub mod Cycle
use swirl.Prelude.{
  ℕ, zero, suc, ◌==◌, ltb, leb, Bool, true, false, not, ◌&&◌, ◌||◌, Option, none, some, List, [],
  ◌∷◌, ◌++◌, if◌then◌else◌, is_some,
}
use swirl.Prelude.Int.{ℤ, pos, negsuc}
use swirl.Common.ArrayList.{ListT}
use swirl.Common.ArrayList.Sort.{list_stable_sort}

-- `a < b`
abbrev pub less : ℤ → ℤ → Bool
less (pos a) (pos b) = ltb a b
less (pos a) (negsuc b) = false
less (negsuc a) (pos b) = true
less (negsuc a) (negsuc b) = ltb b a

-- `isdigit(ws->name[0])` and `(int)strtol(ws->name, NULL, 10)`.
pub record Names : Type 0 where
  pub starts_with_digit : ℕ → Bool
  pub leading_number : ℕ → ℤ

unfoldable pub sort_workspace_cmp_qsort : Names → ℕ → ℕ → ℤ
sort_workspace_cmp_qsort names a b =
    if names.starts_with_digit a && names.starts_with_digit b
    then (let a_num = names.leading_number a in
        let b_num = names.leading_number b in
        if less a_num b_num then negsuc 0 else if less b_num a_num then pos 1 else pos 0)
    else if names.starts_with_digit a
    then negsuc 0
    else if names.starts_with_digit b
    then pos 1
    else pos 0

-- `compare(a, b) <= 0`
unfoldable pub is_in_order : Names → ℕ → ℕ → Bool
unfolding sort_workspace_cmp_qsort
is_in_order names a b = not (less (pos 0) (sort_workspace_cmp_qsort names a b))

-- `output_sort_workspaces`, on the list of the output.
unfoldable pub output_sort_workspaces : Names → ListT ℕ → ListT ℕ
unfolding is_in_order list_stable_sort
output_sort_workspaces names workspaces = list_stable_sort 0 (is_in_order names) workspaces

-- The comparison of two results of `workspace_get_number`, where none is -1.
abbrev pub below : Option ℕ → Option ℕ → Bool
below none none = false
below none (some b) = true
below (some a) none = false
below (some a) (some b) = ltb a b

-- The pointers of `workspace_next`.
pub record Found : Type 0 where
  pub next : Option ℕ
  pub nextn : Option ℕ
  pub first : Option ℕ
  pub firstn : Option ℕ
  pub other : Option ℕ

abbrev pub nothing : Found
nothing = record { next = none; nextn = none; first = none; firstn = none; other = none }

-- `a ? a : b`
abbrev pub or_else : Option ℕ → Option ℕ → Option ℕ
or_else none b = b
or_else (some a) b = some a

-- The workspaces of all outputs.
abbrev pub joined : List (List ℕ) → List ℕ
joined [] = []
joined (ws ∷ rest) = ws ++ joined rest

-- `workspace_get_number` of each workspace, by `strtoll`: the number at the start of its name.
module _ (number : ℕ → Option ℕ) where
  -- A round of the loops of `workspace_next` for a numbered workspace, up to the `break`.
  unfoldable pub see : ℕ → Found → Found
  see ws f =
      let wsn = number ws in
      let f1 =
        if not (is_some f.first) || is_some wsn && below wsn f.firstn
        then record f { first = some ws; firstn = wsn }
        else f in
      if not (is_some f1.other) && not (is_some wsn) then record f1 { other = some ws } else f1

  -- The rest of the round.
  unfoldable pub see_next : Option ℕ → ℕ → Found → Found
  see_next n ws f =
      if below n (number ws) && (not (is_some f.next) || below (number ws) f.nextn)
      then record f { next = some ws; nextn = number ws }
      else f

  -- The loop over the workspaces of an output, which ends at the first one without a number.
  unfoldable pub next_on_output : Option ℕ → List ℕ → Found → Found
  unfolding see see_next
  next_on_output n [] f = f
  next_on_output n (ws ∷ rest) f =
      let f1 = see ws f in
      elim (is_some (number ws)) [ false ↦ f1 | true ↦ next_on_output n rest (see_next n ws f1) ]

  unfoldable pub next_on_outputs : Option ℕ → List (List ℕ) → Found → Found
  unfolding next_on_output
  next_on_outputs n [] f = f
  next_on_outputs n (ws ∷ rest) f = next_on_outputs n rest (next_on_output n ws f)

  -- The result of `workspace_next` for a numbered workspace, over the workspaces of the outputs.
  unfoldable pub next_numbered : Option ℕ → List (List ℕ) → Option ℕ
  unfolding next_on_outputs
  next_numbered n outputs =
      let f = next_on_outputs n outputs nothing in or_else f.next (or_else f.other f.first)

  -- The loops of `workspace_next` for a workspace without a number, with `first`, `other`, `othern`
  -- and `found`, up to the result.
  unfoldable pub next_named : ℕ → List ℕ → Option ℕ → Option ℕ → Option ℕ → Bool → Option ℕ
  next_named self [] first other othern found = or_else other first
  next_named self (ws ∷ rest) first other othern found =
      let wsn = number ws in
      let first' = or_else first (some ws) in
      let taken = not (is_some other) || is_some wsn && below wsn othern in
      let other' = if taken then some ws else other in
      let othern' = if taken then wsn else othern in
      elim (ws == self) [
        | true ↦ next_named self rest first' other' othern' true
        | false ↦ elim (not (is_some wsn) && found) [
          | true ↦ some ws
          | false ↦ next_named self rest first' other' othern' found
        ]
      ]

  -- `workspace_next`
  unfoldable pub workspace_next : ℕ → List (List ℕ) → Option ℕ
  unfolding next_named next_numbered
  workspace_next ws outputs = elim (number ws) [
    | none ↦ next_named ws (joined outputs) none none none false
    | some n ↦ next_numbered (some n) outputs
  ]
