-- ===== src/Tree/Workspaces/Prev.antt =====
-- workspace_prev of sway/tree/workspace.c.
use swirl.Prelude.{
  ℕ, ◌==◌, Bool, true, false, not, ◌&&◌, ◌||◌, Option, none, some, List, [], ◌∷◌, ◌++◌,
  if◌then◌else◌, is_some,
}
use swirl.Tree.Workspaces.{below, or_else, joined}

-- The pointers of the search: `prev`, `last` and `other` with the numbers of the first two.
pub record Before : Type 0 where
  pub prev : Option ℕ
  pub prevn : Option ℕ
  pub last : Option ℕ
  pub lastn : Option ℕ
  pub other : Option ℕ

-- The loops count down over the outputs and over the workspaces of each.
abbrev reversed : List ℕ → List ℕ
reversed [] = []
reversed (w ∷ ws) = reversed ws ++ w ∷ []

module _ (number : ℕ → Option ℕ) where
  -- A round of the loops for a workspace with the number `n`.
  unfoldable pub prev_round : Option ℕ → ℕ → Before → Before
  prev_round n ws b =
      let wsn = number ws in
      let b1 =
        if not (is_some b.last) || is_some wsn && below b.lastn wsn
        then record b { last = some ws; lastn = wsn }
        else b in
      let b2 =
        if not (is_some b1.other) && not (is_some wsn) then record b1 { other = some ws } else b1 in
      if is_some wsn && below wsn n && (not (is_some b2.prev) || below b2.prevn wsn)
      then record b2 { prev = some ws; prevn = wsn }
      else b2

  unfoldable pub prev_rounds : Option ℕ → List ℕ → Before → Before
  unfolding prev_round
  prev_rounds n [] b = b
  prev_rounds n (ws ∷ rest) b = prev_rounds n rest (prev_round n ws b)

  -- The loops for a workspace without a number, up to the result.
  unfoldable pub prev_named : ℕ → List ℕ → Option ℕ → Option ℕ → Option ℕ → Bool → Option ℕ
  prev_named self [] last other othern found = or_else other last
  prev_named self (ws ∷ rest) last other othern found =
      let wsn = number ws in
      let last' = or_else last (some ws) in
      let taken = not (is_some other) || is_some wsn && below othern wsn in
      let other' = if taken then some ws else other in
      let othern' = if taken then wsn else othern in
      elim (ws == self) [
        | true ↦ prev_named self rest last' other' othern' true
        | false ↦ elim (not (is_some wsn) && found) [
          | true ↦ some ws
          | false ↦ prev_named self rest last' other' othern' found
        ]
      ]

  -- `workspace_prev`, over the workspaces of the outputs.
  unfoldable pub workspace_prev : ℕ → List (List ℕ) → Option ℕ
  unfolding prev_rounds prev_named
  workspace_prev ws outputs = elim (number ws) [
    | none ↦ prev_named ws (reversed (joined outputs)) none none none false
    | some n ↦
        (let b =
            prev_rounds (some n) (reversed (joined outputs))
              (record { prev = none; prevn = none; last = none; lastn = none; other = none }) in
          or_else b.prev (or_else b.other b.last))
  ]
