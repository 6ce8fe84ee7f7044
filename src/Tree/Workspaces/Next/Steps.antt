-- ===== src/Tree/Workspaces/Next/Steps.antt =====
-- A whole round of workspace_next of sway/tree/workspace.c, for a workspace without a number and for
-- one with a number.
use swirl.Prelude.{
  ℕ, ◌+◌, ◌≡◌, refl, ◌∙◌, not, ◌&&◌, ◌||◌, Option, none, some, List, [], ◌∷◌, ◌++◌, inl, inr,
  Bool-cases, if◌then◌else◌, is_some,
}
use swirl.Tree.Workspaces.{Found, below, see, see_next}
use swirl.Tree.Workspaces.Next.Rounds.{Holds, next_round, other_round, first_round, named_round}

module _ (number : ℕ → Option ℕ) where
  see_fields :
      (w : ℕ) (f : Found)
      → let better = not (is_some f.first) || is_some (number w) && below (number w) f.firstn in
        let g = see number w f in
        (g.next ≡ f.next)
        × (g.nextn ≡ f.nextn)
        × (g.first ≡ (if better then some w else f.first))
        × (g.firstn ≡ (if better then number w else f.firstn))
        × (g.other
            ≡ (if not (is_some f.other) && not (is_some (number w)) then some w else f.other))
  unfolding see
  see_fields w f =
      elim (Bool-cases (not (is_some f.first) || is_some (number w) && below (number w) f.firstn)) [
        | inl a ↦ elim (Bool-cases (not (is_some f.other) && not (is_some (number w)))) [
          | inl b ↦ rw (a, b) (refl, refl, refl, refl, refl)
          | inr b ↦ rw (a, b) (refl, refl, refl, refl, refl)
        ]
        | inr a ↦ elim (Bool-cases (not (is_some f.other) && not (is_some (number w)))) [
          | inl b ↦ rw (a, b) (refl, refl, refl, refl, refl)
          | inr b ↦ rw (a, b) (refl, refl, refl, refl, refl)
        ]
      ]

  see_next_fields :
      (n w : ℕ) (f : Found)
      → let better =
          below (some n) (number w) && (not (is_some f.next) || below (number w) f.nextn) in
        let g = see_next number (some n) w f in
        (g.next ≡ (if better then some w else f.next))
        × (g.nextn ≡ (if better then number w else f.nextn))
        × (g.first ≡ f.first)
        × (g.firstn ≡ f.firstn)
        × (g.other ≡ f.other)
  unfolding see_next
  see_next_fields n w f =
      elim (Bool-cases
        (below (some n) (number w) && (not (is_some f.next) || below (number w) f.nextn))) [
          | inl a ↦ rw a (refl, refl, refl, refl, refl)
          | inr a ↦ rw a (refl, refl, refl, refl, refl)
        ]

  -- The pointers after a workspace without a number.
  pub see-Holds :
      (n w : ℕ) (ws : List ℕ) (f : Found)
      → number w ≡ none
      → Holds number n ws f
      → Holds number n (ws ++ w ∷ []) (see number w f)
  see-Holds n w ws f u h =
      let (a, b, c, d, e) = see_fields w f in
      record {
        next_held = rw (a, b) (named_round number (n + 1) w ws f.next f.nextn u h.next_held);
        other_held = e ∙ other_round number w ws f.other h.other_held;
        first_held = rw (c, d) (first_round number w ws f.first f.firstn h.first_held);
      }

  -- The pointers after a workspace with a number.
  pub see_next-Holds :
      (n w k : ℕ) (ws : List ℕ) (f : Found)
      → number w ≡ some k
      → Holds number n ws f
      → Holds number n (ws ++ w ∷ []) (see_next number (some n) w (see number w f))
  see_next-Holds n w k ws f u h =
      let g = see number w f in
      let (a, b, c, d, e) = see_fields w f in
      let (a', b', c', d', e') = see_next_fields n w g in
      record {
        next_held = rw (a', b', a, b) (next_round number n w k ws f.next f.nextn u h.next_held);
        other_held = e' ∙ e ∙ other_round number w ws f.other h.other_held;
        first_held = rw (c', d', c, d) (first_round number w ws f.first f.firstn h.first_held);
      }
