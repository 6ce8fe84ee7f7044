-- ===== src/Tree/Workspaces/Next/Search.antt =====
-- The loops of workspace_next of sway/tree/workspace.c, and its result for a numbered workspace.
use swirl.Prelude.{
  ℕ, ◌+◌, ◌≡◌, ◌≢◌, refl, sym, ◌∙◌, Option, none, some, List, [], ◌∷◌, ◌++◌, inl, inr, ◌⊎◌,
  Option-cases, append_assoc, append-nil,
}
use swirl.Tree.Workspaces.{
  Found, nothing, see, see_next, next_on_output, next_on_outputs, joined, or_else, next_numbered,
  workspace_next,
}
use swirl.Tree.Workspaces.Next.{
  NoneFrom, LeastFrom, first_named, AllNamed, NumbersFirst, first_named_snoc,
}
use swirl.Tree.Workspaces.Next.Steps.{see-Holds, see_next-Holds}
use swirl.Tree.Workspaces.Next.Rounds.{Holds, HoldsLeast, HoldsFirst, named_round, snoc_nonempty}

module _ (number : ℕ → Option ℕ) where
  skipped_first :
      (w v : ℕ) (ws : List ℕ) (first firstn : Option ℕ)
      → first_named number ws ≡ some v
      → HoldsFirst number ws first firstn
      → HoldsFirst number (ws ++ w ∷ []) first firstn
  skipped_first w v ws none firstn e h = absurd (let e' : none ≡ some v = rw h at e in cc)
  skipped_first w v ws (some r) firstn e (held, some_before, l) = (
    held,
    snoc_nonempty number w ws,
    λ all. absurd (let bad = rw (first_named_snoc number w ws, e) at all in cc),
  )

  -- The workspaces after the `break` change nothing, as none of them has a number.
  skipped :
      (n v : ℕ) (ws rest : List ℕ) (f : Found)
      → AllNamed number rest
      → first_named number ws ≡ some v
      → Holds number n ws f
      → Holds number n (ws ++ rest) f
  skipped n v ws [] f all e h = rw (append-nil ws) h
  skipped n v ws (w ∷ rest) f (u, all) e h =
      let still : first_named number (ws ++ w ∷ []) ≡ some v =
        rw (first_named_snoc number w ws, e) refl in
      rw (← append_assoc ws (w ∷ []) rest) (
        skipped n v (ws ++ w ∷ []) rest f all still (record {
          next_held = named_round number (n + 1) w ws f.next f.nextn u h.next_held;
          other_held = h.other_held ∙ e ∙ sym still;
          first_held = skipped_first w v ws f.first f.firstn e h.first_held;
        }))

  named_snoc :
      (w : ℕ) (ws : List ℕ)
      → number w ≡ none
      → (v : ℕ) × (first_named number (ws ++ w ∷ []) ≡ some v)
  named_snoc w ws u = elim (Option-cases (first_named number ws)) [
    | inl e ↦ (w, rw (first_named_snoc number w ws, e, u) refl)
    | inr (v, e) ↦ (v, rw (first_named_snoc number w ws, e) refl)
  ]

  next_on_output-Holds :
      (n : ℕ) (ws rest : List ℕ) (f : Found)
      → NumbersFirst number rest
      → Holds number n ws f
      → Holds number n (ws ++ rest) (next_on_output number (some n) rest f)
  unfolding next_on_output
  next_on_output-Holds n ws [] f o h = rw (append-nil ws) h
  next_on_output-Holds n ws (w ∷ rest) f o h = elim (Option-cases (number w)) [
    | inl u ↦
        (let (v, e) = named_snoc w ws u in
          rw (next_on_output, u, ← append_assoc ws (w ∷ []) rest)
            (skipped n v (ws ++ w ∷ []) rest (see number w f) (o.0 u) e
              (see-Holds number n w ws f u h)))
    | inr (k, u) ↦
        rw (next_on_output, u, ← append_assoc ws (w ∷ []) rest)
          (next_on_output-Holds n (ws ++ w ∷ []) rest (see_next number (some n) w (see number w f))
            o.1 (see_next-Holds number n w k ws f u h))
  ]

  -- The numbered workspaces of each output come first.
  abbrev pub AllNumbersFirst : List (List ℕ) → Type 0
  AllNumbersFirst [] = Unit
  AllNumbersFirst (ws ∷ rest) = NumbersFirst number ws × AllNumbersFirst rest

  next_on_outputs-Holds :
      (n : ℕ) (ws : List ℕ) (outputs : List (List ℕ)) (f : Found)
      → AllNumbersFirst outputs
      → Holds number n ws f
      → Holds number n (ws ++ joined outputs) (next_on_outputs number (some n) outputs f)
  unfolding next_on_outputs
  next_on_outputs-Holds n ws [] f o h = rw (append-nil ws) h
  next_on_outputs-Holds n ws (xs ∷ outputs) f o h = rw (← append_assoc ws xs (joined outputs)) (
      next_on_outputs-Holds n (ws ++ xs) outputs (next_on_output number (some n) xs f) o.1
        (next_on_output-Holds n ws xs f o.0 h))

  -- A workspace with the least number above `n`; or else the first one without a number; or else one
  -- with the least number of all.
  abbrev pub IsNext : ℕ → List ℕ → ℕ → Type 0
  IsNext n ws r =
      LeastFrom number (n + 1) ws r
      ⊎ (NoneFrom number (n + 1) ws
          × ((first_named number ws ≡ some r)
              ⊎ ((first_named number ws ≡ none) × LeastFrom number 0 ws r)))

  -- The result of the loops.
  next_numbered_lem :
      (n : ℕ) (outputs : List (List ℕ))
      → AllNumbersFirst outputs
      → joined outputs ≢ []
      → (r : ℕ) × (next_numbered number (some n) outputs ≡ some r) × IsNext n (joined outputs) r
  unfolding next_numbered
  next_numbered_lem n outputs o some_there =
      let f = next_on_outputs number (some n) outputs nothing in
      let h = next_on_outputs-Holds n [] outputs nothing o before_all in
      result f.next f.nextn f.other f.first f.firstn h.next_held h.other_held h.first_held
    where
      before_all : Holds number n [] nothing
      before_all = record {
        next_held = λ w j m e. absurd (cc m);
        other_held = refl;
        first_held = refl;
      }

      result :
          (next nextn other first firstn : Option ℕ)
          → HoldsLeast number (n + 1) (joined outputs) next nextn
          → other ≡ first_named number (joined outputs)
          → HoldsFirst number (joined outputs) first firstn
          → (r : ℕ) × (or_else next (or_else other first) ≡ some r) × IsNext n (joined outputs) r
      result (some r) nextn other first firstn (held, l) e h = (r, refl, inl l)
      result none nextn (some r) first firstn above e h = (r, refl, inr (above, inl (sym e)))
      result none nextn none none firstn above e h = absurd (some_there h)
      result none nextn none (some r) firstn above e (held, there, l) =
          (r, refl, inr (above, inr (sym e, l (sym e))))

  -- workspace_next of a workspace with a number, if those of each output that have a number come
  -- before its others, and if there is any workspace. It finds a workspace with the least number
  -- above its own; if there is none above, it finds the first workspace without a number; and if there
  -- is none of these either, it wraps around to a workspace with the least number of all.
  pub workspace_next_numbered :
      (ws n : ℕ) (outputs : List (List ℕ))
      → number ws ≡ some n
      → AllNumbersFirst outputs
      → joined outputs ≢ []
      → (r : ℕ) × (workspace_next number ws outputs ≡ some r) × IsNext n (joined outputs) r
  unfolding workspace_next
  workspace_next_numbered ws n outputs e o there =
      rw (workspace_next, e) (next_numbered_lem n outputs o there)
