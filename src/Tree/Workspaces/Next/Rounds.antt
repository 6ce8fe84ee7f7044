-- ===== src/Tree/Workspaces/Next/Rounds.antt =====
-- The rounds of workspace_next of sway/tree/workspace.c: what its pointers hold after each of them.
use swirl.Prelude.{
  ℕ, ◌+◌, ◌≡◌, ◌≢◌, refl, sym, ◌∙◌, arith, not, ◌&&◌, ◌||◌, Option, none, some, List, [], ◌∷◌, ◌++◌,
  inl, inr, Bool-cases, Option-cases, if◌then◌else◌, is_some, ltb,
}
use swirl.Tree.Workspaces.{Found, below}
use swirl.Tree.Workspaces.Next.{
  NoneFrom, LeastFrom, first_named, first_named_snoc, NoneFrom-snoc, LeastFrom-keep, LeastFrom-new,
}

module _ (number : ℕ → Option ℕ) where
  -- The least workspace from a number on, if there is one, with its number.
  abbrev pub HoldsLeast : ℕ → List ℕ → Option ℕ → Option ℕ → Type 0
  HoldsLeast least ws none v = NoneFrom number least ws
  HoldsLeast least ws (some r) v = (v ≡ number r) × LeastFrom number least ws r

  -- A first workspace, the least one if all have numbers.
  abbrev pub HoldsFirst : List ℕ → Option ℕ → Option ℕ → Type 0
  HoldsFirst ws none v = ws ≡ []
  HoldsFirst ws (some r) v =
      (v ≡ number r) × (ws ≢ []) × (first_named number ws ≡ none → LeastFrom number 0 ws r)

  -- What the pointers hold after the workspaces of the list.
  pub record Holds (n : ℕ) (ws : List ℕ) (f : Found) : Type 0 where
    pub next_held : HoldsLeast (n + 1) ws f.next f.nextn
    pub other_held : f.other ≡ first_named number ws
    pub first_held : HoldsFirst ws f.first f.firstn

  pub snoc_nonempty : (w : ℕ) (ws : List ℕ) → (ws ++ w ∷ []) ≢ []
  snoc_nonempty w [] e = cc
  snoc_nonempty w (v ∷ ws) e = cc

  -- `next` after a workspace with a number.
  pub next_round :
      (n w k : ℕ) (ws : List ℕ) (next nextn : Option ℕ)
      → number w ≡ some k
      → HoldsLeast (n + 1) ws next nextn
      → let better = below (some n) (number w) && (not (is_some next) || below (number w) nextn) in
        HoldsLeast
          (n + 1)
          (ws ++ w ∷ [])
          (if better then some w else next)
          (if better then number w else nextn)
  next_round n w k ws none nextn e h = elim (Bool-cases (ltb n k)) [
    | inl t ↦
        rw (e, t)
          (
            sym e,
            LeastFrom-new number (n + 1) w ws k e (ground arith)
                (λ x j m f g. absurd (let low = h x j m f in omega arith)),
          )
    | inr t ↦
        rw (e, t)
          (NoneFrom-snoc number (n + 1) w ws h (λ j f.
            (let both : some k ≡ some j = sym e ∙ f in let same : k ≡ j = cc in ground arith)))
  ]
  next_round n w k ws (some r) nextn e (held, l) =
      let value : nextn ≡ some l.value = held ∙ l.numbered in
      elim (Bool-cases (ltb n k && ltb k l.value)) [
        | inl t ↦
            rw (e, value, t)
              (
                sym e,
                LeastFrom-new number (n + 1) w ws k e (ground arith)
                    (λ x j m f g. (let low = l.smallest x j m f g in ground arith)),
              )
        | inr t ↦
            rw (e, value, t)
              (
                sym l.numbered,
                LeastFrom-keep number (n + 1) w ws r l (λ j f g.
                    (let both : some k ≡ some j = sym e ∙ f in
                      let same : k ≡ j = cc in ground arith)),
              )
      ]

  -- `other` after any workspace.
  pub other_round :
      (w : ℕ) (ws : List ℕ) (other : Option ℕ)
      → other ≡ first_named number ws
      → (if not (is_some other) && not (is_some (number w)) then some w else other)
        ≡ first_named number (ws ++ w ∷ [])
  other_round w ws other e = elim (Option-cases (first_named number ws)) [
    | inl none_named ↦ elim (Option-cases (number w)) [
      | inl u ↦ rw (e, first_named_snoc number w ws, none_named, u) refl
      | inr (k, u) ↦ rw (e, first_named_snoc number w ws, none_named, u) refl
    ]
    | inr (v, named) ↦ rw (e, first_named_snoc number w ws, named) refl
  ]

  named_before :
      (w : ℕ) (ws : List ℕ)
      → first_named number (ws ++ w ∷ []) ≡ none
      → (first_named number ws ≡ none) × (number w ≢ none)
  named_before w ws e = elim (Option-cases (first_named number ws)) [
    | inl none_named ↦
        (none_named, λ u. (let e' = rw (first_named_snoc number w ws, none_named, u) at e in cc))
    | inr (v, named) ↦ absurd (let e' = rw (first_named_snoc number w ws, named) at e in cc)
  ]

  -- `first` after any workspace.
  pub first_round :
      (w : ℕ) (ws : List ℕ) (first firstn : Option ℕ)
      → HoldsFirst ws first firstn
      → let better = not (is_some first) || is_some (number w) && below (number w) firstn in
        HoldsFirst
          (ws ++ w ∷ [])
          (if better then some w else first)
          (if better then number w else firstn)
  first_round w ws none firstn e = (
    refl,
    snoc_nonempty w ws,
    λ all. elim (Option-cases (number w)) [
      | inl u ↦ absurd ((named_before w ws all).1 u)
      | inr (k, u) ↦
          LeastFrom-new number 0 w ws k u (omega arith)
            (λ x j m f g. absurd (let m' = rw e at m in cc))
    ],
  )
  first_round w ws (some r) firstn (held, some_before, l) = elim (Option-cases (number w)) [
    | inl u ↦ rw u (held, snoc_nonempty w ws, λ all. absurd ((named_before w ws all).1 u))
    | inr (k, u) ↦ elim (Option-cases (number r)) [
      | inl v ↦
          (let unknown : firstn ≡ none = held ∙ v in
            rw (u, unknown)
              (
                sym v,
                snoc_nonempty w ws,
                λ all. absurd (
                    let least = l (named_before w ws all).0 in
                    let bad = sym v ∙ least.numbered in cc),
              ))
      | inr (v, e) ↦
          (let known : firstn ≡ some v = held ∙ e in
            elim (Bool-cases (ltb k v)) [
              | inl t ↦
                  rw (u, known, t)
                    (
                      sym u,
                      snoc_nonempty w ws,
                      λ all.
                          (let least = l (named_before w ws all).0 in
                            let both : some v ≡ some least.value = sym e ∙ least.numbered in
                            let same : v ≡ least.value = cc in
                            LeastFrom-new number 0 w ws k u (omega arith)
                              (λ x j m f g. (let low = least.smallest x j m f g in ground arith))),
                    )
              | inr t ↦
                  rw (u, known, t)
                    (
                      sym e,
                      snoc_nonempty w ws,
                      λ all.
                          (let least = l (named_before w ws all).0 in
                            let both : some v ≡ some least.value = sym e ∙ least.numbered in
                            let same : v ≡ least.value = cc in
                            LeastFrom-keep number 0 w ws r least (λ j f g.
                              (let also : some k ≡ some j = sym u ∙ f in
                                let equal : k ≡ j = cc in ground arith))),
                    )
            ])
    ]
  ]

  -- A workspace without a number does not change `next`.
  pub named_round :
      (least w : ℕ) (ws : List ℕ) (next nextn : Option ℕ)
      → number w ≡ none
      → HoldsLeast least ws next nextn
      → HoldsLeast least (ws ++ w ∷ []) next nextn
  named_round least w ws none nextn u h =
      NoneFrom-snoc number least w ws h (λ j e. absurd (let bad = sym u ∙ e in cc))
  named_round least w ws (some r) nextn u (held, l) =
      (held, LeastFrom-keep number least w ws r l (λ j e g. absurd (let bad = sym u ∙ e in cc)))
