-- ===== src/Tree/Workspaces/Next.antt =====
-- workspace_next of sway/tree/workspace.c, for a numbered workspace: what the search finds.
pub mod Rounds
pub mod Steps
pub mod Search
use swirl.Prelude.{
  ℕ, zero, suc, ◌+◌, ◌≤◌, ◌<◌, ◌≡◌, refl, sym, ap, ◌∙◌, arith, Bool, true, false, ◌||◌, ◌==◌,
  ==_iff, Option, none, some, List, [], ◌∷◌, ◌++◌, inl, inr, ◌⊎◌, Bool-cases, Option-cases,
  if◌then◌else◌, is_some,
}
use swirl.Prelude.Members.{member}

-- The numbers of the workspaces, as in the model of workspace_next.
module _ (number : ℕ → Option ℕ) where
  -- No workspace of the list has that number or a greater one.
  abbrev pub NoneFrom : ℕ → List ℕ → Type 0
  NoneFrom least ws = (w j : ℕ) → member w ws ≡ true → number w ≡ some j → j < least

  -- The workspace is in the list, and its number is the least one that is not less than `least`.
  pub record LeastFrom (least : ℕ) (ws : List ℕ) (r : ℕ) : Type 0 where
    pub value : ℕ
    pub numbered : number r ≡ some value
    pub enough : least ≤ value
    pub listed : member r ws ≡ true
    pub smallest : (w j : ℕ) → member w ws ≡ true → number w ≡ some j → least ≤ j → value ≤ j

  -- The first workspace of the list without a number.
  abbrev pub first_named : List ℕ → Option ℕ
  first_named [] = none
  first_named (w ∷ ws) = if is_some (number w) then first_named ws else some w

  -- All are without a number.
  abbrev pub AllNamed : List ℕ → Type 0
  AllNamed [] = Unit
  AllNamed (w ∷ ws) = (number w ≡ none) × AllNamed ws

  -- Those with a number come first.
  abbrev pub NumbersFirst : List ℕ → Type 0
  NumbersFirst [] = Unit
  NumbersFirst (w ∷ ws) = (number w ≡ none → AllNamed ws) × NumbersFirst ws

  pub member_snoc : (x w : ℕ) (ws : List ℕ) → member x (ws ++ w ∷ []) ≡ (member x ws || w == x)
  member_snoc x w [] = ground arith
  member_snoc x w (v ∷ ws) = ground (arith, member_snoc x w ws)

  snoc_cases :
      (x w : ℕ) (ws : List ℕ) → member x (ws ++ w ∷ []) ≡ true → (member x ws ≡ true) ⊎ (w ≡ x)
  snoc_cases x w ws h = elim (Bool-cases (member x ws)) [
    | inl e ↦ inl e
    | inr e ↦ inr (ground (arith, member_snoc x w ws))
  ]

  pub first_named_snoc :
      (w : ℕ) (ws : List ℕ)
      → first_named (ws ++ w ∷ []) ≡ elim (first_named ws) [
        | some v ↦ some v
        | none ↦ if is_some (number w) then none else some w
      ]
  first_named_snoc w [] = refl
  first_named_snoc w (v ∷ ws) = elim (Option-cases (number v)) [
    | inl e ↦ rw e refl
    | inr (k, e) ↦ rw e (first_named_snoc w ws)
  ]

  module _ (least w : ℕ) (ws : List ℕ) where
    pub NoneFrom-snoc :
        NoneFrom least ws
        → ((j : ℕ) → number w ≡ some j → j < least)
        → NoneFrom least (ws ++ w ∷ [])
    NoneFrom-snoc h k x j m e = elim (snoc_cases x w ws m) [
      | inl before ↦ h x j before e
      | inr same ↦ k j (rw same e)
    ]

    pub LeastFrom-keep :
        (r : ℕ) (l : LeastFrom least ws r)
        → ((j : ℕ) → number w ≡ some j → least ≤ j → l.value ≤ j)
        → LeastFrom least (ws ++ w ∷ []) r
    LeastFrom-keep r l k = record {
      value = l.value;
      numbered = l.numbered;
      enough = l.enough;
      listed = rw (member_snoc r w ws, l.listed) refl;
      smallest = λ x j m e h. elim (snoc_cases x w ws m) [
        | inl before ↦ l.smallest x j before e h
        | inr same ↦ k j (rw same e) h
      ];
    }

    pub LeastFrom-new :
        (v : ℕ)
        → number w ≡ some v
        → least ≤ v
        → ((x j : ℕ) → member x ws ≡ true → number x ≡ some j → least ≤ j → v ≤ j)
        → LeastFrom least (ws ++ w ∷ []) w
    LeastFrom-new v e h k = record {
      value = v;
      numbered = e;
      enough = h;
      listed = rw (member_snoc w w ws) (ground (arith, ==_iff w w));
      smallest = λ x j m f g. elim (snoc_cases x w ws m) [
        | inl before ↦ k x j before f g
        | inr same ↦
            (let both : some v ≡ some j = sym e ∙ rw same f in
              let same_value : v ≡ j = cc in omega arith)
      ];
    }
