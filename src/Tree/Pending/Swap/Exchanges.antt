-- ===== src/Tree/Pending/Swap/Exchanges.antt =====
-- What the moves in the list of columns come to in workspace_swap_columns of sway/tree/workspace.c.
use swirl.Prelude.{
  ℕ, suc, ◌==◌, ◌≡◌, refl, sym, ap, arith, true, false, List, [], ◌∷◌, if◌then◌else◌, map, inl, inr,
  Bool-cases,
}
use swirl.Prelude.Members.{
  member, unlink, insert_at, index_of, occurrences, occurrences-unlink, member-occurrences,
  member-insert_at,
}
use swirl.Tree.Pending.Swap.{adj, swap_in_list}

-- The two containers change places, all others stay.
abbrev pub swapped : ℕ → ℕ → ℕ → ℕ
swapped a b x = if x == a then b else if x == b then a else x

-- A list without the two stays as it is.
swapped_none :
    (a b : ℕ) (xs : List ℕ)
    → occurrences a xs ≡ 0
    → occurrences b xs ≡ 0
    → map (swapped a b) xs ≡ xs
swapped_none a b [] h k = refl
swapped_none a b (x ∷ xs) h k =
    let rest = swapped_none a b xs (ground (arith, h)) (ground (arith, k)) in
    let not_a : (x == a) ≡ false = ground (arith, h) in
    let not_b : (x == b) ≡ false = ground (arith, k) in
    rw (swapped, not_a, not_b) (ap (λ t. x ∷ t) rest)

-- `a` right before `b`, which then goes.
insert_before :
    (a b : ℕ) (xs : List ℕ)
    → (a == b) ≡ false
    → occurrences a xs ≡ 0
    → occurrences b xs ≡ 1
    → unlink b (insert_at (index_of b xs) a xs) ≡ map (swapped a b) xs
insert_before a b [] d h k = absurd (omega arith)
insert_before a b (x ∷ xs) d h k = elim (Bool-cases (x == b)) [
  | inl e ↦
      (let not_a : (x == a) ≡ false = ground (arith, h) in
        let rest = swapped_none a b xs (ground (arith, h)) (ground (arith, k)) in
        rw (e, not_a, d, e) (ap (λ t. a ∷ t) (sym rest)))
  | inr e ↦
      (let not_a : (x == a) ≡ false = ground (arith, h) in
        rw (e, not_a, e)
          (ap (λ t. x ∷ t) (insert_before a b xs d (ground (arith, h)) (ground (arith, k)))))
]

-- `b` in the place of `a`.
insert_for :
    (a b : ℕ) (xs : List ℕ)
    → (a == b) ≡ false
    → occurrences a xs ≡ 1
    → occurrences b xs ≡ 0
    → insert_at (index_of a xs) b (unlink a xs) ≡ map (swapped a b) xs
insert_for a b [] d h k = absurd (omega arith)
insert_for a b (x ∷ xs) d h k = elim (Bool-cases (x == a)) [
  | inl e ↦
      (let rest = swapped_none a b xs (ground (arith, h)) (ground (arith, k)) in
        rw e (ap (λ t. b ∷ t) (sym rest)))
  | inr e ↦
      (let not_b : (x == b) ≡ false = ground (arith, k) in
        rw (e, not_b)
          (ap (λ t. x ∷ t) (insert_for a b xs d (ground (arith, h)) (ground (arith, k)))))
]

-- The moves, once `b` is found.
abbrev moves : ℕ → ℕ → List ℕ → List ℕ
moves a b cs = insert_at (index_of a cs) b (unlink b (insert_at (adj a b cs) a (unlink a cs)))

moves_lem :
    (a b : ℕ) (cs : List ℕ)
    → (a == b) ≡ false
    → occurrences a cs ≡ 1
    → occurrences b cs ≡ 1
    → moves a b cs ≡ map (swapped a b) cs
moves_lem a b [] d h k = absurd (omega arith)
moves_lem a b (x ∷ xs) d h k = elim (Bool-cases (x == a)) [
  | inl is_a ↦
      (let not_b : (x == b) ≡ false = ground (arith, is_a, d) in
        let at_b : adj a b (x ∷ xs) ≡ index_of b xs =
          rw (adj, index_of, is_a, not_b) (ground arith) in
        rw (moves, at_b, is_a)
          (ap (λ t. b ∷ t) (insert_before a b xs d (ground (arith, h)) (ground (arith, k)))))
  | inr not_a ↦ elim (Bool-cases (x == b)) [
    | inl is_b ↦
        (let at_b : adj a b (x ∷ xs) ≡ 0 = rw (adj, index_of, not_a, is_b) (ground arith) in
          rw (moves, at_b, not_a, d, is_b)
            (ap (λ t. a ∷ t) (insert_for a b xs d (ground (arith, h)) (ground (arith, k)))))
    | inr not_b ↦
        (let at_b : adj a b (x ∷ xs) ≡ suc (adj a b xs) =
            rw (adj, index_of, not_a, not_b) (ground arith) in
          rw (moves, at_b, not_a, not_b)
            (ap (λ t. x ∷ t) (moves_lem a b xs d (ground (arith, h)) (ground (arith, k)))))
  ]
]

-- Two different columns that stand once in the list.
pub swap_in_list_lem :
    (a b : ℕ) (cs : List ℕ)
    → (a == b) ≡ false
    → occurrences a cs ≡ 1
    → occurrences b cs ≡ 1
    → swap_in_list a b cs ≡ map (swapped a b) cs
swap_in_list_lem a b cs d h k =
    let found : member b (insert_at (adj a b cs) a (unlink a cs)) ≡ true = ground (
      arith,
      member-insert_at b (adj a b cs) a (unlink a cs),
      member-occurrences b (unlink a cs),
      occurrences-unlink b a cs,
    ) in
    rw (swap_in_list, found) (moves_lem a b cs d h k)
