-- ===== src/Prelude/Members.antt =====
-- Lists of node numbers as lists of pointers: membership, counts, removal and insertion.
use Prim.Native.Nat.{ℕ, zero, suc, ◌+◌}
use mathlib.Core.Path.{◌≡◌, refl}
use mathlib.Core.Bool.{Bool, true, false, ◌||◌}
use mathlib.Core.Logic.{inl, inr}
use mathlib.Core.List.{List, [], ◌∷◌, ◌++◌}
use native.Mathlib.Omega.{arith}
use swirl.Prelude.Tests.{◌==◌, ltb, if◌then◌else◌, ==_iff, Bool-cases}

abbrev pub member : ℕ → List ℕ → Bool
member i [] = false
member i (x ∷ xs) = x == i || member i xs

-- `list_find` and `list_del`, or `wl_list_remove`: the first occurrence goes.
abbrev pub unlink : ℕ → List ℕ → List ℕ
unlink i [] = []
unlink i (x ∷ xs) = if x == i then xs else x ∷ unlink i xs

-- How often `i` stands in the list.
abbrev pub occurrences : ℕ → List ℕ → ℕ
occurrences i [] = 0
occurrences i (j ∷ js) = (if j == i then 1 else 0) + occurrences i js

-- `list_insert` at an index that is not past the end.
abbrev pub insert_at : ℕ → ℕ → List ℕ → List ℕ
insert_at zero x xs = x ∷ xs
insert_at (suc i) x [] = x ∷ []
insert_at (suc i) x (y ∷ ys) = y ∷ insert_at i x ys

-- `list_find` of an item that stands in the list.
abbrev pub index_of : ℕ → List ℕ → ℕ
index_of i [] = 0
index_of i (x ∷ xs) = if x == i then 0 else suc (index_of i xs)

pub occurrences-append :
    (i : ℕ) (xs ys : List ℕ) → occurrences i (xs ++ ys) ≡ occurrences i xs + occurrences i ys
occurrences-append i [] ys = omega arith
occurrences-append i (x ∷ xs) ys = omega (arith, occurrences-append i xs ys)

pub occurrences-insert_at :
    (i k x : ℕ) (xs : List ℕ)
    → occurrences i (insert_at k x xs) ≡ (if x == i then 1 else 0) + occurrences i xs
occurrences-insert_at i zero x xs = refl
occurrences-insert_at i (suc k) x [] = refl
occurrences-insert_at i (suc k) x (y ∷ ys) = omega (arith, occurrences-insert_at i k x ys)

pub occurrences-unlink :
    (i j : ℕ) (xs : List ℕ)
    → occurrences i (unlink j xs) + (if j == i then if member j xs then 1 else 0 else 0)
      ≡ occurrences i xs
occurrences-unlink i j [] = ground arith
occurrences-unlink i j (x ∷ xs) = ground (arith, occurrences-unlink i j xs)

pub member-occurrences : (i : ℕ) (xs : List ℕ) → member i xs ≡ ltb 0 (occurrences i xs)
member-occurrences i [] = refl
member-occurrences i (x ∷ xs) = ground (arith, member-occurrences i xs)

-- After an insertion right before an item or right after it, the two are neighbours.
pub index_of-insert_at :
    (fixed active : ℕ) (after : Bool) (xs : List ℕ)
    → member fixed xs ≡ true
    → member active xs ≡ false
    → let ys = insert_at (if after then index_of fixed xs + 1 else index_of fixed xs) active xs in
      (index_of active ys ≡ (if after then index_of fixed xs + 1 else index_of fixed xs))
      × (index_of fixed ys ≡ (if after then index_of fixed xs else index_of fixed xs + 1))
index_of-insert_at fixed active after [] h k = absurd (cc h)
index_of-insert_at fixed active true (x ∷ xs) h k = elim (Bool-cases (x == fixed)) [
  | inl e ↦ ground (arith, ==_iff active active)
  | inr e ↦ (let rest = index_of-insert_at fixed active true xs in ground (arith, rest))
]
index_of-insert_at fixed active false (x ∷ xs) h k = elim (Bool-cases (x == fixed)) [
  | inl e ↦ ground (arith, ==_iff active active)
  | inr e ↦ (let rest = index_of-insert_at fixed active false xs in ground (arith, rest))
]

pub member-insert_at :
    (x i c : ℕ) (xs : List ℕ) → member x (insert_at i c xs) ≡ (c == x || member x xs)
member-insert_at x i c xs = ground (
  arith,
  member-occurrences x xs,
  member-occurrences x (insert_at i c xs),
  occurrences-insert_at x i c xs,
)
