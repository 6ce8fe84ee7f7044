-- ===== src/Input/Binding/Table.antt =====
-- The table of bindings of sway/commands/bind.c as a map from what binding_key_compare compares.
use Prim.Native.Nat.{bit_and}
use Prim.Native.String.{String}
use text.Mathlib.TextEquality.{eq_iff}
use swirl.Prelude.{
  ℕ, ◌≡◌, refl, arith, true, Option, none, some, List, [], ◌∷◌, is_some, if◌then◌else◌, inl, inr,
  Bool-cases, sym, ◌∙◌, ap,
}
use swirl.Input.Binding.{
  Binding, binding_key_compare, binding_upsert, binding_remove, equal_keys, type_index,
  conflict_generating_flags,
}

equal_keys-eq : (xs ys : List ℕ) → equal_keys xs ys ≡ true → xs ≡ ys
equal_keys-eq [] [] h = refl
equal_keys-eq [] (y ∷ ys) h = cc
equal_keys-eq (x ∷ xs) [] h = cc
equal_keys-eq (x ∷ xs) (y ∷ ys) h = ground (arith, equal_keys-eq xs ys)

equal_keys_refl : (xs : List ℕ) → equal_keys xs xs ≡ true
equal_keys_refl [] = refl
equal_keys_refl (x ∷ xs) = ground (arith, equal_keys_refl xs)

-- What two bindings must have in common to be the same binding.
record Signature : Type 0 where
  input : String
  type : ℕ
  flags : ℕ
  group : ℕ
  modifiers : ℕ
  keys : List ℕ

signature : Binding → Signature
signature b = record {
  input = b.input;
  type = type_index b.type;
  flags = bit_and b.flags conflict_generating_flags;
  group = b.group;
  modifiers = b.modifiers;
  keys = b.keys;
}

signature-eq : (a b : Binding) → binding_key_compare a b ≡ true → signature a ≡ signature b
unfolding binding_key_compare signature
signature-eq a b h = ground (arith, eq_iff a.input b.input, equal_keys-eq a.keys b.keys)

compare-eq : (a b : Binding) → signature a ≡ signature b → binding_key_compare a b ≡ true
unfolding binding_key_compare signature
compare-eq a b h =
    let i = ap (λ s. s.input) h in
    let t = ap (λ s. s.type) h in
    let f = ap (λ s. s.flags) h in
    let g = ap (λ s. s.group) h in
    let m = ap (λ s. s.modifiers) h in
    let k : equal_keys a.keys b.keys ≡ true =
      ap (λ s. equal_keys a.keys s.keys) (sym h) ∙ equal_keys_refl a.keys in
    ground (arith, eq_iff a.input b.input)

-- `binding_key_compare` cannot tell apart bindings that it calls the same.
pub compare-congr :
    (a b c : Binding)
    → binding_key_compare a b ≡ true
    → (binding_key_compare a c ≡ binding_key_compare b c)
      × (binding_key_compare c a ≡ binding_key_compare c b)
compare-congr a b c h = ground (
  arith,
  signature-eq a b h,
  signature-eq a c,
  compare-eq a c,
  signature-eq b c,
  compare-eq b c,
  signature-eq c a,
  compare-eq c a,
  signature-eq c b,
  compare-eq c b,
)

compare_refl : (a : Binding) → binding_key_compare a a ≡ true
compare_refl a = compare-eq a a refl

compare_symm : (a b : Binding) → binding_key_compare a b ≡ true → binding_key_compare b a ≡ true
compare_symm a b h = sym (compare-congr a b a h).0 ∙ compare_refl a

-- The binding of the table that is the same as `a`.
abbrev pub bound : Binding → List Binding → Option Binding
bound a [] = none
bound a (c ∷ rest) = if binding_key_compare a c then some c else bound a rest

-- No two bindings of the table are the same.
abbrev pub Unique : List Binding → Type 0
Unique [] = Unit
Unique (c ∷ rest) = (bound c rest ≡ none) × Unique rest

-- `binding_upsert` binds its binding, leaves all others as they were, and returns the one that it
-- replaced.
pub bound-binding_upsert :
    (a b : Binding) (bs : List Binding)
    → (bound a (binding_upsert b bs).0 ≡ (if binding_key_compare a b then some b else bound a bs))
      × ((binding_upsert b bs).1 ≡ bound b bs)
unfolding binding_upsert
bound-binding_upsert a b [] = (refl, refl)
bound-binding_upsert a b (c ∷ bs) =
    ground (arith, bound-binding_upsert a b bs, compare-congr b c a, compare-congr a b c)

bound-congr :
    (a b : Binding) (bs : List Binding) → binding_key_compare a b ≡ true → bound a bs ≡ bound b bs
bound-congr a b [] h = refl
bound-congr a b (c ∷ bs) h = ground (arith, bound-congr a b bs h, compare-congr a b c h)

-- In a table without duplicates `binding_remove` unbinds its binding, leaves all others as they
-- were, and says whether it was bound.
pub bound-binding_remove :
    (a b : Binding) (bs : List Binding)
    → Unique bs
    → (bound a (binding_remove b bs).0 ≡ (if binding_key_compare a b then none else bound a bs))
      × ((binding_remove b bs).1 ≡ is_some (bound b bs))
unfolding binding_remove
bound-binding_remove a b [] v = ground arith
bound-binding_remove a b (c ∷ bs) (fresh, v) = ground (
  arith,
  bound-binding_remove a b bs v,
  compare-congr b c a,
  compare-congr a b c,
  bound-congr a b bs,
  bound-congr b c bs,
)

upsert-Unique : (b : Binding) (bs : List Binding) → Unique bs → Unique (binding_upsert b bs).0
unfolding binding_upsert
upsert-Unique b [] v = (refl, tt)
upsert-Unique b (c ∷ bs) (fresh, v) = elim (Bool-cases (binding_key_compare b c)) [
  | inl t ↦ rw t (bound-congr b c bs t ∙ fresh, v)
  | inr f ↦
      rw f (ground (arith, bound-binding_upsert c b bs, compare_symm c b), upsert-Unique b bs v)
]

remove-Unique : (b : Binding) (bs : List Binding) → Unique bs → Unique (binding_remove b bs).0
unfolding binding_remove
remove-Unique b [] v = tt
remove-Unique b (c ∷ bs) (fresh, v) = elim (Bool-cases (binding_key_compare b c)) [
  | inl t ↦ rw t v
  | inr f ↦ rw f (ground (arith, bound-binding_remove c b bs v), remove-Unique b bs v)
]

-- `binding_upsert` and `binding_remove` keep a table free of duplicates.
pub operations-Unique :
    (b : Binding) (bs : List Binding)
    → Unique bs
    → Unique (binding_upsert b bs).0 × Unique (binding_remove b bs).0
operations-Unique b bs v = (upsert-Unique b bs v, remove-Unique b bs v)
