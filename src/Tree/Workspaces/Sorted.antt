-- ===== src/Tree/Workspaces/Sorted.antt =====
-- The order of output_sort_workspaces (sway/tree/output.c).
use swirl.Prelude.{ℕ, ◌≡◌, refl, arith, true, false, not, ◌&&◌, Bool-cases, inl, inr, if◌then◌else◌}
use swirl.Prelude.Int.{ℤ, pos, negsuc}
use swirl.Common.ArrayList.Sort.Reference.{IsOrder}
use swirl.Tree.Workspaces.{Names, less, sort_workspace_cmp_qsort, is_in_order}

less_total : (a b : ℤ) → less a b ≡ true → less b a ≡ false
less_total (pos a) (pos b) h = ground arith
less_total (pos a) (negsuc b) h = absurd (cc h)
less_total (negsuc a) (pos b) h = refl
less_total (negsuc a) (negsuc b) h = ground arith

less_trans : (a b c : ℤ) → less b a ≡ false → less c b ≡ false → less c a ≡ false
less_trans (pos a) (pos b) (pos c) h k = ground arith
less_trans (pos a) (pos b) (negsuc c) h k = absurd (cc k)
less_trans (pos a) (negsuc b) c h k = absurd (cc h)
less_trans (negsuc a) (pos b) (pos c) h k = refl
less_trans (negsuc a) (pos b) (negsuc c) h k = absurd (cc k)
less_trans (negsuc a) (negsuc b) (pos c) h k = refl
less_trans (negsuc a) (negsuc b) (negsuc c) h k = ground arith

is_in_order_lem :
    (names : Names) (a b : ℕ)
    → is_in_order names a b ≡ (
        if names.starts_with_digit b
        then names.starts_with_digit a
          && not (less (names.leading_number b) (names.leading_number a))
        else true)
unfolding is_in_order sort_workspace_cmp_qsort
is_in_order_lem names a b =
    let m = names.leading_number a in
    let n = names.leading_number b in
    elim (Bool-cases (names.starts_with_digit a)) [
      | inl d ↦ elim (Bool-cases (names.starts_with_digit b)) [
        | inl e ↦ elim (Bool-cases (less m n)) [
          | inl l ↦ rw (d, e, l, less_total m n l) refl
          | inr g ↦ elim (Bool-cases (less n m)) [
            | inl l ↦ rw (d, e, g, l) refl
            | inr k ↦ rw (d, e, g, k) refl
          ]
        ]
        | inr e ↦ rw (d, e) refl
      ]
      | inr d ↦ elim (Bool-cases (names.starts_with_digit b)) [
        | inl e ↦ rw (d, e) refl
        | inr e ↦ rw (d, e) refl
      ]
    ]

-- The comparison of two workspaces is a total preorder.
pub is_in_order-IsOrder : (names : Names) → IsOrder (is_in_order names)
is_in_order-IsOrder names = record {
  total = λ a b h.
      (let l = less_total (names.leading_number b) (names.leading_number a) in
        ground (arith, is_in_order_lem names a b, is_in_order_lem names b a));
  transitive = λ a b c h k.
      (let l =
          less_trans (names.leading_number a) (names.leading_number b) (names.leading_number c) in
        ground
          (arith, is_in_order_lem names a b, is_in_order_lem names b c, is_in_order_lem names a c));
}
