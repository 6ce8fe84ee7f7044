-- ===== src/Tree/Workspaces/Cycle/Around.antt =====
-- The workspaces of an output form a circle (sway/tree/workspace.c).
use native.Mathlib.Nat.{mod-eq_of_lt, mod_self}
use swirl.Prelude.{
  ap, ℕ, zero, suc, ◌+◌, ◌-◌, ◌%◌, ◌<◌, ◌≡◌, not, refl, ◌∙◌, arith, Bool, true, false, ◌==◌, ==_iff,
  some, List, [], ◌∷◌, inl, inr, length, get_elem?, Bool-cases, ℕ-cases, if◌then◌else◌,
}
use swirl.Prelude.Int.{pos}
use swirl.Prelude.Members.{occurrences}
use swirl.Common.ArrayList.{search_from}
use swirl.Common.Util.{wrap, wrap-pos, wrap-negsuc}
use swirl.Tree.Workspaces.Cycle.{
  moved, workspace_output_prev_next_impl, workspace_output_next, workspace_output_prev,
}

-- In a list without duplicates, the search for an item finds its index.
search_from_get :
    (w k i : ℕ) (ws : List ℕ)
    → get_elem? ws i ≡ some w
    → occurrences w ws ≡ 1
    → search_from (λ v. v == w) k ws ≡ pos (k + i)
unfolding search_from
search_from_get w k i [] e h = absurd (cc e)
search_from_get w k zero (x ∷ ws) e h =
    let same : x ≡ w = cc in rw (same, (==_iff w w).1 refl) (ap pos (omega arith))
search_from_get w k (suc i) (x ∷ ws) e h = elim (Bool-cases (x == w)) [
  | inl same ↦ absurd (let there = get_occurs w i ws e in ground arith)
  | inr other ↦
      rw (search_from, other)
        (search_from_get w (k + 1) i ws e (ground arith) ∙ ap pos (omega arith))
]
  where
    get_occurs : (w i : ℕ) (ws : List ℕ) → get_elem? ws i ≡ some w → 0 < occurrences w ws
    get_occurs w i [] e = absurd (cc e)
    get_occurs w zero (x ∷ ws) e = let same : x ≡ w = cc in ground (arith, ==_iff x w)
    get_occurs w (suc i) (x ∷ ws) e = omega (arith, get_occurs w i ws e)

get_some : (i : ℕ) (ws : List ℕ) → i < length ws → (w : ℕ) × (get_elem? ws i ≡ some w)
get_some i [] h = absurd (omega arith)
get_some zero (x ∷ ws) h = (x, refl)
get_some (suc i) (x ∷ ws) h = get_some i ws (omega arith)

get_bound : (w i : ℕ) (ws : List ℕ) → get_elem? ws i ≡ some w → i < length ws
get_bound w i [] e = absurd (cc e)
get_bound w zero (x ∷ ws) e = omega arith
get_bound w (suc i) (x ∷ ws) e = omega (arith, get_bound w i ws e)

-- The index before or after `i` on a circle of `n` places.
abbrev neighbour : Bool → ℕ → ℕ → ℕ
neighbour true i n = if i + 1 == n then 0 else i + 1
neighbour false i n = if i == 0 then n - 1 else i - 1

wrap-moved : (dir : Bool) (i n : ℕ) → i < n → wrap (moved dir (pos i)) n ≡ pos (neighbour dir i n)
wrap-moved true i n h = elim (Bool-cases (i + 1 == n)) [
  | inl e ↦
      (let last : i + 1 ≡ n = (==_iff (i + 1) n).0 e in
        rw e (wrap-pos (i + 1) n ∙ rw last (ap pos (mod_self n))))
  | inr e ↦ rw e (wrap-pos (i + 1) n ∙ ap pos (mod-eq_of_lt (ground arith)))
]
wrap-moved false zero n h =
    wrap-negsuc 0 n h
    ∙ ap pos (elim (ℕ-cases (n - 1)) [
      | inl e ↦ (let one : n ≡ 1 = omega arith in rw one refl)
      | inr (k, e) ↦
          (let small : 1 % n ≡ 1 = mod-eq_of_lt (omega arith) in
            rw small (mod-eq_of_lt (omega arith)))
    ])
wrap-moved false (suc i) n h = wrap-pos i n ∙ ap pos (mod-eq_of_lt (omega arith) ∙ ground arith)

neighbour_bound : (dir : Bool) (i n : ℕ) → i < n → neighbour dir i n < n
neighbour_bound true i n h = ground arith
neighbour_bound false i n h = ground arith

neighbour_back : (dir : Bool) (i n : ℕ) → i < n → neighbour (not dir) (neighbour dir i n) n ≡ i
neighbour_back true i n h = ground arith
neighbour_back false i n h = ground arith

-- Every workspace of the list stands in it once.
abbrev pub AreDistinct : List ℕ → Type 0
AreDistinct ws = (w i : ℕ) → get_elem? ws i ≡ some w → occurrences w ws ≡ 1

step :
    (dir : Bool) (ws : List ℕ) (w i : ℕ)
    → AreDistinct ws
    → get_elem? ws i ≡ some w
    → workspace_output_prev_next_impl dir ws (some w) ≡ get_elem? ws (neighbour dir i (length ws))
unfolding workspace_output_prev_next_impl
step dir ws w i once e = rw (search_from_get w 0 i ws e (once w i e)) (
    let same : 0 + i ≡ i = omega arith in
    rw (same, wrap-moved dir i (length ws) (get_bound w i ws e)) refl)

-- The neighbour is there, and the way back from it leads to the focused workspace again.
there_and_back :
    (dir : Bool) (ws : List ℕ) (focus i : ℕ)
    → AreDistinct ws
    → get_elem? ws i ≡ some focus
    → (r : ℕ) × (get_elem? ws (neighbour dir i (length ws)) ≡ some r)
      × (workspace_output_prev_next_impl dir ws (some focus) ≡ some r)
      × (workspace_output_prev_next_impl (not dir) ws (some r) ≡ some focus)
there_and_back dir ws focus i once e =
    let n = length ws in
    let h = get_bound focus i ws e in
    let j = neighbour dir i n in
    let (r, there) = get_some j ws (neighbour_bound dir i n h) in
    (
      r,
      there,
      step dir ws focus i once e ∙ there,
      step (not dir) ws r j once there ∙ rw (neighbour_back dir i n h) e,
    )

-- Let the workspaces of an output be distinct and the focused one stand at the index `i` of them.
-- Then the next one is the one at the index after `i`, or the first if `i` is the last index, and the
-- previous one is the one at the index before `i`, or the last if `i` is 0. Going back from either
-- leads to the focused one again.
pub prev_next_around :
    (ws : List ℕ) (focus i : ℕ)
    → AreDistinct ws
    → get_elem? ws i ≡ some focus
    → (next previous : ℕ) × (get_elem? ws (if i + 1 == length ws then 0 else i + 1) ≡ some next)
      × (workspace_output_next ws (some focus) ≡ some next)
      × (workspace_output_prev ws (some next) ≡ some focus)
      × (get_elem? ws (if i == 0 then length ws - 1 else i - 1) ≡ some previous)
      × (workspace_output_prev ws (some focus) ≡ some previous)
      × (workspace_output_next ws (some previous) ≡ some focus)
unfolding workspace_output_next workspace_output_prev
prev_next_around ws focus i once e =
    let (next, a, b, c) = there_and_back true ws focus i once e in
    let (previous, d, f, g) = there_and_back false ws focus i once e in
    (next, previous, a, b, c, d, f, g)
