-- ===== src/Tree/Ancestors.antt =====
-- The ancestors of a node: node_get_parent and node_has_ancestor of sway/tree/node.c. The memory of
-- nodes is a function, and `root` is the number of the root node. The loop of node_has_ancestor
-- takes a number of rounds.
use swirl.Prelude.{
  ℕ, zero, suc, ◌==◌, ◌≡◌, ◌↔◌, refl, ap, arith, Bool, true, false, ◌&&◌, ◌||◌, Option, none, some,
  inl, inr, ==_iff, Bool-cases,
}
use swirl.Tree.Types.{
  FullscreenMode, fullscreen_none, fullscreen_workspace, fullscreen_global, Thing, n_root, n_output,
  n_workspace, n_container,
}

-- `parent`, or else `workspace`, of a container.
abbrev pub container_parent : Option ℕ → Option ℕ → Option ℕ
container_parent (some p) workspace = some p
container_parent none workspace = workspace

abbrev is_global_mode : FullscreenMode → Bool
is_global_mode fullscreen_none = false
is_global_mode fullscreen_workspace = false
is_global_mode fullscreen_global = true

module _ {D : Type 0} where
  abbrev pub is_root : Thing D → Bool
  is_root n_root = true
  is_root (n_output o) = false
  is_root (n_workspace w) = false
  is_root (n_container c) = false

  -- A container that is fullscreen on all outputs.
  abbrev pub is_global : Thing D → Bool
  is_global n_root = false
  is_global (n_output o) = false
  is_global (n_workspace w) = false
  is_global (n_container c) = is_global_mode c.pending.fullscreen_mode

  -- `node_get_parent`, by the node's type.
  abbrev pub parent_of : ℕ → Thing D → Option ℕ
  parent_of root n_root = none
  parent_of root (n_output o) = some root
  parent_of root (n_workspace w) = w.output
  parent_of root (n_container c) = container_parent c.pending.parent c.pending.workspace

module _ {D : Type 0} (root : ℕ) (things : ℕ → Thing D) where
  unfoldable pub node_get_parent : ℕ → Option ℕ
  node_get_parent i = parent_of root (things i)

  -- The loop of `node_has_ancestor` from a parent on.
  unfoldable pub ancestor_loop : ℕ → Option ℕ → ℕ → Bool
  unfolding node_get_parent
  ancestor_loop zero parent ancestor = false
  ancestor_loop (suc rounds) none ancestor = false
  ancestor_loop (suc rounds) (some p) ancestor =
      p == ancestor
      || is_root (things ancestor) && is_global (things p)
      || ancestor_loop rounds (node_get_parent p) ancestor

  unfoldable pub node_has_ancestor : ℕ → ℕ → ℕ → Bool
  unfolding ancestor_loop
  node_has_ancestor rounds i ancestor =
      is_root (things ancestor) && is_global (things i)
      || ancestor_loop rounds (node_get_parent i) ancestor

  -- The node `a` is above the node `i` in the tree, or is the root, with a container that is
  -- fullscreen on all outputs at `i` or on the way up from it.
  pub data IsAbove (a : ℕ) : ℕ → Type 0 where
    global : (i : ℕ) → is_root (things a) ≡ true → is_global (things i) ≡ true → IsAbove a i
    parent : (i : ℕ) → node_get_parent i ≡ some a → IsAbove a i
    further : (i p : ℕ) → node_get_parent i ≡ some p → IsAbove a p → IsAbove a i

  -- The way up from a node ends after so many parents.
  abbrev pub Ends : ℕ → Option ℕ → Type 0
  Ends zero o = o ≡ none
  Ends (suc n) none = Unit
  Ends (suc n) (some p) = Ends n (node_get_parent p)

  -- What the loop finds is above any node with that parent.
  ancestor_loop-IsAbove :
      (rounds i a : ℕ) (o : Option ℕ)
      → node_get_parent i ≡ o
      → ancestor_loop rounds o a ≡ true
      → IsAbove a i
  unfolding ancestor_loop
  ancestor_loop-IsAbove zero i a o e h = cc
  ancestor_loop-IsAbove (suc rounds) i a none e h = cc
  ancestor_loop-IsAbove (suc rounds) i a (some p) e h = elim (Bool-cases (p == a)) [
    | inl same ↦ parent i (rw e (ap some ((==_iff p a).0 same)))
    | inr other ↦ elim (Bool-cases (is_root (things a))) [
      | inl r ↦ elim (Bool-cases (is_global (things p))) [
        | inl g ↦ further i p e (global p r g)
        | inr g ↦
            further i p e
              (ancestor_loop-IsAbove rounds p a (node_get_parent p) refl (rw (other, r, g) at h))
      ]
      | inr r ↦
          further i p e
            (ancestor_loop-IsAbove rounds p a (node_get_parent p) refl (rw (other, r) at h))
    ]
  ]

  node_has_ancestor-rise :
      (rounds i p a : ℕ)
      → node_get_parent i ≡ some p
      → node_has_ancestor rounds p a ≡ true
      → node_has_ancestor (suc rounds) i a ≡ true
  unfolding node_has_ancestor
  node_has_ancestor-rise rounds i p a e h = rw (e, ancestor_loop) (ground arith)

  node_has_ancestor-found :
      (a i : ℕ)
      → IsAbove a i
      → (rounds : ℕ) → Ends rounds (node_get_parent i)
      → node_has_ancestor rounds i a ≡ true
  unfolding node_has_ancestor ancestor_loop
  node_has_ancestor-found a _ (global i r g) rounds v = ground arith
  node_has_ancestor-found a _ (parent i e) zero v = cc
  node_has_ancestor-found a _ (parent i e) (suc rounds) v =
      let same : (a == a) ≡ true = (==_iff a a).1 refl in rw (e, ancestor_loop, same) (ground arith)
  node_has_ancestor-found a _ (further i p e b) zero v = cc
  node_has_ancestor-found a _ (further i p e b) (suc rounds) v =
      node_has_ancestor-rise rounds i p a e (node_has_ancestor-found a p b rounds (rw e at v))

  -- If the way up from a node ends within the rounds given, `node_has_ancestor` finds exactly the
  -- nodes above it, the root also above what is fullscreen on all outputs.
  pub node_has_ancestor_lem :
      (rounds i a : ℕ)
      → Ends rounds (node_get_parent i)
      → (node_has_ancestor rounds i a ≡ true) ↔ IsAbove a i
  unfolding node_has_ancestor
  node_has_ancestor_lem rounds i a v = (
    λ h. elim (Bool-cases (is_root (things a))) [
      | inl r ↦ elim (Bool-cases (is_global (things i))) [
        | inl g ↦ global i r g
        | inr g ↦ ancestor_loop-IsAbove rounds i a (node_get_parent i) refl (rw (r, g) at h)
      ]
      | inr r ↦ ancestor_loop-IsAbove rounds i a (node_get_parent i) refl (rw r at h)
    ],
    λ b. node_has_ancestor-found a i b rounds v,
  )
