-- ===== src/Txn/Held.antt =====
-- The loops of sway/desktop/transaction.c and the pointers from nodes to instructions.
use swirl.Prelude.{
  ℕ, ◌==◌, ◌≡◌, refl, arith, Bool, true, false, not, ◌||◌, List, [], ◌∷◌, is_some, inl, inr,
  Bool-cases,
}
use swirl.Tree.Types.{Node}
use swirl.Txn.State.{
  Instruction, Transaction, Server, Env, update_node, node_set_dirty, set_dirty_all,
}
use swirl.Txn.Add.{has_node, transaction_add_node, add_nodes}
use swirl.Txn.Apply.{apply_instruction, apply_instructions, release, release_node, release_all}
use swirl.Txn.Commit.{commit_instructions, configure, attach, finish}

or-move : (p h c b : Bool) → ((p || h) || (c || b)) ≡ true → ((p || (c || h)) || b) ≡ true
or-move p h c b e = ground arith

module _ {D : Type 0} where
  -- The node `i` has no pointer to an instruction, or has an instruction in the list.
  abbrev pub is_held : ℕ → List (Instruction D) → Server D → Bool
  is_held i xs s = not (is_some (s.nodes i).instruction) || has_node i xs

  apply-is_held :
      (i : ℕ) (xs : List (Instruction D)) (s : Server D)
      → is_held i xs s ≡ true
      → is_held i [] (apply_instructions xs s) ≡ true
  unfolding apply_instructions apply_instruction
  apply-is_held i [] s h = h
  apply-is_held i (x ∷ xs) s h =
      apply-is_held i xs (update_node x.node (apply_instruction x) s) (ground arith)

  release-is_held :
      (i : ℕ) (xs : List (Instruction D)) (s : Server D)
      → is_held i [] s ≡ true
      → is_held i [] (release_all xs s) ≡ true
  unfolding release_all release release_node
  release-is_held i [] s h = h
  release-is_held i (x ∷ xs) s h = release-is_held i xs (release x s) (ground arith)

  dirty-is_held :
      (i k : ℕ) (xs : List (Instruction D)) (s : Server D)
      → is_held i xs s ≡ true
      → is_held i xs (node_set_dirty k s) ≡ true
  unfolding node_set_dirty
  dirty-is_held i k xs s h = ground arith

  dirty_all-is_held :
      (i : ℕ) (ks : List ℕ) (s : Server D)
      → is_held i [] s ≡ true
      → is_held i [] (set_dirty_all ks s) ≡ true
  unfolding set_dirty_all
  dirty_all-is_held i [] s h = h
  dirty_all-is_held i (k ∷ ks) s h =
      dirty_all-is_held i ks (node_set_dirty k s) (dirty-is_held i k [] s h)

  pub finish-is_held :
      (env : Env D) (i : ℕ) (t : Transaction D) (s : Server D)
      → is_held i t.instructions s ≡ true
      → is_held i [] (finish env t s) ≡ true
  unfolding finish
  finish-is_held env i t s h =
      release-is_held i t.instructions
        (set_dirty_all env.rebased (apply_instructions t.instructions s))
        (dirty_all-is_held i env.rebased (apply_instructions t.instructions s)
          (apply-is_held i t.instructions s h))

  pub add_nodes-is_held :
      (env : Env D) (request : Bool) (i : ℕ) (ks : List ℕ) (xs : List (Instruction D))
      (t : Transaction D) (s : Server D)
      → is_held i xs s ≡ true
      → is_held i xs (add_nodes env request ks (t, s)).1 ≡ true
  unfolding add_nodes transaction_add_node
  add_nodes-is_held env request i [] xs t s h = h
  add_nodes-is_held env request i (k ∷ ks) xs t s h =
      let (t', s') = transaction_add_node env k request (t, s) in
      add_nodes-is_held env request i ks xs t' (update_node k (λ n. record n { dirty = false }) s')
        (ground arith)

  configure-node :
      (env : Env D) (n : Node D) (x : Instruction D) → (configure env n x).node ≡ x.node
  unfolding configure
  configure-node env n x = ground arith

  attach-is_held :
      (env : Env D) (i : ℕ) (x : Instruction D) (s : Server D) (b : Bool)
      → (not (is_some (s.nodes i).instruction) || b) ≡ true
      → (not (is_some ((update_node x.node (attach env x) s).nodes i).instruction)
          || (x.node == i || b))
        ≡ true
  unfolding attach
  attach-is_held env i x s b h = elim (Bool-cases (x.node == i)) [
    | inl e ↦ rw e refl
    | inr e ↦ rw e h
  ]

  -- The loop of `transaction_commit` points a node only to an instruction of its list.
  pub commit-is_held :
      (env : Env D) (i : ℕ) (xs : List (Instruction D)) (s : Server D) (b : Bool)
      → (not (is_some (s.nodes i).instruction) || b) ≡ true
      → (is_held i (commit_instructions env xs s).0 (commit_instructions env xs s).2 || b) ≡ true
  unfolding commit_instructions
  commit-is_held env i [] s b h = elim (Bool-cases (is_some (s.nodes i).instruction)) [
    | inl e ↦ rw e (rw e at h)
    | inr e ↦ rw e refl
  ]
  commit-is_held env i (x ∷ xs) s b h =
      let s1 = update_node x.node (attach env x) s in
      let (ys, waiting, s2) = commit_instructions env xs s1 in
      let rest = commit-is_held env i xs s1 (x.node == i || b) (attach-is_held env i x s b h) in
      rw (configure-node env (s.nodes x.node) x)
        (or-move (not (is_some (s2.nodes i).instruction)) (has_node i ys) (x.node == i) b rest)
