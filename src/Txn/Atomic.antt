-- ===== src/Txn/Atomic.antt =====
-- What applying a transaction of sway/desktop/transaction.c does to the tree.
use swirl.Prelude.{
  ℕ, ◌≤◌, ◌==◌, ◌≡◌, refl, ap, ◌∙◌, arith, Bool, not, ◌&&◌, ◌||◌, inl, inr, Bool-cases, true, false,
  Option, none, some, List, [], ◌∷◌, if◌then◌else◌,
}
use swirl.Tree.Types.{View, Thing, n_output, n_workspace, n_container, Node}
use swirl.Txn.State.{
  Copied, output_state, workspace_state, container_state, Instruction, Transaction, Server, Env,
  update_node, node_set_dirty, set_dirty_all,
}
use swirl.Txn.Apply.{
  drop_saved, apply_state, apply_instruction, apply_instructions, release, release_node,
  release_all,
}
use swirl.Txn.Commit.{finish}
use swirl.Txn.Refs.{refs}

-- The view of a container without its saved buffer, unless the buffer is to stay.
abbrev buffer_kept : Bool → Option View → Option View
buffer_kept stays none = none
buffer_kept stays (some v) = some (record v { saved_surface_tree = v.saved_surface_tree && stays })

drop_saved-buffer_kept :
    (destroying : Bool) (ntxnrefs : ℕ) (v : Option View)
    → drop_saved destroying ntxnrefs v ≡ buffer_kept (destroying && not (ntxnrefs == 1)) v
drop_saved-buffer_kept destroying ntxnrefs none = refl
drop_saved-buffer_kept destroying ntxnrefs (some v) = elim (Bool-cases (v.saved_surface_tree)) [
  | inl t ↦ elim (Bool-cases (destroying && not (ntxnrefs == 1))) [
    | inl u ↦
        (let stays : (not destroying || ntxnrefs == 1) ≡ false = ground arith in
          rw (t, u, stays) refl)
    | inr u ↦
        (let goes : (not destroying || ntxnrefs == 1) ≡ true = ground arith in rw (t, u, goes) refl)
  ]
  | inr f ↦ rw f refl
]

module _ {D : Type 0} where
  abbrev pub instruction_for : ℕ → List (Instruction D) → Option (Instruction D)
  instruction_for i [] = none
  instruction_for i (ins ∷ rest) = if ins.node == i then some ins else instruction_for i rest

  -- An output, workspace or container with another current state, and all else as it was.
  abbrev with_current : Bool → Thing D → Copied D → Thing D
  with_current stays (n_output o) (output_state c) =
      n_output (record { workspaces = o.workspaces; current = c })
  with_current stays (n_workspace w) (workspace_state c) = n_workspace (record w { current = c })
  with_current stays (n_container con) (container_state c) =
      n_container (record { view = buffer_kept stays con.view; pending = con.pending; current = c })
  with_current stays thing c = thing

  -- What a node is once its instruction has been applied: its current state is the copied one, the
  -- saved buffer of its view is gone, unless the node is being destroyed and its `ntxnrefs` is not
  -- 1, and all else is as it was. A node without an instruction stays as it is.
  abbrev pub applied : Node D → Option (Instruction D) → Thing D
  applied n none = n.thing
  applied n (some ins) = with_current (n.destroying && not (n.ntxnrefs == 1)) n.thing ins.state

  apply_state-with_current :
      (destroying : Bool) (ntxnrefs : ℕ) (thing : Thing D) (c : Copied D)
      → apply_state destroying ntxnrefs thing c
        ≡ with_current (destroying && not (ntxnrefs == 1)) thing c
  unfolding apply_state
  apply_state-with_current destroying ntxnrefs (n_container con) (container_state c) =
      ap (λ v. n_container (record con { current = c; view = v }))
        (drop_saved-buffer_kept destroying ntxnrefs con.view)
  apply_state-with_current destroying ntxnrefs (n_output o) (output_state c) = refl
  apply_state-with_current destroying ntxnrefs (n_workspace w) (workspace_state c) = refl
  apply_state-with_current destroying ntxnrefs thing c = refl

  thing-apply_unnamed :
      (i : ℕ) (xs : List (Instruction D)) (s : Server D)
      → refs i xs ≡ 0
      → ((apply_instructions xs s).nodes i ≡ s.nodes i) × (instruction_for i xs ≡ none)
  unfolding apply_instructions
  thing-apply_unnamed i [] s h = (refl, refl)
  thing-apply_unnamed i (x ∷ xs) s h =
      ground (arith, thing-apply_unnamed i xs (update_node x.node (apply_instruction x) s))

  thing-apply :
      (i : ℕ) (xs : List (Instruction D)) (s : Server D)
      → refs i xs ≤ 1
      → ((apply_instructions xs s).nodes i).thing ≡ applied (s.nodes i) (instruction_for i xs)
  unfolding apply_instructions apply_instruction
  thing-apply i [] s h = refl
  thing-apply i (x ∷ xs) s h = ground (
    arith,
    thing-apply i xs (update_node x.node (apply_instruction x) s),
    thing-apply_unnamed i xs (update_node x.node (apply_instruction x) s),
    apply_state-with_current (s.nodes i).destroying (s.nodes i).ntxnrefs (s.nodes i).thing x.state,
  )

  thing-set_dirty_all :
      (ks : List ℕ) (i : ℕ) (s : Server D)
      → ((set_dirty_all ks s).nodes i).thing ≡ (s.nodes i).thing
  unfolding set_dirty_all node_set_dirty
  thing-set_dirty_all [] i s = refl
  thing-set_dirty_all (k ∷ ks) i s = ground (arith, thing-set_dirty_all ks i (node_set_dirty k s))

  thing-release_all :
      (xs : List (Instruction D)) (i : ℕ) (s : Server D)
      → ((release_all xs s).nodes i).thing ≡ (s.nodes i).thing
  unfolding release_all release release_node
  thing-release_all [] i s = refl
  thing-release_all (x ∷ xs) i s = ground (arith, thing-release_all xs i (release x s))

  -- Finishing a transaction with at most one instruction for the node `i` makes the state that was
  -- copied into the instruction the node's current one. The saved buffer of a container's view goes,
  -- unless the node is being destroyed and its `ntxnrefs` is not 1; all else of its `Thing` stays, and
  -- the whole of it if there is no instruction or if the copied state is of another type of node.
  pub thing-finish :
      (env : Env D) (t : Transaction D) (i : ℕ) (s : Server D)
      → refs i t.instructions ≤ 1
      → ((finish env t s).nodes i).thing ≡ applied (s.nodes i) (instruction_for i t.instructions)
  unfolding finish
  thing-finish env t i s h =
      let s1 = apply_instructions t.instructions s in
      thing-release_all t.instructions i (set_dirty_all env.rebased s1)
      ∙ thing-set_dirty_all env.rebased i s1
      ∙ thing-apply i t.instructions s h
