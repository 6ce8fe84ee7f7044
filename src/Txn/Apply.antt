-- ===== src/Txn/Apply.antt =====
-- Applying and freeing a transaction: apply_output_state, apply_workspace_state,
-- apply_container_state, transaction_apply and transaction_destroy of
-- sway/desktop/transaction.c. Scene nodes and their animations are not part of the model.
use swirl.Prelude.{
  ℕ, ◌==◌, Bool, false, not, ◌&&◌, ◌||◌, Option, none, some, List, [], ◌∷◌, if◌then◌else◌,
}
use swirl.Tree.Types.{View, Thing, n_output, n_workspace, n_container, Node}
use swirl.Txn.State.{
  Copied, output_state, workspace_state, container_state, Instruction, Server, dec_size,
  update_node,
}

abbrev pub points_to : Option ℕ → ℕ → Bool
points_to none a = false
points_to (some b) a = b == a

-- The saved buffer of the container's view goes, unless the container is being destroyed and
-- another transaction still holds it.
abbrev pub drop_saved : Bool → ℕ → Option View → Option View
drop_saved destroying ntxnrefs none = none
drop_saved destroying ntxnrefs (some v) =
    if v.saved_surface_tree && (not destroying || ntxnrefs == 1)
    then some (record v { saved_surface_tree = false })
    else some v

module _ {D : Type 0} where
  -- `apply_output_state`, `apply_workspace_state` and `apply_container_state`, by the type of the
  -- node. The union of an instruction is read at the node's own type.
  unfoldable pub apply_state : Bool → ℕ → Thing D → Copied D → Thing D
  apply_state destroying refs (n_output o) (output_state c) = n_output (record o { current = c })
  apply_state destroying refs (n_workspace w) (workspace_state c) =
      n_workspace (record w { current = c })
  apply_state destroying refs (n_container con) (container_state c) =
      n_container (record con { current = c; view = drop_saved destroying refs con.view })
  apply_state destroying refs thing c = thing

  unfoldable pub apply_instruction : Instruction D → Node D → Node D
  unfolding apply_state
  apply_instruction ins n = record n {
    thing = apply_state n.destroying n.ntxnrefs n.thing ins.state;
    instruction = none;
  }

  -- The loop of `transaction_apply`.
  unfoldable pub apply_instructions : List (Instruction D) → Server D → Server D
  unfolding apply_instruction
  apply_instructions [] s = s
  apply_instructions (ins ∷ rest) s =
      apply_instructions rest (update_node ins.node (apply_instruction ins) s)

  -- The node after `ntxnrefs--` and the reset of its pointer.
  unfoldable pub release_node : Instruction D → Node D → Node D
  release_node ins n = record n {
    ntxnrefs = dec_size n.ntxnrefs;
    instruction = if points_to n.instruction ins.addr then none else n.instruction;
  }

  abbrev pub is_unused : Node D → Bool
  is_unused n = n.destroying && n.ntxnrefs == 0 && not n.dirty

  -- One round of `transaction_destroy`; `output_destroy`, `workspace_destroy` and
  -- `container_destroy` free the node.
  unfoldable pub release : Instruction D → Server D → Server D
  unfolding release_node
  release ins s =
      let s' = update_node ins.node (release_node ins) s in
      if is_unused (s'.nodes ins.node) then record s' { freed = ins.node ∷ s'.freed } else s'

  -- The loop of `transaction_destroy`.
  unfoldable pub release_all : List (Instruction D) → Server D → Server D
  unfolding release
  release_all [] s = s
  release_all (ins ∷ rest) s = release_all rest (release ins s)
