-- ===== src/Txn/Refs.antt =====
-- The counts of sway/desktop/transaction.c and of `node_set_dirty`: what `ntxnrefs`, `dirty` and the freeing of a node
-- say of the instructions and of the list of dirty nodes.
use swirl.Prelude.Members.{occurrences, occurrences-append}
use swirl.Prelude.{
  ℕ, ◌+◌, ◌≤◌, ◌==◌, ◌≡◌, arith, Option, none, some, List, [], ◌∷◌, ◌++◌, if◌then◌else◌,
}
use swirl.Tree.Types.{Node}
use swirl.Txn.State.{Instruction, Transaction, Server, node_set_dirty}
use swirl.Txn.Apply.{is_unused}

module _ {D : Type 0} where
  -- How many of the instructions are for the node `i`.
  abbrev pub refs : ℕ → List (Instruction D) → ℕ
  refs i [] = 0
  refs i (ins ∷ rest) = (if ins.node == i then 1 else 0) + refs i rest

  abbrev pub instructions_of : Option (Transaction D) → List (Instruction D)
  instructions_of none = []
  instructions_of (some t) = t.instructions

  pub refs-append :
      (i : ℕ) (xs ys : List (Instruction D)) → refs i (xs ++ ys) ≡ refs i xs + refs i ys
  refs-append i [] ys = omega arith
  refs-append i (x ∷ xs) ys = omega (arith, refs-append i xs ys)

-- The node `i`, with the lists that mention it: the dirty nodes, the instructions of the queued and
-- of the pending transaction, and the nodes that were freed.
pub record Counted {D : Type 0} (i : ℕ) (n : Node D) (dirty : List ℕ)
    (queued pending : List (Instruction D)) (freed : List ℕ) : Type 0 where
  pub counted : n.ntxnrefs ≡ refs i queued + refs i pending
  pub once_queued : refs i queued ≤ 1
  pub once_pending : refs i pending ≤ 1
  pub listed : occurrences i dirty ≡ (if n.dirty then 1 else 0)
  pub freed_once : occurrences i freed ≡ (if is_unused n then 1 else 0)

module _ {D : Type 0} where
  abbrev pub CountedAt :
      ℕ → List ℕ → List (Instruction D) → List (Instruction D) → Server D → Type 0
  CountedAt i dirty queued pending s = Counted i (s.nodes i) dirty queued pending s.freed

  -- All counts of the server are right.
  abbrev pub AllCounted : Server D → Type 0
  AllCounted s =
      (i : ℕ)
      → CountedAt i s.dirty_nodes (instructions_of s.queued_transaction)
          (instructions_of s.pending_transaction) s

  pub node_set_dirty-Counted :
      (k i : ℕ) (s : Server D) (q p : List (Instruction D))
      → CountedAt i s.dirty_nodes q p s
      → CountedAt i (node_set_dirty k s).dirty_nodes q p (node_set_dirty k s)
  unfolding node_set_dirty
  node_set_dirty-Counted k i s q p v = ground (arith, occurrences-append i s.dirty_nodes (k ∷ []))
