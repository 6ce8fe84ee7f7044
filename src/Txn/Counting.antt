-- ===== src/Txn/Counting.antt =====
-- The operations of sway/desktop/transaction.c and the counts: `ntxnrefs`, the instructions for a
-- node, the list of dirty nodes and the freeing of nodes.
use swirl.Prelude.{ℕ, ◌<◌, ◌≡◌, refl, ◌∙◌, arith, Bool, true, false, List, [], ◌∷◌}
use swirl.Tree.Types.{Node}
use swirl.Txn.State.{Instruction, Transaction, Server, Env, update_node}
use swirl.Txn.Add.{
  has_node, update_first, new_instruction, refresh, transaction_add_node, add_nodes,
}
use swirl.Txn.Apply.{apply_instruction, apply_instructions, release, release_all}
use swirl.Txn.Commit.{configure, attach, commit_instructions}
use swirl.Txn.Refs.{refs, refs-append, CountedAt}

module _ {D : Type 0} where
  pub has_node-refs :
      (i : ℕ) (xs : List (Instruction D))
      → (has_node i xs ≡ true → 0 < refs i xs) × (has_node i xs ≡ false → refs i xs ≡ 0)
  has_node-refs i [] = ground arith
  has_node-refs i (x ∷ xs) = ground (arith, has_node-refs i xs)

  refs-update_first :
      (i k : ℕ) (f : Instruction D → Instruction D)
      → ((ins : Instruction D) → (f ins).node ≡ ins.node)
      → (xs : List (Instruction D)) → refs i (update_first k f xs) ≡ refs i xs
  refs-update_first i k f keep [] = refl
  refs-update_first i k f keep (x ∷ xs) = ground (arith, keep x, refs-update_first i k f keep xs)

  -- One round of `_transaction_commit_dirty`.
  abbrev add_one : Env D → Bool → ℕ → Transaction D × Server D → Transaction D × Server D
  add_one env request k (t, s) =
      let (t', s') = transaction_add_node env k request (t, s) in
      (t', update_node k (λ n. record n { dirty = false }) s')

  add_one-Counted :
      (env : Env D) (request : Bool) (k i : ℕ) (rest : List ℕ) (q : List (Instruction D))
      (t : Transaction D) (s : Server D)
      → env.alloc ≡ true
      → CountedAt i (k ∷ rest) q t.instructions s
      → let (t', s') = add_one env request k (t, s) in CountedAt i rest q t'.instructions s'
  unfolding transaction_add_node new_instruction refresh
  add_one-Counted env request k i rest q t s a v = ground (
    arith,
    has_node-refs k t.instructions,
    refs-append i t.instructions (new_instruction env s k request ∷ []),
    refs-update_first i k (refresh env s k request) (λ ins. refl) t.instructions,
  )

  pub add_nodes-Counted :
      (env : Env D) (request : Bool) (i : ℕ) (ks : List ℕ) (q : List (Instruction D))
      (t : Transaction D) (s : Server D)
      → env.alloc ≡ true
      → CountedAt i ks q t.instructions s
      → let (t', s') = add_nodes env request ks (t, s) in CountedAt i [] q t'.instructions s'
  unfolding add_nodes
  add_nodes-Counted env request i [] q t s a v = v
  add_nodes-Counted env request i (k ∷ ks) q t s a v =
      let ts = add_one env request k (t, s) in
      add_nodes-Counted env request i ks q ts.0 ts.1 a
        (add_one-Counted env request k i ks q t s a v)

  pub queued-add_nodes :
      (env : Env D) (request : Bool) (ks : List ℕ) (t : Transaction D) (s : Server D)
      → (add_nodes env request ks (t, s)).1.queued_transaction ≡ s.queued_transaction
  unfolding add_nodes transaction_add_node
  queued-add_nodes env request [] t s = refl
  queued-add_nodes env request (k ∷ ks) t s =
      let ts = add_one env request k (t, s) in queued-add_nodes env request ks ts.0 ts.1 ∙ same
    where
      same : (add_one env request k (t, s)).1.queued_transaction ≡ s.queued_transaction
      same = ground arith

  pub apply_instructions-Counted :
      (i : ℕ) (xs : List (Instruction D)) (s : Server D) (d : List ℕ) (q p : List (Instruction D))
      → CountedAt i d q p s
      → CountedAt i d q p (apply_instructions xs s)
  unfolding apply_instructions apply_instruction
  apply_instructions-Counted i [] s d q p v = v
  apply_instructions-Counted i (x ∷ xs) s d q p v =
      apply_instructions-Counted i xs _ d q p (ground arith)

  release-Counted :
      (i : ℕ) (x : Instruction D) (xs : List (Instruction D)) (s : Server D) (d : List ℕ)
      (p : List (Instruction D))
      → CountedAt i d (x ∷ xs) p s
      → CountedAt i d xs p (release x s)
  unfolding release
  release-Counted i x xs s d p v = ground arith

  pub release_all-Counted :
      (i : ℕ) (xs : List (Instruction D)) (s : Server D) (d : List ℕ) (p : List (Instruction D))
      → CountedAt i d xs p s
      → CountedAt i d [] p (release_all xs s)
  unfolding release_all
  release_all-Counted i [] s d p v = v
  release_all-Counted i (x ∷ xs) s d p v =
      release_all-Counted i xs (release x s) d p (release-Counted i x xs s d p v)

  node-configure :
      (env : Env D) (n : Node D) (ins : Instruction D) → (configure env n ins).node ≡ ins.node
  unfolding configure
  node-configure env n ins = ground arith

  pub refs-commit_instructions :
      (env : Env D) (i : ℕ) (xs : List (Instruction D)) (s : Server D)
      → refs i (commit_instructions env xs s).0 ≡ refs i xs
  unfolding commit_instructions
  refs-commit_instructions env i [] s = refl
  refs-commit_instructions env i (x ∷ xs) s = ground (
    arith,
    node-configure env (s.nodes x.node) x,
    refs-commit_instructions env i xs (update_node x.node (attach env x) s),
  )

  pub commit_instructions-Counted :
      (env : Env D) (i : ℕ) (xs : List (Instruction D)) (s : Server D) (d : List ℕ)
      (q p : List (Instruction D))
      → CountedAt i d q p s
      → CountedAt i d q p (commit_instructions env xs s).2
  unfolding commit_instructions attach
  commit_instructions-Counted env i [] s d q p v = v
  commit_instructions-Counted env i (x ∷ xs) s d q p v =
      commit_instructions-Counted env i xs _ d q p (ground arith)
