-- ===== src/Txn/Balance.antt =====
-- The counts of sway/desktop/transaction.c in its larger steps, up to a whole commit.
use swirl.Prelude.{
  ℕ, zero, suc, ◌≡◌, refl, arith, none, some, List, [], ◌∷◌, inl, inr, Option-cases, ℕ-cases,
}
use swirl.Tree.Types.{Node}
use swirl.Txn.State.{Instruction, Transaction, Server, Env, node_set_dirty, set_dirty_all}
use swirl.Txn.Apply.{apply_instructions, release, release_all}
use swirl.Txn.Commit.{commit_instructions, transaction_commit, start_timer, finish, queue, progress}
use swirl.Txn.Refs.{refs, Counted, CountedAt, AllCounted, instructions_of, node_set_dirty-Counted}
use swirl.Txn.Counting.{
  apply_instructions-Counted, release_all-Counted, refs-commit_instructions,
  commit_instructions-Counted,
}

module _ {D : Type 0} where
  -- What the loops that write only nodes leave alone.
  record SameLists (s t : Server D) : Type 0 where
    dirty_nodes_eq : t.dirty_nodes ≡ s.dirty_nodes
    queued_eq : t.queued_transaction ≡ s.queued_transaction
    pending_eq : t.pending_transaction ≡ s.pending_transaction

  SameLists-trans : {r s t : Server D} → SameLists r s → SameLists s t → SameLists r t
  SameLists-trans h k = ground arith

  SameLists-apply :
      (xs : List (Instruction D)) (s : Server D) → SameLists s (apply_instructions xs s)
  unfolding apply_instructions
  SameLists-apply [] s = ground arith
  SameLists-apply (x ∷ xs) s = SameLists-trans (ground arith) (SameLists-apply xs _)

  SameLists-release_all :
      (xs : List (Instruction D)) (s : Server D) → SameLists s (release_all xs s)
  unfolding release_all release
  SameLists-release_all [] s = ground arith
  SameLists-release_all (x ∷ xs) s = SameLists-trans (ground arith) (SameLists-release_all xs _)

  SameLists-commit :
      (env : Env D) (xs : List (Instruction D)) (s : Server D)
      → SameLists s (commit_instructions env xs s).2
  unfolding commit_instructions
  SameLists-commit env [] s = ground arith
  SameLists-commit env (x ∷ xs) s = SameLists-trans (ground arith) (SameLists-commit env xs _)

  set_dirty_all-Counted :
      (ks : List ℕ) (i : ℕ) (s : Server D) (q p : List (Instruction D))
      → CountedAt i s.dirty_nodes q p s
      → CountedAt i (set_dirty_all ks s).dirty_nodes q p (set_dirty_all ks s)
  unfolding set_dirty_all
  set_dirty_all-Counted [] i s q p v = v
  set_dirty_all-Counted (k ∷ ks) i s q p v =
      set_dirty_all-Counted ks i (node_set_dirty k s) q p (node_set_dirty-Counted k i s q p v)

  set_dirty_all-transactions :
      (ks : List ℕ) (s : Server D)
      → ((set_dirty_all ks s).queued_transaction ≡ s.queued_transaction)
        × ((set_dirty_all ks s).pending_transaction ≡ s.pending_transaction)
  unfolding set_dirty_all node_set_dirty
  set_dirty_all-transactions [] s = (refl, refl)
  set_dirty_all-transactions (k ∷ ks) s =
      ground (arith, set_dirty_all-transactions ks (node_set_dirty k s))

  pub pending-finish :
      (env : Env D) (t : Transaction D) (s : Server D)
      → (finish env t s).pending_transaction ≡ s.pending_transaction
  unfolding finish
  pending-finish env t s =
      let s1 = apply_instructions t.instructions s in
      let s2 = set_dirty_all env.rebased s1 in
      ground (
        arith,
        SameLists-apply t.instructions s,
        set_dirty_all-transactions env.rebased s1,
        SameLists-release_all t.instructions s2,
      )

  finish-Counted :
      (env : Env D) (t : Transaction D) (i : ℕ) (s : Server D) (p : List (Instruction D))
      → CountedAt i s.dirty_nodes t.instructions p s
      → CountedAt i (finish env t s).dirty_nodes [] p (finish env t s)
  unfolding finish
  finish-Counted env t i s p v =
      let s1 = apply_instructions t.instructions s in
      let s2 = set_dirty_all env.rebased s1 in
      rw (SameLists-release_all t.instructions s2).dirty_nodes_eq (
        release_all-Counted i t.instructions s2 s2.dirty_nodes p (
          set_dirty_all-Counted env.rebased i s1 t.instructions p (
            rw (SameLists-apply t.instructions s).dirty_nodes_eq
              (apply_instructions-Counted i t.instructions s s.dirty_nodes t.instructions p v))))

  pub queued-finish :
      (env : Env D) (t : Transaction D) (s : Server D) → (finish env t s).queued_transaction ≡ none
  unfolding finish
  queued-finish env t s = refl

  pub finish-AllCounted :
      (env : Env D) (t : Transaction D) (s : Server D)
      → s.queued_transaction ≡ some t
      → AllCounted s
      → AllCounted (finish env t s)
  finish-AllCounted env t s e v i =
      rw (queued-finish env t s, pending-finish env t s)
        (finish-Counted env t i s (instructions_of s.pending_transaction) (rw e at (v i)))

  instructions-start_timer :
      (env : Env D) (w : ℕ) (t : Transaction D)
      → (start_timer env w t).instructions ≡ t.instructions
  unfolding start_timer
  instructions-start_timer env w t = ground arith

  -- The references of the pending transaction become those of the queued one.
  Counted-move :
      (i : ℕ) (n : Node D) (d : List ℕ) (p q : List (Instruction D)) (f : List ℕ)
      → refs i q ≡ refs i p
      → Counted i n d [] p f
      → Counted i n d q [] f
  Counted-move i n d p q f e v = ground arith

  queue-Counted :
      (env : Env D) (t : Transaction D) (i : ℕ) (s : Server D)
      → CountedAt i s.dirty_nodes [] t.instructions s
      → CountedAt i
          (queue env t s).dirty_nodes
          (instructions_of (queue env t s).queued_transaction)
          []
          (queue env t s)
  unfolding queue transaction_commit
  queue-Counted env t i s v =
      let s1 : Server D = record s { pending_transaction = none } in
      rw (instructions-start_timer, (SameLists-commit env t.instructions s1).dirty_nodes_eq)
        (Counted-move i _ _ t.instructions _ _ (refs-commit_instructions env i t.instructions s1)
          (commit_instructions-Counted env i t.instructions s1 s.dirty_nodes [] t.instructions v))

  pub pending-queue :
      (env : Env D) (t : Transaction D) (s : Server D) → (queue env t s).pending_transaction ≡ none
  unfolding queue transaction_commit
  pending-queue env t s =
      let s1 : Server D = record s { pending_transaction = none } in
      (SameLists-commit env t.instructions s1).pending_eq

  pub queue-AllCounted :
      (env : Env D) (t : Transaction D) (s : Server D)
      → s.queued_transaction ≡ none
      → s.pending_transaction ≡ some t
      → AllCounted s
      → AllCounted (queue env t s)
  queue-AllCounted env t s e p v i =
      rw (pending-queue env t s) (queue-Counted env t i s (rw (e, p) at (v i)))

  -- What finishing and queueing keep, `transaction_progress` keeps.
  pub progress_rule {ℓ} :
      (P : Server D → Type ℓ) (env : Env D)
      → ((t : Transaction D) (s : Server D)
          → s.queued_transaction ≡ some t
          → t.num_waiting ≡ 0
          → P s
          → P (finish env t s))
      → ((t : Transaction D) (s : Server D)
          → s.queued_transaction ≡ none
          → s.pending_transaction ≡ some t
          → P s
          → P (queue env t s))
      → (rounds : ℕ) (s : Server D) → P s
      → P (progress env rounds s)
  unfolding progress
  progress_rule P env ends starts zero s v = v
  progress_rule P env ends starts (suc rounds) s v = elim (Option-cases s.queued_transaction) [
    | inl e ↦ rw (e, progress) v
    | inr (t, e) ↦
        (let after = finish env t s in
          elim (ℕ-cases t.num_waiting) [
            | inr (k, w) ↦ rw (e, w, progress) v
            | inl w ↦ elim (Option-cases after.pending_transaction) [
              | inl none_left ↦ rw (e, w, none_left, progress) (ends t s e w v)
              | inr (p, left) ↦
                  rw (e, w, left, progress)
                    (progress_rule P env ends starts rounds (queue env p after)
                      (starts p after (queued-finish env t s) left (ends t s e w v)))
            ]
          ])
  ]

  pub progress-AllCounted :
      (env : Env D) (rounds : ℕ) (s : Server D) → AllCounted s → AllCounted (progress env rounds s)
  progress-AllCounted env =
      progress_rule AllCounted env (λ t s e w v. finish-AllCounted env t s e v)
        (λ t s e p v. queue-AllCounted env t s e p v)
