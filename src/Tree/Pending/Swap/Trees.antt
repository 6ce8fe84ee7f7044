-- ===== src/Tree/Pending/Swap/Trees.antt =====
-- The exchanges of sway/tree/workspace.c on the links of the pending tree.
use Prim.Native.Nat.{min}
use swirl.Prelude.{
  ℕ, suc, ◌+◌, ◌==◌, ◌≡◌, ◌∙◌, arith, true, false, ◌&&◌, Option, none, some, List, [], ◌∷◌, ◌++◌,
  if◌then◌else◌, length, inl, inr, Bool-cases, ==_iff,
}
use swirl.Prelude.Members.{
  member, unlink, insert_at, index_of, occurrences, occurrences-unlink, occurrences-insert_at,
}
use swirl.Tree.Links.{Links, set_at, Siblings, of_tiling, of_floating, items, put_links}
use swirl.Tree.Links.Counts.{Fits, in_tiling, in_floating}
use swirl.Tree.Links.Depth.{Within}
use swirl.Tree.Links.Moves.{IsTree}
use swirl.Tree.Links.Free.{
  IsFree, detach_links-Within, detach_links-IsFree, detach_links-stays-IsFree,
}
use swirl.Tree.Pending.{Pending, set_dirty, container_detach}
use swirl.Tree.Pending.Fullscreen.{container_handle_fullscreen_reparent}
use swirl.Tree.Pending.Reparent.Trees.{occurrences-add}
use swirl.Tree.Pending.Reparent.Frames.{links-set_dirty, links-reparent, links-container_detach}
use swirl.Tree.Pending.Swap.Settled.{exchange_links-IsTree}
use swirl.Tree.Pending.Swap.{
  swap_in_list, adj, exchange_links, exchange, detach_both, all_dirty, swap_across, swap_within,
  swap_columns_in, workspace_swap_columns, with_workspaces, swap_floating_in,
  workspace_swap_floating,
}

occurrences-moved :
    (x k c : ℕ) (cs : List ℕ)
    → member c cs ≡ true
    → occurrences x (insert_at k c (unlink c cs)) ≡ occurrences x cs
occurrences-moved x k c cs h =
    ground (arith, occurrences-insert_at x k c (unlink c cs), occurrences-unlink x c cs)

occurrences-swap_in_list :
    (x a b : ℕ) (cs : List ℕ)
    → member a cs ≡ true
    → occurrences x (swap_in_list a b cs) ≡ occurrences x cs
occurrences-swap_in_list x a b cs h =
    let moved = insert_at (adj a b cs) a (unlink a cs) in
    let same = occurrences-moved x (adj a b cs) a cs h in
    elim (Bool-cases (member b moved)) [
      | inl e ↦ rw (swap_in_list, e) (occurrences-moved x (index_of a cs) b moved e ∙ same)
      | inr e ↦ rw (swap_in_list, e) same
    ]

-- A list of columns in another order.
reordered-IsTree :
    (w : ℕ) (cs : List ℕ) (l : Links)
    → ((x : ℕ) → occurrences x cs ≡ occurrences x (l.tiling w))
    → IsTree l
    → IsTree (record l { tiling = set_at l.tiling w cs })
reordered-IsTree w cs l same v = record {
  linked = λ x a. (
    (v.linked x a).0,
    elim (Bool-cases (w == a)) [
      | inl e ↦ (let here = (==_iff w a).0 e in rw (e, same x, here) (v.linked x a).1)
      | inr e ↦ rw e (v.linked x a).1
    ],
  );
  agrees = v.agrees;
}

-- Two different containers with workspaces, detached one after the other, are both free.
detach_both-IsFree :
    (depth a b : ℕ) (t : Pending)
    → (a == b) ≡ false
    → IsTree t.links
    → Within t.children (suc depth) (a ∷ [])
    → Within t.children (suc depth) (b ∷ [])
    → IsFree depth a (detach_both depth a b t).links
      × IsFree depth b (detach_both depth a b t).links
detach_both-IsFree depth a b t other v ha hb =
    let t1 = container_detach depth a t in
    let free = detach_links-IsFree depth a t.links v ha in
    let below = detach_links-Within depth a b t.links hb in
    let back : (b == a) ≡ false = ground (arith, other) in
    rw (links-container_detach depth b t1, links-container_detach depth a t)
      (
        detach_links-stays-IsFree depth b a _ back free below,
        detach_links-IsFree depth b _ free.tree below,
      )

links-all_dirty : (wa wb a b : ℕ) (t : Pending) → (all_dirty wa wb a b t).links ≡ t.links
links-all_dirty wa wb a b t =
    links-set_dirty b _ ∙ links-set_dirty a _ ∙ links-set_dirty wb _ ∙ links-set_dirty wa t

links-exchange :
    (depth a b : ℕ) (sa sb : Siblings) (xa xb : List ℕ) (wa wb : ℕ) (t : Pending)
    → (exchange depth a b sa sb xa xb wa wb t).links
      ≡ exchange_links depth a b sa sb xa xb wa wb t.links
unfolding exchange
links-exchange depth a b sa sb xa xb wa wb t =
    let t1 = record t { links = exchange_links depth a b sa sb xa xb wa wb t.links } in
    links-reparent depth b (container_handle_fullscreen_reparent depth a t1)
    ∙ links-reparent depth a t1

-- What both swaps do with containers that stand on two workspaces.
exchange-IsTree :
    (depth a b wa wb : ℕ) (sa sb : Siblings) (xa xb : List ℕ) (t : Pending)
    → (a == b) ≡ false
    → Fits sa none (some wb)
    → Fits sb none (some wa)
    → IsFree depth a t.links × IsFree depth b t.links
    → ((x : ℕ) → occurrences x xa ≡ (if a == x then 1 else 0) + occurrences x (items t.links sa))
    → ((x : ℕ)
        → occurrences x xb
          ≡ (if b == x then 1 else 0)
            + occurrences x (items (put_links a sa xa none (some wb) t.links) sb))
    → IsTree (all_dirty wa wb a b (exchange depth a b sa sb xa xb wa wb t)).links
exchange-IsTree depth a b wa wb sa sb xa xb t other fits_a fits_b (fa, fb) more_a more_b =
    rw
      (
        links-all_dirty wa wb a b (exchange depth a b sa sb xa xb wa wb t),
        links-exchange depth a b sa sb xa xb wa wb t,
      )
      (exchange_links-IsTree depth a b wa wb sa sb xa xb t.links other fits_a fits_b fa fb more_a
        more_b)

swap_across-IsTree :
    (depth a b wa wb : ℕ) (t : Pending)
    → (a == b) ≡ false
    → (wa == wb) ≡ false
    → IsTree t.links
    → Within t.children (suc depth) (a ∷ [])
    → Within t.children (suc depth) (b ∷ [])
    → IsTree (swap_across depth a b wa wb t).links
unfolding swap_across put_links
swap_across-IsTree depth a b wa wb t other apart v ha hb =
    let t1 = detach_both depth a b t in
    let idx_a = min (index_of a (t.tiling wa)) (length (t1.tiling wb)) in
    let idx_b = min (index_of b (t.tiling wb)) (length (t1.tiling wa)) in
    let back : (wb == wa) ≡ false = ground (arith, apart) in
    exchange-IsTree depth a b wa wb (of_tiling wb) (of_tiling wa) (insert_at idx_a a (t1.tiling wb))
      (insert_at idx_b b (t1.tiling wa)) t1 other (in_tiling wb) (in_tiling wa)
      (detach_both-IsFree depth a b t other v ha hb)
      (λ x. occurrences-insert_at x idx_a a (t1.tiling wb))
      (λ x. rw back (occurrences-insert_at x idx_b b (t1.tiling wa)))

pub links-swap_within :
    (a b w : ℕ) (t : Pending)
    → (swap_within a b w t).links
      ≡ record (t.links) { tiling = set_at t.tiling w (swap_in_list a b (t.tiling w)) }
unfolding swap_within
links-swap_within a b w t =
    let t1 = record t {
      links = record (t.links) { tiling = set_at t.tiling w (swap_in_list a b (t.tiling w)) };
    } in
    links-set_dirty b (set_dirty a (set_dirty w t1))
    ∙ links-set_dirty a (set_dirty w t1)
    ∙ links-set_dirty w t1

module _ (depth a b : ℕ) (t : Pending) (v : IsTree t.links)
    (ha : Within t.children (suc depth) (a ∷ []))
    (hb : Within t.children (suc depth) (b ∷ [])) where
  swap_columns_in-IsTree :
      (wa wb : ℕ) → (a == b) ≡ false → IsTree (swap_columns_in depth a b wa wb t).links
  unfolding swap_columns_in
  swap_columns_in-IsTree wa wb other =
      elim (Bool-cases (member a (t.tiling wa) && member b (t.tiling wb))) [
        | inr e ↦ rw (swap_columns_in, e) v
        | inl e ↦ elim (Bool-cases (wa == wb)) [
          | inr apart ↦
              rw (swap_columns_in, e, apart)
                (swap_across-IsTree depth a b wa wb t other apart v ha hb)
          | inl same ↦
              (let there : member a (t.tiling wa) ≡ true = ground (arith, e) in
                rw (swap_columns_in, e, same, links-swap_within a b wa t)
                  (reordered-IsTree wa (swap_in_list a b (t.tiling wa)) t.links
                    (λ x. occurrences-swap_in_list x a b (t.tiling wa) there) v))
        ]
      ]

  swap_floating_in-IsTree :
      (wa wb : ℕ) → (a == b) ≡ false → IsTree (swap_floating_in depth a b wa wb t).links
  unfolding swap_floating_in put_links
  swap_floating_in-IsTree wa wb other = elim (Bool-cases (wa == wb)) [
    | inl same ↦
        rw (swap_floating_in, same, links-set_dirty b (set_dirty a t), links-set_dirty a t) v
    | inr apart ↦
        (let t1 = detach_both depth a b t in
          let back : (wb == wa) ≡ false = ground (arith, apart) in
          rw (swap_floating_in, apart)
            (exchange-IsTree depth a b wa wb (of_floating wb) (of_floating wa)
              (t1.floating wb ++ a ∷ []) (t1.floating wa ++ b ∷ []) t1 other (in_floating wb)
              (in_floating wa) (detach_both-IsFree depth a b t other v ha hb)
              (λ x. occurrences-add x a (t1.floating wb))
              (λ x. rw back (occurrences-add x b (t1.floating wa)))))
  ]

  with_workspaces-IsTree :
      (oa ob : Option ℕ) (f : ℕ → ℕ → Pending → Pending)
      → ((wa wb : ℕ) → IsTree (f wa wb t).links)
      → IsTree (with_workspaces oa ob f t).links
  with_workspaces-IsTree none ob f h = v
  with_workspaces-IsTree (some wa) none f h = v
  with_workspaces-IsTree (some wa) (some wb) f h = h wa wb

  pub workspace_swap_columns-IsTree : IsTree (workspace_swap_columns depth a b t).links
  unfolding workspace_swap_columns
  workspace_swap_columns-IsTree = elim (Bool-cases (a == b)) [
    | inl same ↦ rw (workspace_swap_columns, same) v
    | inr other ↦
        rw (workspace_swap_columns, other)
          (with_workspaces-IsTree (t.workspace a) (t.workspace b) (swap_columns_in depth a b)
            (λ wa wb. swap_columns_in-IsTree wa wb other))
  ]

  pub workspace_swap_floating-IsTree : IsTree (workspace_swap_floating depth a b t).links
  unfolding workspace_swap_floating
  workspace_swap_floating-IsTree = elim (Bool-cases (a == b)) [
    | inl same ↦ rw (workspace_swap_floating, same) v
    | inr other ↦
        rw (workspace_swap_floating, other)
          (with_workspaces-IsTree (t.workspace a) (t.workspace b) (swap_floating_in depth a b)
            (λ wa wb. swap_floating_in-IsTree wa wb other))
  ]
