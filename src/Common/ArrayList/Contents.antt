-- ===== src/Common/ArrayList/Contents.antt =====
-- The operations of common/list.c on the sequence of items that a list holds.
use swirl.Prelude.{
  ℕ, zero, suc, ◌+◌, ◌-◌, ◌≤◌, ◌<◌, ◌≡◌, refl, ◌∙◌, ap, sym, arith, List, [], ◌∷◌, ◌++◌, length,
  take, drop, replicate, length-append, length-replicate, length-set, length-take, take-append-drop,
}
use mathlib.Core.List.{append-nil, append_assoc}
use native.Mathlib.Numerals.{add-one}
use swirl.Prelude.Moves.{
  memmove, take-append_le, take-set_end, take-insert, take-delete_one, length-memmove,
}
use swirl.Common.ArrayList.{
  ListT, memmove, create_list, list_resize, list_add, list_insert, list_del, add_items, list_cat,
  contents,
}

-- The buffer has as many cells as the capacity says, and the cells in use are among them.
pub record IsValid {A : Type 0} (l : ListT A) : Type 0 where
  pub cells : length l.items ≡ l.capacity
  pub fits : l.length ≤ l.capacity
  pub positive : 0 < l.capacity

module _ {A : Type 0} where
  pub length-contents : (l : ListT A) → IsValid l → length (contents l) ≡ l.length
  length-contents l v = omega (arith, length-take l.length l.items)

module _ {A : Type 0} (junk : A) where
  create_list-IsValid : IsValid (create_list junk)
  unfolding create_list
  create_list-IsValid = omega arith

  list_resize-IsValid :
      (l : ListT A)
      → IsValid l
      → IsValid (list_resize junk l)
        × ((list_resize junk l).length ≡ l.length)
        × (l.length < (list_resize junk l).capacity)
        × (contents (list_resize junk l) ≡ contents l)
  unfolding list_resize
  list_resize-IsValid l v = ground (
    arith,
    length-append l.items (replicate l.capacity junk),
    length-replicate l.capacity junk,
    take-append_le l.length l.items (replicate l.capacity junk),
  )

  pub list_add_lem :
      (l : ListT A) (item : A)
      → IsValid l
      → IsValid (list_add junk l item)
        × (contents (list_add junk l item) ≡ contents l ++ (item ∷ []))
  unfolding list_add
  list_add_lem l item v =
      let r = list_resize junk l in
      let (valid, same, room, held) = list_resize-IsValid l v in
      (
        record {
          cells = omega (arith, length-set r.items r.length item, valid);
          fits = omega (arith, same, room);
          positive = valid.positive;
        },
        rw add-one (
            take-set_end r.length r.items item (omega (arith, same, room, valid))
            ∙ ap (λ t. t ++ (item ∷ [])) held),
      )

  pub list_insert_lem :
      (l : ListT A) (i : ℕ) (item : A)
      → IsValid l
      → i ≤ l.length
      → IsValid (list_insert junk l i item)
        × (contents (list_insert junk l i item) ≡ take i (contents l) ++ item ∷ drop i (contents l))
  unfolding list_insert
  list_insert_lem l i item v h =
      let r = list_resize junk l in
      let (valid, same, room, held) = list_resize-IsValid l v in
      (
        record {
          cells = omega (
            arith,
            length-set (memmove (i + 1) i (r.length - i) r.items) i item,
            length-memmove (i + 1) i (r.length - i) r.items,
            same,
            room,
            valid,
          );
          fits = omega (arith, same, room);
          positive = valid.positive;
        },
        rw (add-one r.length, add-one i)
            (rw (← held) (
              take-insert i r.length r.items item (omega (arith, same, h))
                (omega (arith, same, room, valid)))),
      )

module _ {A : Type 0} where
  -- `list_del` takes the item at an index in use out of a valid list, which stays valid.
  pub list_del_lem :
      (l : ListT A) (i : ℕ)
      → IsValid l
      → i < l.length
      → IsValid (list_del l i)
        × (contents (list_del l i) ≡ take i (contents l) ++ drop (i + 1) (contents l))
  unfolding list_del
  list_del_lem l i v h = (
    record {
      cells = omega (arith, length-memmove i (i + 1) (l.length - 1 - i) l.items, v);
      fits = omega (arith, v);
      positive = v.positive;
    },
    take-delete_one i (l.length - 1) l.length l.items (omega arith) h (omega (arith, v)),
  )

module _ {A : Type 0} (junk : A) where
  add_items_lem :
      (l : ListT A) (xs : List A)
      → IsValid l
      → IsValid (add_items junk l xs) × (contents (add_items junk l xs) ≡ contents l ++ xs)
  unfolding add_items
  add_items_lem l [] v = (v, sym (append-nil (contents l)))
  add_items_lem l (x ∷ xs) v =
      let (valid, held) = list_add_lem junk l x v in
      let (valid', held') = add_items_lem (list_add junk l x) xs valid in
      (valid', held' ∙ ap (λ t. t ++ xs) held ∙ append_assoc (contents l) (x ∷ []) xs)

  -- What each operation that extends a list leaves in a valid one, which stays valid: `list_add` puts
  -- the item last, `list_cat` appends the items of another list, and `list_insert` puts the item
  -- before those from its index on, where the index is not past the end.
  pub operations_lem :
      (l source : ListT A) (item : A) (i : ℕ)
      → IsValid l
      → i ≤ l.length
      → (IsValid (list_add junk l item)
          × (contents (list_add junk l item) ≡ contents l ++ item ∷ []))
        × (IsValid (list_cat junk l source)
            × (contents (list_cat junk l source) ≡ contents l ++ contents source))
        × (IsValid (list_insert junk l i item)
            × (contents (list_insert junk l i item)
                ≡ take i (contents l) ++ item ∷ drop i (contents l)))
  unfolding list_cat
  operations_lem l source item i v h = (
    list_add_lem junk l item v,
    add_items_lem l (contents source) v,
    list_insert_lem junk l i item v h,
  )

  take-inserted :
      (i : ℕ) (xs : List A) (x : A)
      → i ≤ length xs
      → (take i (take i xs ++ x ∷ drop i xs) ≡ take i xs)
        × (drop (suc i) (take i xs ++ x ∷ drop i xs) ≡ drop i xs)
  take-inserted zero xs x h = (refl, refl)
  take-inserted (suc i) [] x h = absurd (omega arith)
  take-inserted (suc i) (y ∷ ys) x h =
      let (a, b) = take-inserted i ys x (omega arith) in (ap (λ t. y ∷ t) a, b)

  length-list_insert :
      (l : ListT A) (i : ℕ) (item : A)
      → IsValid l
      → (list_insert junk l i item).length ≡ l.length + 1
  unfolding list_insert
  length-list_insert l i item v =
      let (valid, same, room, held) = list_resize-IsValid junk l v in omega (arith, same)

  -- Inserting an item into a valid list at an index that is not past the end, and deleting at that
  -- index, gives back the items of the list.
  pub list_del-list_insert :
      (l : ListT A) (i : ℕ) (item : A)
      → IsValid l
      → i ≤ l.length
      → contents (list_del (list_insert junk l i item) i) ≡ contents l
  list_del-list_insert l i item v h =
      let (valid, held) = list_insert_lem junk l i item v h in
      (list_del_lem (list_insert junk l i item) i valid
        (omega (arith, length-list_insert l i item v))).1
      ∙ restored
    where
      restored :
          take i (contents (list_insert junk l i item))
            ++ drop (i + 1) (contents (list_insert junk l i item))
          ≡ contents l
      restored =
          let held = (list_insert_lem junk l i item v h).1 in
          let (a, b) = take-inserted i (contents l) item (omega (arith, length-contents l v)) in
          rw (held, add-one i, a, b) (take-append-drop i (contents l))
