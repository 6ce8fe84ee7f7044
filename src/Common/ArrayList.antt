-- ===== src/Common/ArrayList.antt =====
-- The growing arrays of common/list.c, which hold every list of the program. A list is its buffer
-- with the number of cells in use; the cells past these hold whatever `malloc` and `realloc` left.
-- Indices are those that the code may use: none is negative or past the end.
pub mod Contents
pub mod Search
pub mod Sort
use swirl.Prelude.{
  ℕ, zero, suc, ◌+◌, ◌-◌, ◌*◌, ◌==◌, ltb, leb, Bool, true, false, Option, none, some, List, [], ◌∷◌,
  ◌++◌, if◌then◌else◌, length, get_elem?, set, take, drop, replicate,
}
use swirl.Prelude.Moves.{memmove}
use swirl.Prelude.Int.{ℤ, pos, negsuc}

-- `list_t`
pub record ListT (A : Type 0) : Type 0 where
  pub capacity : ℕ
  pub length : ℕ
  pub items : List A

-- What lies in memory that was never written.
module _ {A : Type 0} (junk : A) where
  unfoldable pub create_list : ListT A
  create_list = record { capacity = 10; length = 0; items = replicate 10 junk }

  unfoldable pub list_resize : ListT A → ListT A
  list_resize l =
      if l.length == l.capacity
      then record l { capacity = l.capacity * 2; items = l.items ++ replicate l.capacity junk }
      else l

  unfoldable pub list_add : ListT A → A → ListT A
  unfolding list_resize
  list_add l item =
      let r = list_resize l in record r { items = set r.items r.length item; length = r.length + 1 }

  unfoldable pub list_insert : ListT A → ℕ → A → ListT A
  unfolding list_resize
  list_insert l index item =
      let r = list_resize l in
      record r {
        items = set (memmove (index + 1) index (r.length - index) r.items) index item;
        length = r.length + 1;
      }

  -- The loop of `list_cat` over the items of a source that is another list.
  unfoldable pub add_items : ListT A → List A → ListT A
  unfolding list_add
  add_items l [] = l
  add_items l (x ∷ xs) = add_items (list_add l x) xs

  unfoldable pub list_cat : ListT A → ListT A → ListT A
  unfolding add_items
  list_cat l source = add_items l (take source.length source.items)

module _ {A : Type 0} where
  -- The cells in use.
  abbrev pub contents : ListT A → List A
  contents l = take l.length l.items

  unfoldable pub list_del : ListT A → ℕ → ListT A
  list_del l index = record l {
    length = l.length - 1;
    items = memmove index (index + 1) (l.length - 1 - index) l.items;
  }

  -- The search loops from the index `i` on: the first item that passes the test.
  unfoldable pub search_from : (A → Bool) → ℕ → List A → ℤ
  search_from test i [] = negsuc 0
  search_from test i (x ∷ xs) =
      let rest = search_from test (i + 1) xs in if test x then pos i else rest

  -- `list_seq_find`, for `compare(item, data) == 0` as a test.
  unfoldable pub list_seq_find : ListT A → (A → Bool) → ℤ
  unfolding search_from
  list_seq_find l test = search_from test 0 (contents l)

-- `list_find`, over the equality of pointers.
unfoldable pub list_find : ListT ℕ → ℕ → ℤ
unfolding search_from
list_find l item = search_from (λ x. x == item) 0 (contents l)

module _ {A : Type 0} where
  -- `list_swap`; a read out of range does not happen.
  unfoldable pub list_swap : ListT A → ℕ → ℕ → ListT A
  list_swap l src dest = elim (get_elem? l.items src) [
    | none ↦ l
    | some tmp ↦ elim (get_elem? l.items dest) [
      | none ↦ l
      | some x ↦ record l { items = set (set l.items src x) dest tmp }
    ]
  ]

-- The first loop of `list_move_to_end`: the index of the item, or the length.
unfoldable pub index_from : ℕ → ℕ → List ℕ → ℕ
index_from item i [] = i
index_from item i (x ∷ xs) = let rest = index_from item (i + 1) xs in if x == item then i else rest

-- `list_move_to_end`; a failed assertion leaves the list as it is.
unfoldable pub list_move_to_end : ℕ → ListT ℕ → ℕ → ListT ℕ
unfolding index_from list_del list_add
list_move_to_end junk l item =
    let i = index_from item 0 (contents l) in
    if ltb i l.length then list_add junk (list_del l i) item else l
