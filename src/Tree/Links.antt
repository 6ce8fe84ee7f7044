-- ===== src/Tree/Links.antt =====
-- The links of the pending tree: `pending.parent`, `pending.workspace` and `pending.children` of
-- include/sway/tree/container.h, `tiling` and `floating` of include/sway/tree/workspace.h, and the
-- functions of sway/tree/container.c that only follow or write them. Each field is a function
-- from the node's number; the children of a view, whose list is NULL, are no nodes. The
-- recursion into children, and the loops up to the parents, take a depth.
pub mod Counts
pub mod Depth
pub mod Agree
pub mod Moves
pub mod Free
pub mod Beside
use swirl.Prelude.{
  ℕ, zero, suc, ◌==◌, Bool, true, false, not, ◌||◌, Option, none, some, List, [], ◌∷◌,
  if◌then◌else◌, length,
}
use swirl.Prelude.Members.{member, unlink, index_of}

pub record Links : Type 0 where
  pub parent : ℕ → Option ℕ
  pub workspace : ℕ → Option ℕ
  pub children : ℕ → List ℕ
  pub tiling : ℕ → List ℕ
  pub floating : ℕ → List ℕ

-- A write to a field of the node `i`.
abbrev pub set_at {ℓ} : {A : Type ℓ} → (ℕ → A) → ℕ → A → ℕ → A
set_at f i a j = if i == j then a else f j

-- The list that a container stands in: the children of a container, or one of the lists of a
-- workspace.
pub data Siblings : Type 0 where
  of_children of_tiling of_floating : ℕ → Siblings

abbrev pub items : Links → Siblings → List ℕ
items l (of_children p) = l.children p
items l (of_tiling w) = l.tiling w
items l (of_floating w) = l.floating w

abbrev pub set_items : Links → Siblings → List ℕ → Links
set_items l (of_children p) xs = record l { children = set_at l.children p xs }
set_items l (of_tiling w) xs = record l { tiling = set_at l.tiling w xs }
set_items l (of_floating w) xs = record l { floating = set_at l.floating w xs }

-- The lists of `container->pending.workspace`.
abbrev workspace_list : Links → ℕ → Option ℕ → Option Siblings
workspace_list l c none = none
workspace_list l c (some w) = some (if member c (l.tiling w) then of_tiling w else of_floating w)

abbrev siblings_of : Links → ℕ → Option ℕ → Option Siblings
siblings_of l c (some p) = some (of_children p)
siblings_of l c none = workspace_list l c (l.workspace c)

unfoldable pub container_get_siblings : Links → ℕ → Option Siblings
container_get_siblings l c = siblings_of l c (l.parent c)

-- `container_sibling_index` of a container that stands in its list.
unfoldable pub container_sibling_index : Links → ℕ → ℕ
unfolding container_get_siblings
container_sibling_index l c = elim (container_get_siblings l c) [
  | none ↦ 0
  | some s ↦ index_of c (items l s)
]

-- `set_workspace`, for a container with a parent.
unfoldable pub set_workspace : ℕ → Links → Links
set_workspace c l = elim (l.parent c) [
  | none ↦ l
  | some p ↦ record l { workspace = set_at l.workspace c (l.workspace p) }
]

-- `container_for_each_child(container, set_workspace, NULL)` over the children of a container.
unfoldable pub each_set_workspace : ℕ → List ℕ → Links → Links
unfolding set_workspace
each_set_workspace zero cs l = l
each_set_workspace (suc depth) [] l = l
each_set_workspace (suc depth) (c ∷ cs) l =
    let l' = set_workspace c l in
    each_set_workspace (suc depth) cs (each_set_workspace depth (l'.children c) l')

-- `if (index != -1) list_del(siblings, index)`
abbrev pub remove_sibling : ℕ → Option Siblings → Links → Links
remove_sibling c none l = l
remove_sibling c (some s) l = set_items l s (unlink c (items l s))

-- `container_detach` up to its loop over the descendants.
unfoldable pub remove_links : ℕ → Links → Links
unfolding container_get_siblings
remove_links c l =
    let l1 = remove_sibling c (container_get_siblings l c) l in
    record l1 { parent = set_at l1.parent c none; workspace = set_at l1.workspace c none }

-- The part of `container_detach` that writes the links.
unfoldable pub detach_links : ℕ → ℕ → Links → Links
unfolding remove_links each_set_workspace
detach_links depth c l = let l1 = remove_links c l in each_set_workspace depth (l1.children c) l1

-- `if (child->pending.workspace) container_detach(child);`
unfoldable pub detach_placed : ℕ → ℕ → Links → Links
unfolding detach_links
detach_placed depth c l = elim (l.workspace c) [ none ↦ l | some w ↦ detach_links depth c l ]

-- The container `c` gets a place in the list `s`, where `xs` is the new list.
unfoldable pub put_links : ℕ → Siblings → List ℕ → Option ℕ → Option ℕ → Links → Links
put_links c s xs p w l =
    let l1 = set_items l s xs in
    record l1 { parent = set_at l1.parent c p; workspace = set_at l1.workspace c w }

-- The same, and its descendants get its workspace.
unfoldable pub place_links : ℕ → ℕ → Siblings → List ℕ → Option ℕ → Option ℕ → Links → Links
unfolding put_links each_set_workspace
place_links depth c s xs p w l =
    let l1 = put_links c s xs p w l in each_set_workspace depth (l1.children c) l1

-- `container_has_ancestor`
unfoldable pub ancestor_from : ℕ → Option ℕ → ℕ → Links → Bool
ancestor_from zero o a l = false
ancestor_from (suc depth) none a l = false
ancestor_from (suc depth) (some p) a l = p == a || ancestor_from depth (l.parent p) a l

unfoldable pub container_has_ancestor : ℕ → ℕ → ℕ → Links → Bool
unfolding ancestor_from
container_has_ancestor depth c a l = ancestor_from depth (l.parent c) a l

-- `container_toplevel_ancestor`
unfoldable pub container_toplevel_ancestor : ℕ → ℕ → Links → ℕ
container_toplevel_ancestor zero c l = c
container_toplevel_ancestor (suc depth) c l = elim (l.parent c) [
  | none ↦ c
  | some p ↦ container_toplevel_ancestor depth p l
]
