-- ===== src/Tree/Types.antt =====
-- The enumerations and states of include/sway/tree/{node,container,workspace}.h and
-- include/sway/output.h. A pointer to a node is the node's number; `D` is the type `double`.
use swirl.Prelude.{ℕ, Bool, Option, List}
use swirl.Prelude.Int.{ℤ}

-- `enum sway_container_layout`
pub data Layout : Type 0 where
  l_none l_horiz l_vert l_stacked l_tabbed : Layout

-- `enum sway_container_border`
pub data Border : Type 0 where
  b_none b_pixel b_normal b_csd : Border

-- `enum sway_fullscreen_mode`
pub data FullscreenMode : Type 0 where
  fullscreen_none fullscreen_workspace fullscreen_global : FullscreenMode

-- `struct sway_output_state`
pub record OutputState : Type 0 where
  pub workspaces : List ℕ
  pub active_workspace : Option ℕ

-- `struct sway_workspace_state`
pub record WorkspaceState (D : Type 0) : Type 0 where
  pub fullscreen : Option ℕ
  pub x : D
  pub y : D
  pub width : ℤ
  pub height : ℤ
  pub layout : Layout
  pub output : Option ℕ
  pub floating : List ℕ
  pub tiling : List ℕ
  pub focused_inactive_child : Option ℕ
  pub focused : Bool

-- `struct sway_container_state`; `children` is NULL in the state of a view.
pub record ContainerState (D : Type 0) : Type 0 where
  pub layout : Layout
  pub x : D
  pub y : D
  pub width : D
  pub height : D
  pub fullscreen_mode : FullscreenMode
  pub workspace : Option ℕ
  pub parent : Option ℕ
  pub children : Option (List ℕ)
  pub focused_inactive_child : Option ℕ
  pub focused : Bool
  pub border : Border
  pub border_thickness : ℤ
  pub border_top : Bool
  pub border_bottom : Bool
  pub border_left : Bool
  pub border_right : Bool
  pub content_x : D
  pub content_y : D
  pub content_width : D
  pub content_height : D

-- What the transaction code reads and writes of a `struct sway_view`.
pub record View : Type 0 where
  pub is_xwayland : Bool
  pub has_surface : Bool
  pub saved_surface_tree : Bool

-- `struct sway_output`, as far as transactions copy it.
pub record Output : Type 0 where
  pub workspaces : List ℕ
  pub current : OutputState

-- `struct sway_workspace`, as far as transactions copy it.
pub record Workspace (D : Type 0) : Type 0 where
  pub fullscreen : Option ℕ
  pub x : D
  pub y : D
  pub width : ℤ
  pub height : ℤ
  pub layout : Layout
  pub output : Option ℕ
  pub floating : List ℕ
  pub tiling : List ℕ
  pub current : WorkspaceState D

-- `struct sway_container`, as far as transactions copy it.
pub record Container (D : Type 0) : Type 0 where
  pub view : Option View
  pub pending : ContainerState D
  pub current : ContainerState D

-- The union of `struct sway_node`: its constructor is the node's `enum sway_node_type`.
pub data Thing (D : Type 0) : Type 0 where
  n_root : Thing D
  n_output : Output → Thing D
  n_workspace : Workspace D → Thing D
  n_container : Container D → Thing D

-- `struct sway_node`. `instruction` is the address of an instruction.
pub record Node (D : Type 0) : Type 0 where
  pub thing : Thing D
  pub instruction : Option ℕ
  pub ntxnrefs : ℕ
  pub destroying : Bool
  pub dirty : Bool
