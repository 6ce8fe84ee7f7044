-- ===== src/Tree.antt =====
-- The tree of nodes of sway/tree: its data, and the ancestors of a node.
pub mod Types
pub mod Ancestors
pub mod Links
pub mod Pending
pub mod Workspaces
mod Tests
mod SwapTests
mod FloatingTests
mod WorkspaceTests
