-- ===== src/Txn.antt =====
-- sway/desktop/transaction.c.
pub mod State
pub mod Add
pub mod Apply
pub mod Commit
pub mod Events
pub mod Refs
pub mod Counting
pub mod Balance
pub mod Safety
pub mod Liveness
pub mod Atomic
pub mod Held
pub mod Pointers
mod Tests
