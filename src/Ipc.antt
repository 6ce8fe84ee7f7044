-- ===== src/Ipc.antt =====
-- The IPC between the compositor and its clients (sway/ipc-server.c, common/ipc-client.c).
pub mod Message
pub mod Client
pub mod Commands
pub mod Session
pub mod Response
pub mod Events
mod Tests
