-- ===== src/Input.antt =====
-- Input handling (sway/input, sway/commands/bind.c).
pub mod Shortcut
pub mod Binding
pub mod Focus
mod Tests
mod FocusTests
