-- ===== src/Common.antt =====
-- The code that all programs of the repository share (common).
pub mod ArrayList
pub mod Split
pub mod Gesture
pub mod Util
mod Tests
