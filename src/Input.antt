-- ===== src/Input.antt =====
-- crates/omni-input: what turns input into protocol events and back.
pub mod Keymap
pub mod Scroll
pub mod Bounds
pub mod Linux
pub mod Windows
pub mod Macos
