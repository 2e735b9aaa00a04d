-- ===== src/Runtime.antt =====
-- crates/omni-runtime: the daemon, which wires the components together, and what it remembers.
pub mod Trust
pub mod Identity
pub mod Config
pub mod Daemon
pub mod Together
