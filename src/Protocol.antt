-- ===== src/Protocol.antt =====
-- crates/omni-protocol: the identifiers, input events, control messages and clipboard payloads
-- that the machines exchange, and the relabelling of modifier keys.
pub mod Ids
pub mod Input
pub mod Remap
pub mod Control
pub mod Clipboard
pub mod Wire
pub use Ids.*
pub use Input.*
pub use Remap.*
pub use Control.*
pub use Clipboard.*
