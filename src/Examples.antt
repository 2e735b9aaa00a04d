-- ===== src/Examples.antt =====
-- The theorems at concrete inputs.
pub mod Calls
pub mod Desktop
pub mod Together
pub mod Apps
pub mod Frames
pub mod Peering
pub mod Settings
pub mod Peers
pub mod Devices
pub mod Windows
pub mod Macos
pub mod Requests
