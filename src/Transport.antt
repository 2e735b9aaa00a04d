-- ===== src/Transport.antt =====
-- crates/omni-transport/src: messages in frames on the reliable streams, messages as datagrams, and
-- the check of a peer's certificate. The network, the cryptography and the encoding of messages are
-- external libraries'.
pub mod Frames
pub mod Loopback
pub mod Tls
