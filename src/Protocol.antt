-- ===== src/Protocol.antt =====
-- crates/meshelf-protocol/src: the wire protocol. lib.rs has the handshake and its frames, v2.rs the
-- offers and fetches.
pub mod Messages
pub mod Paths
pub mod Manifest
pub mod Validate
pub mod Frame
pub mod Chunks
mod Tests
