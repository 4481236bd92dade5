-- ===== src/Transport.antt =====
-- The transports: src/transport.
pub mod Interface
pub mod DataMessages
pub mod Rtc
pub mod Sockets
pub mod Chunks
pub mod Peer
pub mod Relay
pub mod Signals
pub mod Mesh
pub mod Snapshots
pub mod Signaling
pub mod Guards
