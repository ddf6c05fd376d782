-- ===== src/Protocol.antt =====
-- The protocol between the endpoints and the arbiter.
pub mod Codec
pub mod Conn
pub mod Hash
pub mod InWindow
pub mod Pacer
pub mod Reset
pub mod Rx
pub mod Window
mod Tests
