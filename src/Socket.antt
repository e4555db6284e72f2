-- ===== src/Socket.antt =====
-- src/socket.rs.
pub mod CloseCode
pub mod Message
pub mod Signal
pub mod Sink
pub mod Closing
pub mod Stream
pub mod Heartbeat
pub mod Tasks
mod Examples
