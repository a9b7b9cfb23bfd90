-- ===== src/Engine.antt =====
-- engine/: calls, and the client side of their INVITE transactions.
pub mod Call
pub mod Uac
pub mod Session
pub mod Handlers
pub mod Device
pub mod Saving
pub mod Transfer
pub mod Retransmission
pub mod Dialog
pub mod Incoming
mod Tests
