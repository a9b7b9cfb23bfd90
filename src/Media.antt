-- ===== src/Media.antt =====
-- The media package: the RTP side of a call.
pub mod G711
pub mod Codec
pub mod Sdp
pub mod Audio
pub mod Record
pub mod Stream
pub mod Scheduler
mod Tests
