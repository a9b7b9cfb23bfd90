-- ===== src/Media/Stream.antt =====
-- media/stream.go: one RTP stream. This file has the state; the children have its operations, and
-- below them stand the proofs. The lock makes each operation one step, so an operation is a
-- function from a state to a state. The estimate of the jitter, a float that nothing else reads,
-- is left out: `jitter` gives the differences that it averages. Clock readings are arguments.
pub mod Rx
pub mod Dtmf
pub mod State
pub mod Negotiation
pub mod Sender
pub mod Receiver
pub mod EndToEnd
pub mod Valid
