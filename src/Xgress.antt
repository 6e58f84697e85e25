-- ===== src/Xgress.antt =====
-- The package xgress: payloads and acknowledgements, their wire forms, the send and receive
-- buffers of a circuit, the retransmitter, and the life of a circuit's endpoint.
pub mod WriteAdapter
pub mod Messages
pub mod Channel
pub mod Wire
pub mod Chunks
pub mod Receive
pub mod Send
pub mod Lifecycle
pub mod Retransmitter
pub mod Options
mod Examples
