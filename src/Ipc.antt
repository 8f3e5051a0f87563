-- ===== src/Ipc.antt =====
-- native/projection/argo-projectiond/src/ipc.rs: the messages between the daemon and its clients.
pub mod Frames
pub mod Framing
pub mod RoundTrip
pub mod Payload
pub mod Queue
mod Examples
