-- ===== src/CarPlay/Iap2.antt =====
-- native/carplay/src/protocol/iap2.rs: frames with checksums, the link parameters, and the
-- window of frames that wait for an acknowledgement.
pub mod Frame
pub mod Sync
pub mod Window
mod Examples
