-- ===== src/CarPlay/Csm.antt =====
-- native/carplay/src/protocol/csm.rs: iAP2 control messages, the two that are built whole, and the order of the
-- authentication.
pub mod Parameters
pub mod Message
pub mod Builders
pub mod Authentication
mod Examples
