-- ===== src/CarPlay/Ncm.antt =====
-- native/carplay/src/protocol/ncm.rs: the transfer blocks that carry Ethernet frames over USB.
pub mod Blocks
pub mod Disjoint
pub mod RoundTrip
mod Examples
