-- ===== src/CarPlay.antt =====
-- native/carplay/src/protocol: the transport-independent parts of the CarPlay receiver.
mod Defs
pub mod Iap2
pub mod Csm
pub mod Ncm
pub mod UsbMux
unfoldable pub use Defs.*
