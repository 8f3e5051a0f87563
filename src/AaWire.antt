-- ===== src/AaWire.antt =====
-- native/projection/argo-projectiond/src/aa_wire.rs: Android Auto framing after the version
-- exchange. Packets come off the transport, messages are put together per channel, and TLS
-- records go out as packets.
mod Defs
pub mod Packets
pub mod Messages
pub mod Outbound
mod Examples
unfoldable pub use Defs.*
