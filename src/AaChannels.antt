-- ===== src/AaChannels.antt =====
-- native/projection/argo-projectiond/src/aa_channels.rs: the messages on the channels of an
-- Android Auto session.
pub mod Proto
pub mod Display
pub mod Formats
pub mod Discovery
pub mod State
pub mod Streams
pub mod Handle
pub mod Steps
pub mod Invariant
pub mod Safety
pub mod Streaming
pub mod Delivery
pub mod Touch
pub mod WireIds
pub mod Contacts
pub mod Gesture
mod Examples
