-- ===== src/AaSession.antt =====
-- native/projection/argo-projectiond/src/session.rs: Android Auto framing before TLS and the
-- version negotiation over it.
mod Frame
pub mod Framing
pub mod Push
pub mod RoundTrip
pub mod Version
pub mod Engine
mod Examples
unfoldable pub use Frame.*
