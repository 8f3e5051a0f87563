-- ===== src/Configuration.antt =====
-- native/projection/argo-projectiond/src/configuration.rs: the sockets of the daemon, and the
-- display and the capabilities on the wire.
pub mod Endpoint
pub mod Display
pub mod Capabilities
mod Examples
