-- ===== src/DaemonState.antt =====
-- native/projection/argo-projectiond/src/daemon_state.rs: what the daemon knows of its phone, and
-- the messages that bring the interface up to date.
pub mod Runtime
pub mod Notices
pub mod Encoding
pub mod View
pub mod Tracks
pub mod Messages
mod Examples
