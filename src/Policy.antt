-- ===== src/Policy.antt =====
-- native/projection/argo-projectiond/src/liveness.rs and failure.rs: when a peer counts as lost,
-- and which failures are tried again.
pub mod Liveness
pub mod Failure
mod Examples
