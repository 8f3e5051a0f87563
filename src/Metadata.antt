-- ===== src/Metadata.antt =====
-- native/projection/argo-projectiond/src/metadata.rs: what the phone tells of its playback, its
-- battery and itself.
pub mod Wire
pub mod Parse
pub mod Artwork
pub mod Snapshot
mod Examples
