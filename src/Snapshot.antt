-- ===== src/Snapshot.antt =====
-- fusion_code_modelization/snapshot: what a snapshot holds, and how a project goes back to it.
pub mod Files
pub mod Delta
pub mod Manager
pub mod Restore
pub mod Cleanup
mod Tests
