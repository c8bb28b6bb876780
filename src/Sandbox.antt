-- ===== src/Sandbox.antt =====
-- fusion_code_modelization/sandbox: the policy, the guard and its audit log.
pub mod Paths
pub mod Policy
pub mod Guard
mod Tests
