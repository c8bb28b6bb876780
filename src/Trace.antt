-- ===== src/Trace.antt =====
-- fusion_code_modelization/trace: the graph of artifacts and how they depend on each other.
pub mod Store
pub mod Tracker
pub mod Report
mod Tests
