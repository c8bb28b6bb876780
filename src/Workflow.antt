-- ===== src/Workflow.antt =====
-- fusion_code_modelization/workflow: plans and their execution.
pub mod Plan
pub mod Executor
mod Tests
