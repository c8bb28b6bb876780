-- ===== src/Agent.antt =====
-- fusion_code_modelization/core: the hooks, the agent loop, and the writer that asks the hooks.
pub mod Hooks
pub mod Loop
pub mod Writer
mod Tests
