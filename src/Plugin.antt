-- ===== src/Plugin.antt =====
-- fusion_code_modelization/plugin: the registry of plugins, and the manager that loads them.
pub mod Registry
pub mod Manager
mod Tests
