-- ===== src/Session.antt =====
-- fusion_code_modelization/session: the state machine, the store on disk and the engine.
pub mod State
pub mod Store
pub mod Engine
pub mod Chat
mod Tests
