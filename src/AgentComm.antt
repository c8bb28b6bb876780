-- ===== src/AgentComm.antt =====
-- fusion_code_modelization/agent_comm: channels between agents, and the coordinator above them.
pub mod Models
pub mod Channel
pub mod Coordinator
mod Tests
