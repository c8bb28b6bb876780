-- ===== src/AgentComm/Models.antt =====
-- fusion_code_modelization/agent_comm/models.py. A timestamp is a number that grows with the
-- time.
use fusion_code_modelization.Common.{ℕ, String, Bool, true, false, List}
use fusion_code_modelization.Common.Dict.{Dict}

pub data MessageType : Type 0 where
  task_assignment result_delivery status_update conflict_report sync_request sync_response
        heartbeat :
      MessageType

pub data CollaborationStatus : Type 0 where
  pending active completed failed conflict : CollaborationStatus

-- `==` of the enum
abbrev pub status_eq : CollaborationStatus → CollaborationStatus → Bool
status_eq pending pending = true
status_eq active active = true
status_eq completed completed = true
status_eq failed failed = true
status_eq conflict conflict = true
status_eq _ _ = false

pub data AgentRole : Type 0 where
  lead worker reviewer integrator : AgentRole

-- The payloads that the package builds, and any dictionary of texts.
pub data Payload : Type 0 where
  fields : Dict String → Payload
  assignment : String → String → Dict AgentRole → Payload
  conflict_details : String → String → Dict String → Payload
  resolution : String → Dict String → Payload

pub record AgentMessage : Type 0 where
  pub message_id : String
  pub sender_id : String
  pub recipient_id : String
  pub channel_name : String
  pub message_type : MessageType
  pub payload : Payload
  pub timestamp : ℕ

pub record AgentChannel : Type 0 where
  pub name : String
  pub participants : List String
  pub created_at : ℕ
  pub is_active : Bool

pub record CollaborationTask : Type 0 where
  pub collaboration_id : String
  pub task_description : String
  pub agent_ids : List String
  pub roles : Dict AgentRole
  pub status : CollaborationStatus
  pub results : Dict (Dict String)
  pub channel_name : String
  pub created_at : ℕ
