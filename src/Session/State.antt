-- ===== src/Session/State.antt =====
-- fusion_code_modelization/session/state.py: the states of a session, their transitions, and the
-- records. A time is a number of clock ticks, and a temperature is counted in thousandths.
pub mod Table
use fusion_code_modelization.Common.{
  ℕ, String, Bool, true, false, Option, none, some, List, [], ◌∷◌, ◌++◌, map, any, if◌then◌else◌,
}
use fusion_code_modelization.Common.Dict.{Dict}

pub data SessionState : Type 0 where
  idle running waiting_approval paused cluster_running completed failed : SessionState

-- `==` of the enum
abbrev pub state_eq : SessionState → SessionState → Bool
state_eq idle idle = true
state_eq running running = true
state_eq waiting_approval waiting_approval = true
state_eq paused paused = true
state_eq cluster_running cluster_running = true
state_eq completed completed = true
state_eq failed failed = true
state_eq _ _ = false

-- `_VALID_TRANSITIONS`
abbrev pub valid_transitions : SessionState → List SessionState
valid_transitions idle = running ∷ cluster_running ∷ []
valid_transitions running = waiting_approval ∷ paused ∷ cluster_running ∷ completed ∷ failed ∷ []
valid_transitions cluster_running = running ∷ paused ∷ completed ∷ failed ∷ []
valid_transitions waiting_approval = running ∷ paused ∷ failed ∷ []
valid_transitions paused = running ∷ cluster_running ∷ failed ∷ completed ∷ []
valid_transitions completed = []
valid_transitions failed = idle ∷ []

pub record SessionConfig : Type 0 where
  pub session_id : String
  pub name : String
  pub working_dir : String
  pub model : String
  pub temperature : ℕ
  pub max_tokens : ℕ
  pub security_mode : String
  pub allowed_dirs : List String
  pub cluster_nodes : List String
  pub metadata : Dict String

pub record SessionMessage : Type 0 where
  pub role : String
  pub content : String
  pub timestamp : ℕ
  pub metadata : Dict String

pub record Session : Type 0 where
  pub session_id : String
  pub name : String
  pub state : SessionState
  pub config : SessionConfig
  pub messages : List SessionMessage
  pub created_at : ℕ
  pub updated_at : ℕ
  pub error : String

unfoldable pub can_transition : Session → SessionState → Bool
can_transition s target = any (state_eq target) (valid_transitions s.state)

-- The session afterwards, and the returned Boolean.
unfoldable pub transition : Session → SessionState → Session × Bool
unfolding can_transition
transition s target =
    if can_transition s target then (record s { state = target }, true) else (s, false)

unfoldable pub add_message : Session → String → String → ℕ → Session
add_message s role content now = record s {
  messages =
      s.messages ++ record { role = role; content = content; timestamp = now; metadata = [] } ∷ [];
}

-- The dictionaries that `to_dict` writes and `_from_dict` reads: a field is `none` where the key
-- is missing.
pub record ConfigData : Type 0 where
  pub working_dir : Option String
  pub model : Option String
  pub temperature : Option ℕ
  pub max_tokens : Option ℕ
  pub security_mode : Option String
  pub allowed_dirs : Option (List String)
  pub cluster_nodes : Option (List String)

pub record MessageData : Type 0 where
  pub role : Option String
  pub content : Option String
  pub timestamp : Option ℕ

pub record SessionData : Type 0 where
  pub session_id : Option String
  pub name : Option String
  pub state : Option String
  pub config : Option ConfigData
  pub messages : Option (List MessageData)
  pub created_at : Option ℕ
  pub updated_at : Option ℕ
  pub error : Option String

-- `state.value`
abbrev pub state_value : SessionState → String
state_value idle = "idle"
state_value running = "running"
state_value waiting_approval = "waiting_approval"
state_value paused = "paused"
state_value cluster_running = "cluster_running"
state_value completed = "completed"
state_value failed = "failed"

abbrev pub message_data : SessionMessage → MessageData
message_data m = record {
  role = some m.role;
  content = some m.content;
  timestamp = some m.timestamp;
}

abbrev pub config_data : SessionConfig → ConfigData
config_data c = record {
  working_dir = some c.working_dir;
  model = some c.model;
  temperature = some c.temperature;
  max_tokens = some c.max_tokens;
  security_mode = some c.security_mode;
  allowed_dirs = some c.allowed_dirs;
  cluster_nodes = some c.cluster_nodes;
}

unfoldable pub to_dict : Session → SessionData
to_dict s = record {
  session_id = some s.session_id;
  name = some s.name;
  state = some (state_value s.state);
  config = some (config_data s.config);
  messages = some (map message_data s.messages);
  created_at = some s.created_at;
  updated_at = some s.updated_at;
  error = some s.error;
}
