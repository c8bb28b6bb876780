-- ===== src/Session/Store.antt =====
-- fusion_code_modelization/session/store.py: one file for each session id. A file holds the
-- dictionary that was written as JSON, or text that is no JSON. `scrub` is `scrub_secrets` of
-- core/hooks.py, and `now` the value of `time.time()`.
pub mod Laws
use Prim.Native.Char.{code}
use fusion_code_modelization.Common.{
  ℕ, String, Bool, true, false, Option, none, some, List, [], ◌∷◌, map, all, length, leb, ◌==◌,
  ◌&&◌, ◌||◌, if◌then◌else◌,
}
use fusion_code_modelization.Common.Dict
use fusion_code_modelization.Common.Dict.{Dict}
use fusion_code_modelization.Session.State.{
  SessionState, idle, running, waiting_approval, paused, cluster_running, completed, failed,
  Session, SessionConfig, SessionMessage, SessionData, ConfigData, MessageData, to_dict,
}

pub data SessionFile : Type 0 where
  json : SessionData → SessionFile
  garbage : SessionFile

abbrev pub Files : Type 0
Files = Dict SessionFile

abbrev codes : String → List ℕ
codes String.[] = []
codes (String.◌∷◌ c s) = code c ∷ codes s

-- `[A-Za-z0-9_\-]`
abbrev is_id_char : ℕ → Bool
is_id_char c =
    (leb b'A' c && leb c b'Z')
    || (leb b'a' c && leb c b'z')
    || (leb b'0' c && leb c b'9')
    || (leb 95 c && leb c 95)
    || (leb 45 c && leb c 45)

-- `$` also matches in front of a newline that ends the text.
abbrev strip_newline : List ℕ → List ℕ
strip_newline [] = []
strip_newline (c ∷ []) = if leb 10 c && leb c 10 then [] else c ∷ []
strip_newline (c ∷ d ∷ cs) = c ∷ strip_newline (d ∷ cs)

-- `_validate_session_id`: `false` is the `ValueError`.
unfoldable pub is_valid_id : String → Bool
is_valid_id sid =
    let body = strip_newline (codes sid) in
    all is_id_char body && leb 1 (length body) && leb (length body) 128

abbrev pub default_local_model : String
default_local_model = "Qwen3.5-9B-4bit"

abbrev get_or {ℓ} : {A : Type ℓ} → Option A → A → A
get_or none d = d
get_or (some a) d = a

-- `SessionState(value)`; `none` is the `ValueError`.
abbrev pub state_of_value : String → Option SessionState
state_of_value v =
    if v == "idle"
    then some idle
    else if v == "running"
    then some running
    else if v == "waiting_approval"
    then some waiting_approval
    else if v == "paused"
    then some paused
    else if v == "cluster_running"
    then some cluster_running
    else if v == "completed"
    then some completed
    else if v == "failed"
    then some failed
    else none

abbrev message_of : MessageData → SessionMessage
message_of m = record {
  role = get_or m.role "";
  content = get_or m.content "";
  timestamp = get_or m.timestamp 0;
  metadata = [];
}

abbrev no_config : ConfigData
no_config = record {
  working_dir = none;
  model = none;
  temperature = none;
  max_tokens = none;
  security_mode = none;
  allowed_dirs = none;
  cluster_nodes = none;
}

abbrev config_of : SessionData → SessionConfig
config_of d =
    let c = get_or d.config no_config in
    record {
      session_id = get_or d.session_id "";
      name = get_or d.name "";
      working_dir = get_or c.working_dir "";
      model = get_or c.model default_local_model;
      temperature = get_or c.temperature 100;
      max_tokens = get_or c.max_tokens 4096;
      security_mode = get_or c.security_mode "manual";
      allowed_dirs = get_or c.allowed_dirs [];
      cluster_nodes = get_or c.cluster_nodes [];
      metadata = [];
    }

abbrev session_of : SessionData → SessionState → Session
session_of d state = record {
  session_id = get_or d.session_id "";
  name = get_or d.name "";
  state = state;
  config = config_of d;
  messages = map message_of (get_or d.messages []);
  created_at = get_or d.created_at 0;
  updated_at = get_or d.updated_at 0;
  error = get_or d.error "";
}

-- `_from_dict`
unfoldable pub from_dict : SessionData → Option Session
from_dict d = elim (state_of_value (get_or d.state "idle")) [
  | none ↦ none
  | some st ↦ some (session_of d st)
]

abbrev scrub_message : (String → String) → MessageData → MessageData
scrub_message scrub m = record m { content = some (scrub (get_or m.content "")) }

abbrev scrub_messages : (String → String) → SessionData → SessionData
scrub_messages scrub d = record d {
  messages = some (map (scrub_message scrub) (get_or d.messages []));
}

-- The session, whose `updated_at` it moves, and the files; `none` is the `ValueError`.
unfoldable pub save : (String → String) → ℕ → Session → Files → Option (Session × Files)
save scrub now session files =
    let s = record session { updated_at = now } in
    if is_valid_id s.session_id
    then some (s, Dict.set files s.session_id (json (scrub_messages scrub (to_dict s))))
    else none

abbrev read : Option SessionFile → Option Session
read none = none
read (some garbage) = none
read (some (json d)) = from_dict d

unfoldable pub load : Files → String → Option Session
load files sid = if is_valid_id sid then read (Dict.get files sid) else none

-- `delete`: the files, and whether there was one.
unfoldable pub delete : Files → String → Files × Bool
delete files sid =
    if is_valid_id sid && Dict.has files sid then (Dict.remove files sid, true) else (files, false)
