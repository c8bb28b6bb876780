-- ===== src/Cluster/Models.antt =====
-- cluster/models.py, and what `NodeClient` of cluster/node_client.py makes of an answer. A task's
-- `completed_at` is left out: nothing sets it.
use fusion_code_modelization.Common.{
  ℕ, String, Bool, true, false, List, [], ◌∷◌, ◌==◌, ◌||◌, if◌then◌else◌, ◌≡◌, refl, find?, Option,
  none, some,
}
use fusion_code_modelization.Common.Dict.{Dict}
use fusion_code_modelization.LoadBalancer.Metrics.{FloatOps}

pub data NodeStatus : Type 0 where
  online offline busy error : NodeStatus

pub data TaskDispatchStatus : Type 0 where
  pending running completed failed migrated : TaskDispatchStatus

pub record NodeInfo (F : FloatOps) : Type 0 where
  pub node_id : String
  pub host : String
  pub port : ℕ
  pub status : NodeStatus
  pub cpu_percent : F.Carrier
  pub memory_percent : F.Carrier
  pub gpu_memory_percent : F.Carrier
  pub loaded_models : List String
  pub active_tasks : ℕ
  pub last_heartbeat : String

pub record TaskDispatch : Type 0 where
  pub task_id : String
  pub session_id : String
  pub target_node : String
  pub status : TaskDispatchStatus
  pub description : String
  pub created_at : String
  pub result : Dict String

-- What `to_dict` gives and `from_dict` reads, a key that is missing being none. JSON gives back the
-- dictionary that was written.
pub record NodeData (F : FloatOps) : Type 0 where
  pub node_id : Option String
  pub host : Option String
  pub port : Option ℕ
  pub status : Option String
  pub cpu_percent : Option F.Carrier
  pub memory_percent : Option F.Carrier
  pub gpu_memory_percent : Option F.Carrier
  pub loaded_models : Option (List String)
  pub active_tasks : Option ℕ
  pub last_heartbeat : Option String

pub record TaskData : Type 0 where
  pub task_id : Option String
  pub session_id : Option String
  pub target_node : Option String
  pub status : Option String
  pub description : Option String
  pub created_at : Option String
  pub result : Option (Dict String)

abbrev status_value : NodeStatus → String
status_value online = "online"
status_value offline = "offline"
status_value busy = "busy"
status_value error = "error"

abbrev task_status_value : TaskDispatchStatus → String
task_status_value pending = "pending"
task_status_value running = "running"
task_status_value completed = "completed"
task_status_value failed = "failed"
task_status_value migrated = "migrated"

-- `NodeStatus(value)` and `TaskDispatchStatus(value)`, none where they raise
abbrev parse_status : String → Option NodeStatus
parse_status value = find? (λ st. status_value st == value) (online ∷ offline ∷ busy ∷ error ∷ [])

abbrev parse_task_status : String → Option TaskDispatchStatus
parse_task_status value =
    find? (λ st. task_status_value st == value)
      (pending ∷ running ∷ completed ∷ failed ∷ migrated ∷ [])

pub parse_status-status_value : (st : NodeStatus) → parse_status (status_value st) ≡ some st
parse_status-status_value online = refl
parse_status-status_value offline = refl
parse_status-status_value busy = refl
parse_status-status_value error = refl

pub parse_task_status-task_status_value :
    (st : TaskDispatchStatus) → parse_task_status (task_status_value st) ≡ some st
parse_task_status-task_status_value pending = refl
parse_task_status-task_status_value running = refl
parse_task_status-task_status_value completed = refl
parse_task_status-task_status_value failed = refl
parse_task_status-task_status_value migrated = refl

abbrev get_or : {A : Type 0} → Option A → A → A
get_or none default = default
get_or (some x) default = x

-- `__post_init__`: an empty time becomes the present one.
abbrev pub stamped : String → String → String
stamped now time = if time == "" then now else time

abbrev pub node_to_dict : {F : FloatOps} → NodeInfo F → NodeData F
node_to_dict n = record {
  node_id = some n.node_id;
  host = some n.host;
  port = some n.port;
  status = some (status_value n.status);
  cpu_percent = some n.cpu_percent;
  memory_percent = some n.memory_percent;
  gpu_memory_percent = some n.gpu_memory_percent;
  loaded_models = some n.loaded_models;
  active_tasks = some n.active_tasks;
  last_heartbeat = some n.last_heartbeat;
}

abbrev node_with : (F : FloatOps) → String → NodeData F → Option NodeStatus → Option (NodeInfo F)
node_with F now d none = none
node_with F now d (some st) = some (record {
  node_id = get_or d.node_id "";
  host = get_or d.host "localhost";
  port = get_or d.port 11432;
  status = st;
  cpu_percent = get_or d.cpu_percent (F.tenths 0);
  memory_percent = get_or d.memory_percent (F.tenths 0);
  gpu_memory_percent = get_or d.gpu_memory_percent (F.tenths 0);
  loaded_models = get_or d.loaded_models [];
  active_tasks = get_or d.active_tasks 0;
  last_heartbeat = stamped now (get_or d.last_heartbeat "");
})

abbrev pub node_from_dict : (F : FloatOps) → String → NodeData F → Option (NodeInfo F)
node_from_dict F now d = node_with F now d (parse_status (get_or d.status "offline"))

abbrev pub task_to_dict : TaskDispatch → TaskData
task_to_dict t = record {
  task_id = some t.task_id;
  session_id = some t.session_id;
  target_node = some t.target_node;
  status = some (task_status_value t.status);
  description = some t.description;
  created_at = some t.created_at;
  result = some t.result;
}

abbrev task_with : String → TaskData → Option TaskDispatchStatus → Option TaskDispatch
task_with now d none = none
task_with now d (some st) = some (record {
  task_id = get_or d.task_id "";
  session_id = get_or d.session_id "";
  target_node = get_or d.target_node "";
  status = st;
  description = get_or d.description "";
  created_at = stamped now (get_or d.created_at "");
  result = get_or d.result [];
})

abbrev pub task_from_dict : String → TaskData → Option TaskDispatch
task_from_dict now d = task_with now d (parse_task_status (get_or d.status "pending"))

-- `load_score`
unfoldable pub node_load : (F : FloatOps) → NodeInfo F → F.Carrier
node_load F n = F.divide (F.add (F.add n.cpu_percent n.memory_percent) n.gpu_memory_percent) 3

abbrev pub is_online : {F : FloatOps} → NodeInfo F → Bool
is_online n = elim n.status [ online ↦ true | _ ↦ false ]

-- What came of the request: an exception with its text, or the content of the answer.
pub data Answer : Type 0 where
  raised : String → Answer
  content : String → Answer

-- What `submit_task` returns; `strip` is that of `str`.
unfoldable pub submit_task : (String → String) → String → Answer → Dict String
submit_task strip node_id (raised message) =
    ("status", "failed") ∷ ("error", message) ∷ ("node", node_id) ∷ []
submit_task strip node_id (content body) =
    if body == "" || strip body == ""
    then ("status", "failed") ∷ ("error", "empty_content") ∷ ("node", node_id) ∷ []
    else ("status", "completed") ∷ ("content", body) ∷ ("node", node_id) ∷ []
