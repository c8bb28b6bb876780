-- ===== src/AgentComm/Coordinator.antt =====
-- `CollaborationCoordinator` of fusion_code_modelization/agent_comm/coordinator.py. `task_log` is
-- the lines of tasks.jsonl, which only `create_collaboration` writes. Fresh ids and times are
-- arguments.
pub mod Laws
use fusion_code_modelization.Common.{
  ℕ, String, Bool, true, false, Option, none, some, List, [], ◌∷◌, ◌++◌, filter, not, if◌then◌else◌,
}
use fusion_code_modelization.Common.Dict
use fusion_code_modelization.Common.Dict.{Dict}
use fusion_code_modelization.AgentComm.Models.{
  MessageType, task_assignment, result_delivery, conflict_report, sync_response,
  CollaborationStatus, active, completed, failed, conflict, status_eq, AgentRole, lead, worker,
  Payload, fields, assignment, conflict_details, resolution, AgentMessage, CollaborationTask,
}
use fusion_code_modelization.AgentComm.Channel.{
  AgentChannelManager, create_channel, close_channel, send_message, Broadcast, broadcast,
}

pub record CollaborationCoordinator : Type 0 where
  pub channel_manager : AgentChannelManager
  pub tasks : Dict CollaborationTask
  pub task_log : List CollaborationTask

abbrev set_workers : Dict AgentRole → List String → Dict AgentRole
set_workers roles [] = roles
set_workers roles (a ∷ agents) = set_workers (Dict.set roles a worker) agents

-- The roles where none are given: the first agent leads.
unfoldable pub default_roles : List String → Dict AgentRole
default_roles [] = []
default_roles (a ∷ agents) = set_workers (Dict.set [] a lead) agents

abbrev roles_or : Option (Dict AgentRole) → List String → Dict AgentRole
roles_or none agents = default_roles agents
roles_or (some []) agents = default_roles agents
roles_or (some (r ∷ roles)) agents = r ∷ roles

-- What a call makes anew: ids, times and message stamps.
pub record Fresh : Type 0 where
  pub collaboration_id : String
  pub channel_name : String
  pub now : ℕ
  pub stamp : String → String × ℕ

abbrev from_coordinator : Fresh → String → MessageType → Payload → Broadcast
from_coordinator fresh channel kind payload = record {
  sender_id = "coordinator";
  channel_name = channel;
  message_type = kind;
  payload = payload;
  stamp = fresh.stamp;
}

abbrev new_task : Fresh → String → List String → Dict AgentRole → CollaborationTask
new_task fresh description agents roles = record {
  collaboration_id = fresh.collaboration_id;
  task_description = description;
  agent_ids = agents;
  roles = roles;
  status = active;
  results = [];
  channel_name = fresh.channel_name;
  created_at = fresh.now;
}

unfoldable pub create_collaboration :
    CollaborationCoordinator
    → Fresh
    → String
    → List String
    → Option (Dict AgentRole)
    → CollaborationCoordinator × CollaborationTask
create_collaboration c fresh description agents given =
    let roles = roles_or given agents in
    let task = new_task fresh description agents roles in
    let made = (create_channel c.channel_manager fresh.channel_name agents fresh.now).0 in
    let told =
      (broadcast made (
        from_coordinator fresh fresh.channel_name task_assignment
          (assignment fresh.collaboration_id description roles))).0 in
    (
      record {
        channel_manager = told;
        tasks = Dict.set c.tasks fresh.collaboration_id task;
        task_log = c.task_log ++ task ∷ [];
      },
      task,
    )

unfoldable pub get_task : CollaborationCoordinator → String → Option CollaborationTask
get_task c cid = Dict.get c.tasks cid

unfoldable pub list_tasks :
    CollaborationCoordinator → Option CollaborationStatus → List CollaborationTask
list_tasks c none = Dict.values c.tasks
list_tasks c (some st) = filter (λ t. status_eq t.status st) (Dict.values c.tasks)

abbrev pub put_task :
    CollaborationCoordinator
    → String
    → CollaborationTask
    → AgentChannelManager
    → CollaborationCoordinator
put_task c cid task m = record c { tasks = Dict.set c.tasks cid task; channel_manager = m }

abbrev pub delivery : Fresh → CollaborationTask → String → Dict String → AgentMessage
delivery fresh task agent result = record {
  message_id = (fresh.stamp "coordinator").0;
  sender_id = agent;
  recipient_id = "coordinator";
  channel_name = task.channel_name;
  message_type = result_delivery;
  payload = fields result;
  timestamp = (fresh.stamp "coordinator").1;
}

unfoldable pub submit_result :
    CollaborationCoordinator
    → Fresh
    → String
    → String
    → Dict String
    → CollaborationCoordinator × Bool
submit_result c fresh cid agent result = elim (Dict.get c.tasks cid) [
  | none ↦ (c, false)
  | some task ↦ (
    put_task c cid (record task { results = Dict.set task.results agent result })
        (send_message c.channel_manager (delivery fresh task agent result)).0,
    true,
  )
]

unfoldable pub report_conflict :
    CollaborationCoordinator
    → Fresh
    → String
    → String
    → Dict String
    → CollaborationCoordinator × Bool
report_conflict c fresh cid agent details = elim (Dict.get c.tasks cid) [
  | none ↦ (c, false)
  | some task ↦ (
    put_task c cid (record task { status = conflict })
        (broadcast c.channel_manager (
          from_coordinator fresh task.channel_name conflict_report
            (conflict_details cid agent details))).0,
    true,
  )
]

unfoldable pub resolve_conflict :
    CollaborationCoordinator → Fresh → String → Dict String → CollaborationCoordinator × Bool
resolve_conflict c fresh cid agreed = elim (Dict.get c.tasks cid) [
  | none ↦ (c, false)
  | some task ↦ if not (status_eq task.status conflict) then (c, false) else (
    put_task c cid (record task { status = active })
        (broadcast c.channel_manager
          (from_coordinator fresh task.channel_name sync_response (resolution cid agreed))).0,
    true,
  )
]

-- `complete_collaboration` and `fail_collaboration` differ in the status.
abbrev end_with :
    CollaborationStatus
    → CollaborationCoordinator
    → String
    → Option CollaborationTask
    → CollaborationCoordinator × Bool
end_with st c cid none = (c, false)
end_with st c cid (some task) = (
  put_task c cid (record task { status = st })
      (close_channel c.channel_manager task.channel_name).0,
  true,
)

unfoldable pub complete_collaboration :
    CollaborationCoordinator → String → CollaborationCoordinator × Bool
complete_collaboration c cid = end_with completed c cid (Dict.get c.tasks cid)

unfoldable pub fail_collaboration :
    CollaborationCoordinator → String → CollaborationCoordinator × Bool
fail_collaboration c cid = end_with failed c cid (Dict.get c.tasks cid)

unfoldable pub get_agent_role : CollaborationCoordinator → String → String → Option AgentRole
get_agent_role c cid agent = elim (Dict.get c.tasks cid) [
  | none ↦ none
  | some task ↦ Dict.get task.roles agent
]

-- `_load` of a new coordinator: the tasks of the file, by their ids.
abbrev load_tasks : Dict CollaborationTask → List CollaborationTask → Dict CollaborationTask
load_tasks tasks [] = tasks
load_tasks tasks (t ∷ ts) = load_tasks (Dict.set tasks t.collaboration_id t) ts

unfoldable pub reload_tasks : CollaborationCoordinator → Dict CollaborationTask
reload_tasks c = load_tasks [] c.task_log
