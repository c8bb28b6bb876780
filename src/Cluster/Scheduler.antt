-- ===== src/Cluster/Scheduler.antt =====
-- `ClusterScheduler` of cluster/scheduler.py. A file is what it holds, none where it cannot be read;
-- a `last` field is what was saved last, none before that, and `same` compares two by their JSON texts.
-- A dispatch is two steps, before and after the request to the node is awaited: other calls may run
-- between them. So is a check of the nodes: each answer changes a status, and its end saves. An answer
-- may come for any node that is registered and at any time, and so may the end of a check, which leaves
-- in more than the checks that are made. New ids and the time are arguments.
pub mod Auto
pub mod Runs
pub mod Saved
pub mod Restart
pub mod Settled
pub mod Awaits
pub mod Choice
use Prim.Native.String
use fusion_code_modelization.Common.{
  ℕ, String, Bool, true, false, Option, none, some, List, [], ◌∷◌, map, filter, length, ltb, ◌==◌,
  ◌&&◌, not, ◌++◌, if◌then◌else◌,
}
use fusion_code_modelization.Common.Dict
use fusion_code_modelization.Common.Dict.{Dict}
use fusion_code_modelization.LoadBalancer.Metrics.{
  FloatOps, least_loaded, LoadMetric, BalancerConfig, SchedulingDecision,
}
use fusion_code_modelization.LoadBalancer.Strategy.{or_all, pick}
use fusion_code_modelization.LoadBalancer.Balancer.{
  SavedState, LoadBalancer, new_balancer, update_metrics, select_node, get_cluster_overview,
  rebalance, Overview,
}
use fusion_code_modelization.Cluster.Models.{
  NodeData, TaskData, NodeStatus, online, offline, TaskDispatchStatus, running, completed, failed,
  migrated, NodeInfo, TaskDispatch, node_load, is_online, node_to_dict, node_from_dict,
  task_to_dict, task_from_dict,
}

pub record ClusterScheduler (F : FloatOps) : Type 0 where
  pub nodes : Dict (NodeInfo F)
  pub tasks : Dict TaskDispatch
  pub last_nodes : Option (Dict (NodeData F))
  pub last_tasks : Option (Dict TaskData)
  pub nodes_file : Option (Dict (NodeData F))
  pub tasks_file : Option (Dict TaskData)
  pub loadbalancer : Option (LoadBalancer F)

-- What a dispatch has done before its first `await`: it returned a task that failed, or it waits for
-- the node.
pub data Dispatch (F : FloatOps) : Type 0 where
  refused : TaskDispatch → Dispatch F
  waiting : TaskDispatch → NodeInfo F → Dispatch F

pub record NewTask : Type 0 where
  pub task_id : String
  pub session_id : String
  pub description : String
  pub now : String

abbrev pub or_empty {ℓ} : {A : Type ℓ} → Option (List A) → List A
or_empty none = []
or_empty (some xs) = xs

abbrev pub is_last {ℓ} : {A : Type ℓ} → (A → A → Bool) → Option A → A → Bool
is_last same none x = false
is_last same (some y) x = same y x

abbrev pub convert : {A B : Type 0} → (A → B) → Dict A → Dict B
convert f [] = []
convert f ((k, a) ∷ m) = (k, f a) ∷ convert f m

abbrev add_loaded : {B : Type 0} → String → Option B → Option (Dict B) → Option (Dict B)
add_loaded k (some b) (some m) = some ((k, b) ∷ m)
add_loaded k _ _ = none

-- Each value of a dictionary of JSON is read.
abbrev pub load_all : {A B : Type 0} → (A → Option B) → Dict A → Option (Dict B)
load_all f [] = some []
load_all f ((k, a) ∷ m) = add_loaded k (f a) (load_all f m)

abbrev pub task_of : NewTask → String → TaskDispatchStatus → Dict String → TaskDispatch
task_of new target status result = record {
  task_id = new.task_id;
  session_id = new.session_id;
  target_node = target;
  status = status;
  description = new.description;
  created_at = new.now;
  result = result;
}

abbrev pub status_in : Option String → TaskDispatchStatus
status_in none = failed
status_in (some status) = if status == "completed" then completed else failed

abbrev pub status_of : Dict String → TaskDispatchStatus
status_of result = status_in (Dict.get result "status")

-- A migration describes itself.
abbrev pub moved : NewTask → String → String → NewTask
moved new from_node to_node = record new {
  description = String.◌++◌ "migrate from " (String.◌++◌ from_node (String.◌++◌ " to " to_node));
}

module _ (F : FloatOps) where
  -- `BalancerConfig(strategy=LEAST_LOADED)`
  abbrev pub least_loaded_config : BalancerConfig F
  least_loaded_config = record {
    strategy = least_loaded;
    overload_threshold = F.tenths 800;
    cooldown_seconds = F.tenths 300;
    max_retries = 3;
    affinity_ttl_seconds = F.tenths 36000;
  }

  abbrev balancer_of : Option (Option (SavedState F)) → Option (LoadBalancer F)
  balancer_of none = none
  balancer_of (some file) = some (new_balancer F least_loaded_config file)

  abbrev pub started :
      Option (Dict (NodeData F))
      → Option (Dict TaskData)
      → Option (Option (SavedState F))
      → Option (Dict (NodeInfo F))
      → Option (Dict TaskDispatch)
      → Option (ClusterScheduler F)
  started nodes_file tasks_file balancer (some nodes) (some tasks) = some (record {
    nodes = nodes;
    tasks = tasks;
    last_nodes = none;
    last_tasks = none;
    nodes_file = nodes_file;
    tasks_file = tasks_file;
    loadbalancer = balancer_of balancer;
  })
  started nodes_file tasks_file balancer _ _ = none

  -- `__init__` with `_load_state`; the last argument is the balancer's own file, where it is enabled. A
  -- status that is no member of its enumeration raises: none.
  unfoldable pub start_scheduler :
      String
      → Option (Dict (NodeData F))
      → Option (Dict TaskData)
      → Option (Option (SavedState F))
      → Option (ClusterScheduler F)
  start_scheduler now nodes_file tasks_file balancer =
      started nodes_file tasks_file balancer (load_all (node_from_dict F now) (or_empty nodes_file))
        (load_all (task_from_dict now) (or_empty tasks_file))

  abbrev pub heard_at :
      ClusterScheduler F → String → Bool → Option (NodeInfo F) → ClusterScheduler F
  heard_at c id alive none = c
  heard_at c id alive (some n) = record c {
    nodes = Dict.set c.nodes id (record n { status = if alive then online else offline });
  }

  -- `health_check` of the node that stands under the id, when its request has ended: whether it was
  -- answered with 200. Nothing is saved.
  unfoldable pub health_check : ClusterScheduler F → String → Bool → ClusterScheduler F
  health_check c id alive = heard_at c id alive (Dict.get c.nodes id)

  unfoldable pub list_tasks : ClusterScheduler F → List TaskDispatch
  list_tasks c = Dict.values c.tasks

module _ (F : FloatOps) (same_nodes : Dict (NodeData F) → Dict (NodeData F) → Bool)
    (same_tasks : Dict TaskData → Dict TaskData → Bool) where
  abbrev pub save_nodes : ClusterScheduler F → ClusterScheduler F
  save_nodes c =
      if is_last same_nodes c.last_nodes (convert node_to_dict c.nodes) then c else (record c {
        nodes_file = some (convert node_to_dict c.nodes);
        last_nodes = some (convert node_to_dict c.nodes);
      })

  abbrev pub save_tasks : ClusterScheduler F → ClusterScheduler F
  save_tasks c =
      if is_last same_tasks c.last_tasks (convert task_to_dict c.tasks) then c else (record c {
        tasks_file = some (convert task_to_dict c.tasks);
        last_tasks = some (convert task_to_dict c.tasks);
      })

  -- `_save_state`
  unfoldable pub save_state : ClusterScheduler F → ClusterScheduler F
  save_state c = save_tasks (save_nodes c)

  unfoldable pub register_node : ClusterScheduler F → NodeInfo F → ClusterScheduler F
  register_node c n = save_state (record c { nodes = Dict.set c.nodes n.node_id n })

  unfoldable pub remove_node : ClusterScheduler F → String → ClusterScheduler F × Bool
  remove_node c id =
      if Dict.has c.nodes id
      then (save_state (record c { nodes = Dict.remove c.nodes id }), true)
      else (c, false)

  -- The end of `get_node_status`, when all its requests have ended; without nodes it has none and ends
  -- at once.
  unfoldable pub end_check : ClusterScheduler F → ClusterScheduler F
  end_check c = save_state c

  abbrev pub put_task : ClusterScheduler F → TaskDispatch → ClusterScheduler F
  put_task c t = save_state (record c { tasks = Dict.set c.tasks t.task_id t })

  abbrev pub dispatch_on :
      ClusterScheduler F → NewTask → String → Option (NodeInfo F) → ClusterScheduler F × Dispatch F
  dispatch_on c new target none = (
    c,
    refused (
        task_of new target failed
          (("error", String.◌++◌ "node " (String.◌++◌ target " not found")) ∷ [])),
  )
  dispatch_on c new target (some n) =
      let t = task_of new target running [] in (put_task c t, waiting t n)

  -- `dispatch_task` up to its `await`
  unfoldable pub dispatch_task :
      ClusterScheduler F → NewTask → String → ClusterScheduler F × Dispatch F
  dispatch_task c new target = dispatch_on c new target (Dict.get c.nodes target)

  -- The rest of `dispatch_task`, with what `submit_task` returned
  unfoldable pub finish_task :
      ClusterScheduler F → TaskDispatch → Dict String → ClusterScheduler F × TaskDispatch
  finish_task c t result =
      let t' = record t { status = status_of result; result = result } in (put_task c t', t')

  unfoldable pub migrate_session :
      ClusterScheduler F → NewTask → String → String → ClusterScheduler F × TaskDispatch
  migrate_session c new from_node to_node =
      if Dict.has c.nodes from_node && Dict.has c.nodes to_node
      then (let t = task_of (moved new from_node to_node) to_node migrated [] in (put_task c t, t))
      else (
        c,
        task_of (record new { description = "" }) to_node failed
            (("error", "source or target node not found") ∷ []),
      )
