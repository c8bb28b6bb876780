-- ===== src/Cluster/Scheduler/Runs.antt =====
-- Runs of cluster/scheduler.py: the calls in the order in which they run between two awaits. The
-- dispatches whose request is awaited are kept by their tasks' ids.
use fusion_code_modelization.Common.{String, Bool, ◌≡◌, Option, none, some}
use fusion_code_modelization.Common.Dict
use fusion_code_modelization.Common.Dict.{Dict}
use fusion_code_modelization.LoadBalancer.Metrics.{FloatOps}
use fusion_code_modelization.Cluster.Models.{
  NodeData, TaskData, NodeInfo, TaskDispatch, Answer, submit_task,
}
use fusion_code_modelization.Cluster.Scheduler.{
  ClusterScheduler, Dispatch, refused, waiting, NewTask, register_node, remove_node, health_check,
  end_check, dispatch_task, finish_task, migrate_session,
}
use fusion_code_modelization.Cluster.Scheduler.Auto.{auto_schedule, cluster_health_report}

pub record Waiting : Type 0 where
  pub task : TaskDispatch
  pub node : String

pub record Run (F : FloatOps) : Type 0 where
  pub scheduler : ClusterScheduler F
  pub waits : Dict Waiting

pub data ClusterCall (F : FloatOps) : Type 0 where
  register_call : NodeInfo F → ClusterCall F
  remove_call : String → ClusterCall F
  hear_call : String → Bool → ClusterCall F
  end_check_call : ClusterCall F
  dispatch_call : NewTask → String → ClusterCall F
  schedule_call : NewTask → Bool → ClusterCall F
  migrate_call : NewTask → String → String → ClusterCall F
  report_call : ClusterCall F
  answer_call : String → Answer → ClusterCall F

module _ (F : FloatOps) (same_nodes : Dict (NodeData F) → Dict (NodeData F) → Bool)
    (same_tasks : Dict TaskData → Dict TaskData → Bool) (strip : String → String) where
  abbrev pub await_dispatch : Run F → ClusterScheduler F → Dispatch F → Run F
  await_dispatch r c (refused t) = record { scheduler = c; waits = r.waits }
  await_dispatch r c (waiting t n) = record {
    scheduler = c;
    waits = Dict.set r.waits t.task_id (record { task = t; node = n.node_id });
  }

  -- The request of a dispatch is answered, and the rest of it runs.
  abbrev pub answer_to : Run F → String → Answer → Option Waiting → Run F
  answer_to r id answer none = r
  answer_to r id answer (some w) = record {
    scheduler =
        (finish_task F same_nodes same_tasks r.scheduler w.task
          (submit_task strip w.node answer)).0;
    waits = Dict.remove r.waits id;
  }

  unfoldable pub run_call : Run F → ClusterCall F → Run F
  run_call r (register_call n) = record r {
    scheduler = register_node F same_nodes same_tasks r.scheduler n;
  }
  run_call r (remove_call id) = record r {
    scheduler = (remove_node F same_nodes same_tasks r.scheduler id).0;
  }
  run_call r (hear_call id alive) = record r { scheduler = health_check F r.scheduler id alive }
  run_call r end_check_call = record r { scheduler = end_check F same_nodes same_tasks r.scheduler }
  run_call r (dispatch_call new target) =
      let d = dispatch_task F same_nodes same_tasks r.scheduler new target in
      await_dispatch r d.0 d.1
  run_call r (schedule_call new require_gpu) =
      let d = auto_schedule F same_nodes same_tasks r.scheduler new require_gpu in
      await_dispatch r d.0 d.1
  run_call r (migrate_call new from_node to_node) = record r {
    scheduler = (migrate_session F same_nodes same_tasks r.scheduler new from_node to_node).0;
  }
  run_call r report_call = record r { scheduler = (cluster_health_report F r.scheduler).0 }
  run_call r (answer_call id answer) = answer_to r id answer (Dict.get r.waits id)

  -- A new id is that of no task.
  abbrev pub IsNew : Run F → ClusterCall F → Type 0
  IsNew r (dispatch_call new target) = Dict.get r.scheduler.tasks new.task_id ≡ none
  IsNew r (schedule_call new require_gpu) = Dict.get r.scheduler.tasks new.task_id ≡ none
  IsNew r (migrate_call new from_node to_node) = Dict.get r.scheduler.tasks new.task_id ≡ none
  IsNew r _ = Unit

  -- The states that calls lead to from `r`.
  pub data Reaches (r : Run F) : Run F → Type 0 where
    at_start : Reaches r r
    after_call :
        {s : Run F} → Reaches r s → (c : ClusterCall F) → IsNew s c → Reaches r (run_call s c)
