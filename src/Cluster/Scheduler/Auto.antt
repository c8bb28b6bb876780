-- ===== src/Cluster/Scheduler/Auto.antt =====
-- The choice of a node in cluster/scheduler.py, with the load balancer and without, and the report.
use fusion_code_modelization.Common.{
  ℕ, Bool, false, Option, none, some, List, [], ◌∷◌, map, filter, length, ◌==◌, if◌then◌else◌,
}
use fusion_code_modelization.Common.Dict
use fusion_code_modelization.Common.Dict.{Dict}
use fusion_code_modelization.LoadBalancer.Metrics.{FloatOps, LoadMetric, SchedulingDecision}
use fusion_code_modelization.LoadBalancer.Strategy.{or_all, pick}
use fusion_code_modelization.LoadBalancer.Balancer.{
  LoadBalancer, update_metrics, select_node, get_cluster_overview, rebalance, Overview,
}
use fusion_code_modelization.Cluster.Models.{
  NodeData, TaskData, failed, NodeInfo, node_load, is_online,
}
use fusion_code_modelization.Cluster.Scheduler.{
  ClusterScheduler, Dispatch, refused, NewTask, task_of, dispatch_task,
}

module _ (F : FloatOps) where
  -- A node with a lower load is taken first.
  abbrev pub lighter : NodeInfo F → NodeInfo F → Bool
  lighter n best = F.lt (node_load F n) (node_load F best)

  abbrev pub roomy : Bool → List (NodeInfo F) → List (NodeInfo F)
  roomy require_gpu ns =
      if require_gpu then filter (λ n. F.lt n.gpu_memory_percent (F.tenths 800)) ns else ns

  abbrev pub candidates : ClusterScheduler F → Bool → List (NodeInfo F)
  candidates c require_gpu =
      or_all (roomy require_gpu (filter is_online (Dict.values c.nodes))) (Dict.values c.nodes)

  abbrev no_nodes : NewTask → Dispatch F
  no_nodes new = refused (task_of new "" failed (("error", "no nodes available") ∷ []))

  abbrev pub metric_of : NodeInfo F → LoadMetric F
  metric_of n = record {
    node_id = n.node_id;
    cpu_percent = n.cpu_percent;
    memory_percent = n.memory_percent;
    gpu_percent = n.gpu_memory_percent;
    active_tasks = n.active_tasks;
    max_tasks = 4;
    weight = F.tenths 10;
  }

  -- `_sync_loadbalancer_metrics`: the metrics of a node that was removed stay.
  unfoldable pub sync_metrics : ClusterScheduler F → LoadBalancer F → LoadBalancer F
  sync_metrics c b = update_metrics F b (map metric_of (Dict.values c.nodes))

  pub record HealthReport : Type 0 where
    pub total_nodes : ℕ
    pub online_nodes : ℕ
    pub total_tasks : ℕ
    pub nodes : Dict (NodeInfo F)
    pub balanced : Option (Overview F × List (SchedulingDecision F))

  abbrev pub balance_of :
      ClusterScheduler F
      → Option (LoadBalancer F)
      → Option (LoadBalancer F) × Option (Overview F × List (SchedulingDecision F))
  balance_of c none = (none, none)
  balance_of c (some b) =
      let b' = sync_metrics c b in (some b', some (get_cluster_overview F b', rebalance F b'))

  unfoldable pub cluster_health_report : ClusterScheduler F → ClusterScheduler F × HealthReport
  cluster_health_report c =
      let balanced = balance_of c c.loadbalancer in
      (
        record c { loadbalancer = balanced.0 },
        record {
          total_nodes = length c.nodes;
          online_nodes = length (filter is_online (Dict.values c.nodes));
          total_tasks = length c.tasks;
          nodes = c.nodes;
          balanced = balanced.1;
        },
      )

module _ (F : FloatOps) (same_nodes : Dict (NodeData F) → Dict (NodeData F) → Bool)
    (same_tasks : Dict TaskData → Dict TaskData → Bool) where
  abbrev pub dispatch_best :
      ClusterScheduler F → NewTask → Option (NodeInfo F) → ClusterScheduler F × Dispatch F
  dispatch_best c new none = (c, no_nodes F new)
  dispatch_best c new (some n) = dispatch_task F same_nodes same_tasks c new n.node_id

  -- `_fallback_dispatch`
  unfoldable pub fallback_dispatch : ClusterScheduler F → NewTask → ClusterScheduler F × Dispatch F
  fallback_dispatch c new = dispatch_best c new (pick (lighter F) (candidates F c false))

  abbrev pub dispatch_decided :
      ClusterScheduler F → NewTask → SchedulingDecision F → ClusterScheduler F × Dispatch F
  dispatch_decided c new d =
      if d.selected_node == ""
      then fallback_dispatch c new
      else dispatch_task F same_nodes same_tasks c new d.selected_node

  -- `_smart_dispatch`
  unfoldable pub smart_dispatch :
      ClusterScheduler F → NewTask → LoadBalancer F → ClusterScheduler F × Dispatch F
  smart_dispatch c new b =
      let chosen = select_node F (sync_metrics F c b) new.session_id in
      dispatch_decided (record c { loadbalancer = some chosen.0 }) new chosen.1

  abbrev pub schedule_with :
      ClusterScheduler F
      → NewTask
      → Bool
      → Option (LoadBalancer F)
      → ClusterScheduler F × Dispatch F
  schedule_with c new require_gpu none =
      dispatch_best c new (pick (lighter F) (candidates F c require_gpu))
  schedule_with c new require_gpu (some b) = smart_dispatch c new b

  unfoldable pub auto_schedule :
      ClusterScheduler F → NewTask → Bool → ClusterScheduler F × Dispatch F
  auto_schedule c new require_gpu = schedule_with c new require_gpu c.loadbalancer
