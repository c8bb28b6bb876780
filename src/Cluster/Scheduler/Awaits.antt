-- ===== src/Cluster/Scheduler/Awaits.antt =====
-- Every call of cluster/scheduler.py keeps the tasks settled.
use fusion_code_modelization.Common.{
  String, Bool, false, ◌≡◌, refl, inl, inr, Option, none, some, [], ◌==◌, ◌⊎◌, arith, Bool-cases,
  ◌&&◌, ap, subst,
}
use fusion_code_modelization.Common.Dict
use fusion_code_modelization.Common.Dict.{Dict, get-set, get-remove}
use fusion_code_modelization.LoadBalancer.Metrics.{FloatOps, SchedulingDecision}
use fusion_code_modelization.LoadBalancer.Strategy.{pick}
use fusion_code_modelization.LoadBalancer.Balancer.{SavedState, LoadBalancer, select_node}
use fusion_code_modelization.Cluster.Models.{
  NodeData, TaskData, node_to_dict, task_to_dict, node_from_dict, running, completed, failed,
  migrated, NodeInfo, TaskDispatch, Answer, submit_task,
}
use fusion_code_modelization.Cluster.Scheduler.{
  ClusterScheduler, Dispatch, NewTask, is_last, start_scheduler, status_of, status_in, save_tasks,
  save_state, register_node, remove_node, health_check, end_check, heard_at, load_all, started,
  or_empty, convert, dispatch_on, dispatch_task, finish_task, migrate_session, task_of, moved,
}
use fusion_code_modelization.Cluster.Scheduler.Auto.{
  dispatch_best, fallback_dispatch, sync_metrics, dispatch_decided, smart_dispatch, schedule_with,
  auto_schedule, candidates, lighter, cluster_health_report,
}
use fusion_code_modelization.Cluster.Scheduler.Runs.{
  Waiting, Run, ClusterCall, register_call, remove_call, hear_call, end_check_call, dispatch_call,
  schedule_call, migrate_call, report_call, answer_call, await_dispatch, answer_to, run_call, IsNew,
  Reaches, at_start, after_call,
}
use fusion_code_modelization.Cluster.Scheduler.Settled.{
  IsSettled, IsSettled-dispatch, IsSettled-store, IsSettled-answer,
}

abbrev pub IsSettledRun : (F : FloatOps) → Run F → Type 0
IsSettledRun F r = IsSettled r.scheduler.tasks r.waits

module _ (F : FloatOps) (same_nodes : Dict (NodeData F) → Dict (NodeData F) → Bool)
    (same_tasks : Dict TaskData → Dict TaskData → Bool) where
  pub tasks_of-save_state :
      (c : ClusterScheduler F) → (save_state F same_nodes same_tasks c).tasks ≡ c.tasks
  unfolding save_state
  tasks_of-save_state c =
      elim (Bool-cases (is_last same_nodes c.last_nodes (convert node_to_dict c.nodes))) [
        | inl y ↦ rw y (tasks_of-save_tasks c)
        | inr n ↦ rw n (
            tasks_of-save_tasks (record c {
              nodes_file = some (convert node_to_dict c.nodes);
              last_nodes = some (convert node_to_dict c.nodes);
            }))
      ]
    where
      tasks_of-save_tasks :
          (c : ClusterScheduler F) → (save_tasks F same_nodes same_tasks c).tasks ≡ c.tasks
      tasks_of-save_tasks c =
          elim (Bool-cases (is_last same_tasks c.last_tasks (convert task_to_dict c.tasks))) [
            | inl y ↦ rw y refl
            | inr n ↦ rw n refl
          ]

  module _ (strip : String → String) (waits : Dict Waiting) where
    -- A dispatch, where `d` is what it has come to.
    abbrev Awaited : ClusterScheduler F × Dispatch F → Type 0
    Awaited d =
        (r : Run F)
        → r.waits ≡ waits
        → IsSettledRun F (await_dispatch F same_nodes same_tasks strip r d.0 d.1)

    dispatch_on-Awaited :
        (c : ClusterScheduler F) (new : NewTask) (target : String) (o : Option (NodeInfo F))
        → IsSettled c.tasks waits
        → Awaited (dispatch_on F same_nodes same_tasks c new target o)
    dispatch_on-Awaited c new target none h r e = rw e h
    dispatch_on-Awaited c new target (some n) h r e =
        let t = task_of new target running [] in
        rw (e, tasks_of-save_state (record c { tasks = Dict.set c.tasks t.task_id t }))
          (IsSettled-dispatch c.tasks waits h t n.node_id refl)

    dispatch_task-Awaited :
        (c : ClusterScheduler F) (new : NewTask) (target : String)
        → IsSettled c.tasks waits
        → Awaited (dispatch_task F same_nodes same_tasks c new target)
    unfolding dispatch_task
    dispatch_task-Awaited c new target h =
        dispatch_on-Awaited c new target (Dict.get c.nodes target) h

    dispatch_best-Awaited :
        (c : ClusterScheduler F) (new : NewTask) (o : Option (NodeInfo F))
        → IsSettled c.tasks waits
        → Awaited (dispatch_best F same_nodes same_tasks c new o)
    dispatch_best-Awaited c new none h r e = rw e h
    dispatch_best-Awaited c new (some n) h r e = dispatch_task-Awaited c new n.node_id h r e

    dispatch_decided-Awaited :
        (c : ClusterScheduler F) (new : NewTask) (d : SchedulingDecision F)
        → IsSettled c.tasks waits
        → Awaited (dispatch_decided F same_nodes same_tasks c new d)
    unfolding fallback_dispatch
    dispatch_decided-Awaited c new d h = elim (Bool-cases (d.selected_node == "")) [
      | inl y ↦ rw y (dispatch_best-Awaited c new (pick (lighter F) (candidates F c false)) h)
      | inr n ↦ rw n (dispatch_task-Awaited c new d.selected_node h)
    ]

    schedule_with-Awaited :
        (c : ClusterScheduler F) (new : NewTask) (require_gpu : Bool) (b : Option (LoadBalancer F))
        → IsSettled c.tasks waits
        → Awaited (schedule_with F same_nodes same_tasks c new require_gpu b)
    unfolding smart_dispatch
    schedule_with-Awaited c new require_gpu none h =
        dispatch_best-Awaited c new (pick (lighter F) (candidates F c require_gpu)) h
    schedule_with-Awaited c new require_gpu (some b) h =
        let chosen = select_node F (sync_metrics F c b) new.session_id in
        dispatch_decided-Awaited (record c { loadbalancer = some chosen.0 }) new chosen.1 h

  remove_node-tasks :
      (c : ClusterScheduler F) (id : String)
      → (remove_node F same_nodes same_tasks c id).0.tasks ≡ c.tasks
  unfolding remove_node
  remove_node-tasks c id = elim (Bool-cases (Dict.has c.nodes id)) [
    | inl y ↦ rw y (tasks_of-save_state (record c { nodes = Dict.remove c.nodes id }))
    | inr n ↦ rw n refl
  ]

  heard_at-tasks :
      (c : ClusterScheduler F) (id : String) (alive : Bool) (o : Option (NodeInfo F))
      → (heard_at F c id alive o).tasks ≡ c.tasks
  heard_at-tasks c id alive none = refl
  heard_at-tasks c id alive (some n) = refl

  migrate_session-IsSettled :
      (c : ClusterScheduler F) (waits : Dict Waiting) (new : NewTask) (from_node to_node : String)
      → Dict.get c.tasks new.task_id ≡ none
      → IsSettled c.tasks waits
      → IsSettled (migrate_session F same_nodes same_tasks c new from_node to_node).0.tasks waits
  unfolding migrate_session
  migrate_session-IsSettled c waits new from_node to_node fresh h =
      elim (Bool-cases (Dict.has c.nodes from_node && Dict.has c.nodes to_node)) [
        | inl y ↦
            let t = task_of (moved new from_node to_node) to_node migrated [] in
            rw (y, tasks_of-save_state (record c { tasks = Dict.set c.tasks t.task_id t }))
              (IsSettled-store c.tasks waits h t fresh (λ k. cc) (λ k. cc))
        | inr n ↦ rw n h
      ]

  status_in_cases : (o : Option String) → (status_in o ≡ completed) ⊎ (status_in o ≡ failed)
  status_in_cases none = inr refl
  status_in_cases (some v) = ground arith

  module _ (strip : String → String) where
    answer_to-IsSettled :
        (r : Run F) (id : String) (answer : Answer) (o : Option Waiting)
        → Dict.get r.waits id ≡ o
        → IsSettledRun F r
        → IsSettledRun F (answer_to F same_nodes same_tasks strip r id answer o)
    unfolding finish_task
    answer_to-IsSettled r id answer none e h = h
    answer_to-IsSettled r id answer (some w) e h =
        let result = submit_task strip w.node answer in
        let t : TaskDispatch = record w.task { status = status_of result; result = result } in
        rw
          (tasks_of-save_state
            (record r.scheduler { tasks = Dict.set r.scheduler.tasks t.task_id t }))
          (IsSettled-answer r.scheduler.tasks r.waits h t id (h.known id w e).2
            (λ k. elim (status_in_cases (Dict.get result "status")) [ inl c ↦ cc | inr f ↦ cc ])
            (λ k. elim (status_in_cases (Dict.get result "status")) [ inl c ↦ cc | inr f ↦ cc ]))

    run_call-IsSettled :
        (r : Run F) (c : ClusterCall F)
        → IsNew F same_nodes same_tasks strip r c
        → IsSettledRun F r
        → IsSettledRun F (run_call F same_nodes same_tasks strip r c)
    unfolding run_call register_node health_check end_check auto_schedule cluster_health_report
    run_call-IsSettled r (register_call n) new h =
        rw
          (tasks_of-save_state
            (record r.scheduler { nodes = Dict.set r.scheduler.nodes n.node_id n }))
          h
    run_call-IsSettled r (remove_call id) new h = rw (remove_node-tasks r.scheduler id) h
    run_call-IsSettled r (hear_call id alive) new h =
        rw (heard_at-tasks r.scheduler id alive (Dict.get r.scheduler.nodes id)) h
    run_call-IsSettled r end_check_call new h = rw (tasks_of-save_state r.scheduler) h
    run_call-IsSettled r (dispatch_call t target) new h =
        dispatch_task-Awaited strip r.waits r.scheduler t target h r refl
    run_call-IsSettled r (schedule_call t require_gpu) new h =
        schedule_with-Awaited strip r.waits r.scheduler t require_gpu r.scheduler.loadbalancer h r
          refl
    run_call-IsSettled r (migrate_call t from_node to_node) new h =
        migrate_session-IsSettled r.scheduler r.waits t from_node to_node new h
    run_call-IsSettled r report_call new h = h
    run_call-IsSettled r (answer_call id answer) new h =
        answer_to-IsSettled r id answer (Dict.get r.waits id) refl h

    reached-IsSettled :
        (r s : Run F)
        → IsSettledRun F r
        → Reaches F same_nodes same_tasks strip r s
        → IsSettledRun F s
    reached-IsSettled r _ h at_start = h
    reached-IsSettled r _ h (after_call {s} reached c new) =
        run_call-IsSettled s c new (reached-IsSettled r s h reached)

    started-IsSettled :
        (nodes_file : Option (Dict (NodeData F))) (balancer : Option (Option (SavedState F)))
        (o : Option (Dict (NodeInfo F))) (c : ClusterScheduler F)
        → started F nodes_file none balancer o (some []) ≡ some c
        → IsSettled c.tasks []
    unfolding Dict.get
    started-IsSettled nodes_file balancer none c e = cc
    started-IsSettled nodes_file balancer (some nodes) c e =
        let same : [] ≡ c.tasks = ap tasks_in e in
        subst (λ m. IsSettled m []) same
          (record { known = λ id w e. cc; awaited = λ id t e k. cc; begun = λ id t e. cc })
      where
        tasks_in : Option (ClusterScheduler F) → Dict TaskDispatch
        tasks_in none = []
        tasks_in (some x) = x.tasks

    -- After any calls on a scheduler that was started without tasks, in any order of their awaits and
    -- with ids that are new, the tasks that are running are those whose dispatch still awaits its node,
    -- and no task is pending.
    pub run_calls-IsSettled :
        (now : String) (nodes_file : Option (Dict (NodeData F)))
        (balancer : Option (Option (SavedState F))) (c : ClusterScheduler F) (s : Run F)
        → start_scheduler F now nodes_file none balancer ≡ some c
        → Reaches F same_nodes same_tasks strip (record { scheduler = c; waits = [] }) s
        → IsSettledRun F s
    unfolding start_scheduler
    run_calls-IsSettled now nodes_file balancer c s began reached =
        reached-IsSettled _ s
          (started-IsSettled nodes_file balancer
            (load_all (node_from_dict F now) (or_empty nodes_file)) c began)
          reached
