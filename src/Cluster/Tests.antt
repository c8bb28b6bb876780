-- ===== src/Cluster/Tests.antt =====
-- Runs of cluster/scheduler.py.
use fusion_code_modelization.Common.{
  ℕ, filter, ◌⊎◌, String, Bool, true, false, ◌≡◌, refl, none, some, List, [], ◌∷◌,
}
use fusion_code_modelization.Common.Dict
use fusion_code_modelization.Common.Dict.{Dict}
use fusion_code_modelization.LoadBalancer.Metrics.{load_score, available_capacity, is_overloaded}
use fusion_code_modelization.LoadBalancer.Tenths.{tenths, order}
use fusion_code_modelization.LoadBalancer.Strategy.{pick, least_loaded_select, get_strategy, select}
use fusion_code_modelization.LoadBalancer.Balancer.{
  new_balancer, update_metrics, choose, decision_for, select_node,
}
use fusion_code_modelization.Cluster.Models.{
  NodeData, TaskData, node_to_dict, offline, online, completed, running, NodeInfo, TaskDispatch,
  content, submit_task, node_load,
}
use fusion_code_modelization.Cluster.Scheduler.{
  ClusterScheduler, Dispatch, waiting, refused, NewTask, start_scheduler, save_state, convert,
  least_loaded_config, health_check, end_check, register_node, remove_node, dispatch_task,
  finish_task, put_task, task_of,
}
use fusion_code_modelization.Cluster.Scheduler.Auto.{auto_schedule, smart_dispatch, sync_metrics}
use fusion_code_modelization.Cluster.Scheduler.Runs.{
  Run, ClusterCall, register_call, remove_call, hear_call, end_check_call, dispatch_call,
  schedule_call, answer_call, run_call, Reaches, at_start, after_call,
}
use fusion_code_modelization.Cluster.Scheduler.Saved.{SameLaws, unheard}
use fusion_code_modelization.Cluster.Scheduler.Restart.{StartsWith, start_scheduler-Reaches}
use fusion_code_modelization.Cluster.Scheduler.Awaits.{IsSettledRun, run_calls-IsSettled}
use fusion_code_modelization.Cluster.Scheduler.Choice.{is_ready, IsLightest, auto_schedule_lem}

abbrev node : String → ℕ → NodeInfo tenths
node id cpu = record {
  node_id = id;
  host = "localhost";
  port = 8080;
  status = online;
  cpu_percent = cpu;
  memory_percent = 0;
  gpu_memory_percent = 0;
  loaded_models = [];
  active_tasks = 0;
  last_heartbeat = "t";
}

abbrev new : String → NewTask
new id = record { task_id = id; session_id = "s"; description = "d"; now = "t" }

-- Of two dictionaries only the empty ones are told to be the same.
abbrev both_empty : {V : Type 0} → Dict V → Dict V → Bool
both_empty [] [] = true
both_empty _ _ = false

both_empty_law : {V : Type 0} (a b : Dict V) → both_empty a b ≡ true → a ≡ b
both_empty_law [] [] h = refl
both_empty_law [] (p ∷ b) h = cc
both_empty_law (p ∷ a) [] h = cc
both_empty_law (p ∷ a) (q ∷ b) h = cc

abbrev laws : SameLaws (both_empty {V = NodeData tenths}) (both_empty {V = TaskData})
laws = record { nodes_law = both_empty_law; tasks_law = both_empty_law }

abbrev same_text_as : String → String
same_text_as s = s

abbrev step : Run tenths → ClusterCall tenths → Run tenths
step r c = run_call tenths both_empty both_empty same_text_as r c

abbrev blank : ClusterScheduler tenths
blank = record {
  nodes = [];
  tasks = [];
  last_nodes = none;
  last_tasks = none;
  nodes_file = none;
  tasks_file = none;
  loadbalancer = none;
}

blank-started : start_scheduler tenths "t" none none none ≡ some blank
unfolding start_scheduler
blank-started = refl

-- A status that is not known raises, and an empty heartbeat becomes the time of the start.
test_status :
    start_scheduler tenths "t"
      (some (("a", record (node_to_dict (node "a" 1)) { status = some "gone" }) ∷ []))
      none
      none
    ≡ none
unfolding start_scheduler
test_status = refl

test_heartbeat :
    start_scheduler tenths "now"
      (some (("a", record (node_to_dict (node "a" 1)) { last_heartbeat = none }) ∷ []))
      none
      none
    ≡ some (record blank {
      nodes = ("a", record (node "a" 1) { last_heartbeat = "now" }) ∷ [];
      nodes_file = some (("a", record (node_to_dict (node "a" 1)) { last_heartbeat = none }) ∷ []);
    })
unfolding start_scheduler
test_heartbeat = refl

abbrev empty_run : Run tenths
empty_run = record { scheduler = blank; waits = [] }

abbrev with_nodes : Run tenths
with_nodes = step (step empty_run (register_call (node "a" 500))) (register_call (node "b" 200))

abbrev dispatched : Run tenths
dispatched = step (step with_nodes (dispatch_call (new "t1") "a")) (schedule_call (new "t2") false)

-- The first dispatch is answered while the second waits, and then the node of the second is removed.
abbrev answered : Run tenths
answered = step (step dispatched (answer_call "t1" (content "ok"))) (remove_call "b")

statuses : List TaskDispatch → List (String × String)
statuses [] = []
statuses (t ∷ ts) =
    (t.target_node, elim t.status [ completed ↦ "completed" | running ↦ "running" | _ ↦ "" ])
    ∷ statuses ts

test_answered :
    statuses (Dict.values answered.scheduler.tasks) ≡ ("a", "completed") ∷ ("b", "running") ∷ []
unfolding statuses run_call start_scheduler register_node remove_node save_state dispatch_task
    auto_schedule finish_task submit_task node_load pick Dict.get Dict.set Dict.remove
test_answered = refl

fresh_t1 : Dict.get with_nodes.scheduler.tasks "t1" ≡ none
unfolding run_call start_scheduler register_node save_state Dict.get Dict.set
fresh_t1 = refl

fresh_t2 : Dict.get (step with_nodes (dispatch_call (new "t1") "a")).scheduler.tasks "t2" ≡ none
unfolding run_call start_scheduler register_node save_state dispatch_task Dict.get Dict.set
fresh_t2 = refl

reached : Reaches tenths both_empty both_empty same_text_as empty_run answered
reached =
    after_call
      (after_call
        (after_call
          (after_call
            (after_call (after_call at_start (register_call (node "a" 500)) tt)
              (register_call (node "b" 200)) tt)
            (dispatch_call (new "t1") "a") fresh_t1)
          (schedule_call (new "t2") false) fresh_t2)
        (answer_call "t1" (content "ok")) tt)
      (remove_call "b") tt

run_calls-IsSettled_example : IsSettledRun tenths answered
run_calls-IsSettled_example =
    run_calls-IsSettled tenths both_empty both_empty same_text_as "t" none none blank answered
      blank-started reached

start_scheduler-Reaches_example :
    StartsWith tenths both_empty both_empty laws same_text_as unheard "u" none answered.scheduler
      answered.scheduler.nodes answered.scheduler.tasks
    × StartsWith tenths both_empty both_empty laws same_text_as
        (λ n. n)
        "u"
        none
        (end_check tenths both_empty both_empty answered.scheduler)
        answered.scheduler.nodes
        answered.scheduler.tasks
start_scheduler-Reaches_example =
    start_scheduler-Reaches tenths both_empty both_empty laws same_text_as "t" "u" none none blank
      answered blank-started reached

-- While the answer of a health check is not yet saved, the file has the status of before.
abbrev heard : Run tenths
heard = step with_nodes (hear_call "a" false)

test_unsaved :
    (Dict.get heard.scheduler.nodes "a" ≡ some (record (node "a" 500) { status = offline }))
    × (heard.scheduler.nodes_file ≡ with_nodes.scheduler.nodes_file)
    × ((step heard end_check_call).scheduler.nodes_file
        ≡ some (convert node_to_dict heard.scheduler.nodes))
unfolding run_call register_node save_state health_check end_check Dict.get Dict.set
test_unsaved = (refl, refl, refl)

abbrev two_nodes : Dict (NodeInfo tenths)
two_nodes = ("a", node "a" 500) ∷ ("b", node "b" 200) ∷ []

abbrev two : ClusterScheduler tenths
two = record blank { nodes = two_nodes }

auto_schedule_lem_example :
    (m n : NodeInfo tenths) × (IsLightest tenths m
        (filter (is_ready tenths false) (Dict.values two.nodes))
      ⊎ ((filter (is_ready tenths false) (Dict.values two.nodes) ≡ [])
          × IsLightest tenths m (Dict.values two.nodes)))
    × (Dict.get two.nodes m.node_id ≡ some n)
    × (auto_schedule tenths both_empty both_empty two (new "t") false ≡ (
      put_task tenths both_empty both_empty two (task_of (new "t") m.node_id running []),
      waiting (task_of (new "t") m.node_id running []) n,
    ))
auto_schedule_lem_example =
    auto_schedule_lem tenths both_empty both_empty order two (new "t") false (node "a" 500)
      (node "b" 200 ∷ []) refl refl (refl, (refl, tt))

abbrev with_balancer : ClusterScheduler tenths
with_balancer = record blank {
  loadbalancer = some (new_balancer tenths (least_loaded_config tenths) none);
}

abbrev balanced : Run tenths
balanced =
    step
      (step
        (step
          (step (record { scheduler = with_balancer; waits = [] }) (register_call (node "a" 500)))
          (register_call (node "b" 200)))
        (schedule_call (new "t1") false))
      (remove_call "b")

-- With the balancer, a node that was removed is chosen still, and the task fails.
refused_for : Dispatch tenths → String
refused_for (refused t) = t.target_node
refused_for (waiting t n) = ""

test_removed_chosen :
    refused_for (auto_schedule tenths both_empty both_empty balanced.scheduler (new "t2") false).1
    ≡ "b"
unfolding refused_for run_call start_scheduler register_node remove_node save_state dispatch_task
    auto_schedule smart_dispatch sync_metrics node_load pick Dict.get Dict.set Dict.remove
    new_balancer update_metrics choose decision_for select_node select least_loaded_select
    get_strategy load_score available_capacity is_overloaded
test_removed_chosen = refl
