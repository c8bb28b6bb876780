-- ===== src/Workflow/Tests.antt =====
-- Runs of workflows at concrete plans.
use fusion_code_modelization.Common.{
  String, ◌≡◌, refl, true, false, Option, none, some, List, [], ◌∷◌, All, ℕ, ◌⊎◌, ◌≢◌, filter, map,
  if◌then◌else◌,
}
use fusion_code_modelization.Common.Dict
use fusion_code_modelization.Common.Dict.{Dict}
use fusion_code_modelization.Workflow.Plan.{
  TaskStatus, pending, PlanStatus, SubTask, WorkflowPlan, ready_tasks, is_pending, is_completed,
  no_dict, parse_subtasks, decompose, Reply, done, error,
}
use fusion_code_modelization.Workflow.Executor.{
  SubTaskResult, WorkflowResult, success_count, execute_subtask, add_id, is_ready, store_results,
  add_ids, finish_tasks, round, fail_pending, loop, merge_results, conclude, execute, run_plan,
  Execution, returned, value_error, blocked, pos, negsuc,
}
use fusion_code_modelization.Workflow.Executor.Ends.{is_independent, Returns, execute_total}
use fusion_code_modelization.Workflow.Executor.Reports.{
  Reported, execute-Reported, execute_completed,
}
use fusion_code_modelization.Workflow.Executor.Order.{AfterDeps, execute-Ordered}

program : Unit {0}
unfolding ready_tasks parse_subtasks decompose success_count execute_subtask add_id is_ready
    store_results add_ids finish_tasks round fail_pending loop merge_results conclude execute
    run_plan Dict.get Dict.set
program = tt

abbrev task : String → List String → SubTask
task tid deps = record {
  task_id = tid;
  title = tid;
  description = "";
  depends_on = deps;
  priority = 0;
  status = pending;
}

abbrev plan_of : List SubTask → WorkflowPlan
plan_of ts = record {
  plan_id = "p";
  goal = "g";
  subtasks = ts;
  status = PlanStatus.planned;
  template = "generic";
}

abbrev pair : WorkflowPlan
pair = plan_of (task "b" ("a" ∷ []) ∷ task "a" [] ∷ [])

abbrev yes_man : String → Reply
yes_man prompt = done "ok"

abbrev no_man : String → Reply
no_man prompt = error none

abbrev outcome : Execution → Option (PlanStatus × List String)
outcome (returned p r after) = some (r.status, Dict.keys after)
outcome _ = none

-- The dependency runs first.
in_order : outcome (execute yes_man pair [] (pos 4)) ≡ some (PlanStatus.completed, "a" ∷ "b" ∷ [])
unfolding program
in_order = refl

-- A task whose dependency has failed is run all the same, though `ready_tasks` holds it back.
failed_dependency :
    (is_ready ("a" ∷ []) (task "b" ("a" ∷ [])) ≡ true)
    × (ready_tasks
          (plan_of (record (task "a" []) { status = TaskStatus.failed } ∷ task "b" ("a" ∷ []) ∷ []))
        ≡ [])
unfolding program
failed_dependency = (refl, refl)

-- A cycle is a deadlock.
cycle :
    outcome (execute yes_man (plan_of (task "a" ("b" ∷ []) ∷ task "b" ("a" ∷ []) ∷ [])) [] (pos 4))
    ≡ some (PlanStatus.failed, "a" ∷ "b" ∷ [])
unfolding program
cycle = refl

-- Two tasks of one id in two rounds: the second is never ready, and its deadlock replaces the
-- result of the first.
same_id_twice :
    outcome (execute yes_man (plan_of (task "T?" [] ∷ task "T?" ("T?" ∷ []) ∷ [])) [] (pos 4))
    ≡ some (PlanStatus.failed, "T?" ∷ [])
unfolding program
same_id_twice = refl

-- A list where a dictionary is expected is not caught.
list_answer : decompose (λ t. no_dict) "p" (done "[]") "g" "generic" ≡ none
unfolding program
list_answer = refl

-- Without permits a ready task waits for ever, and a cycle is found all the same.
no_permit :
    (execute yes_man pair [] (pos 0)
      ≡ blocked (record pair {
        status = PlanStatus.running;
        subtasks = task "b" ("a" ∷ []) ∷ record (task "a" []) { status = TaskStatus.running } ∷ [];
      }))
    × (outcome (execute yes_man (plan_of (task "a" ("a" ∷ []) ∷ [])) [] (pos 0))
        ≡ some (PlanStatus.failed, "a" ∷ []))
unfolding program
no_permit = (refl, refl)

execute_total_example :
    ((n : ℕ) × (pos 4 ≡ negsuc n)
      × (execute yes_man pair [] (pos 4)
          ≡ value_error (record pair { status = PlanStatus.running })))
    ⊎ ((t : SubTask) × (ts : List SubTask) × (pos 4 ≡ pos 0)
        × (filter is_independent pair.subtasks ≡ t ∷ ts)
        × (execute yes_man pair [] (pos 4)
            ≡ blocked (record pair {
              status = PlanStatus.running;
              subtasks =
                  map
                    (λ u. if is_independent u then record u { status = TaskStatus.running } else u)
                    pair.subtasks;
            })))
    ⊎ (((pos 4 ≢ pos 0) ⊎ (filter is_independent pair.subtasks ≡ []))
        × Returns (execute yes_man pair [] (pos 4)))
execute_total_example = execute_total yes_man pair [] (pos 4)

execute-Reported_example :
    (p : WorkflowPlan) × (r : WorkflowResult) × (after : Dict SubTaskResult) × (execute yes_man pair
        []
        (pos 4)
      ≡ returned p r after)
    × All (Reported after) p.subtasks
    × All (λ t. is_pending t.status ≡ false) p.subtasks
execute-Reported_example = execute-Reported yes_man pair [] 3 (refl, (refl, tt)) (refl, (refl, tt))

execute-Ordered_example :
    (p : WorkflowPlan) × (r : WorkflowResult) × (after : Dict SubTaskResult) × (execute yes_man pair
        []
        (pos 4)
      ≡ returned p r after)
    × All (AfterDeps after) p.subtasks
execute-Ordered_example = execute-Ordered yes_man pair [] 3 (refl, (refl, tt))

abbrev end_of : Execution → (WorkflowPlan × WorkflowResult × Dict SubTaskResult)
end_of (returned p r after) = (p, r, after)
end_of _ = (
  pair,
  record { plan_id = ""; status = PlanStatus.planned; subtask_results = []; merged_output = "" },
  [],
)

abbrev pair_end : WorkflowPlan × WorkflowResult × Dict SubTaskResult
pair_end = end_of (execute yes_man pair [] (pos 4))

pair_ends :
    (execute yes_man pair [] (pos 4) ≡ returned pair_end.0 pair_end.1 pair_end.2)
    × (pair_end.1.status ≡ PlanStatus.completed)
unfolding program
pair_ends = (refl, refl)

execute_completed_example : All (λ t. is_completed t.status ≡ true) pair_end.0.subtasks
execute_completed_example =
    execute_completed yes_man pair [] (pos 4) pair_end.0 pair_end.1 pair_end.2 (refl, (refl, tt))
      (refl, (refl, tt)) pair_ends.0 pair_ends.1
