-- ===== src/Workflow/Executor.antt =====
-- fusion_code_modelization/workflow/executor.py. The tasks of one round run at the same time, and
-- their results are stored when all have ended, so each sees the results of the earlier rounds
-- only. `ask` is `client.chat` on a prompt. Times and progress callbacks are left out.
pub mod Ends
pub mod Reports
pub mod Order
use Prim.Native.String.{◌++◌ as ◌+++◌}
use fusion_code_modelization.Common.{
  ℕ, zero, suc, String, Bool, true, false, Option, none, some, List, [], ◌∷◌, ◌++◌, filter, all,
  map, contains, length, ltb, not, is_some, ◌==◌, ◌&&◌, if◌then◌else◌,
}
use fusion_code_modelization.Common.Dict
use fusion_code_modelization.Common.Dict.{Dict}
use fusion_code_modelization.Workflow.Plan.{
  TaskStatus, PlanStatus, SubTask, WorkflowPlan, is_pending, is_completed, Reply, done, error, text,
  other, raised,
}

pub record SubTaskResult : Type 0 where
  pub task_id : String
  pub status : TaskStatus
  pub output : String
  pub error : String

pub record WorkflowResult : Type 0 where
  pub plan_id : String
  pub status : PlanStatus
  pub subtask_results : List SubTaskResult
  pub merged_output : String

unfoldable pub success_count : List SubTaskResult → ℕ
success_count rs = length (filter (λ r. is_completed r.status) rs)

-- The outputs of the dependencies, as `execute_subtask` puts them into its prompt.
abbrev dep_outputs : Dict SubTaskResult → List String → String
dep_outputs results [] = ""
dep_outputs results (d ∷ ds) =
    let rest = dep_outputs results ds in
    elim (Dict.get results d) [
      | none ↦ rest
      | some r ↦
          if r.output == ""
          then rest
          else "\n[Dependency " +++ d +++ " output]:\n" +++ r.output +++ "\n" +++ rest
    ]

abbrev prompt_for : WorkflowPlan → Dict SubTaskResult → SubTask → String
prompt_for plan results t =
    "You are a sub-agent executing a specific task within a larger workflow.\nOverall goal: "
    +++ plan.goal
    +++ "\nYour task: "
    +++ t.title
    +++ "\nDescription: "
    +++ t.description
    +++ "\n"
    +++ dep_outputs results t.depends_on
    +++ "\nExecute this task and provide your output."

abbrev result_of : String → Reply → SubTaskResult
result_of tid (done c) = record {
  task_id = tid;
  status = TaskStatus.completed;
  output = c;
  error = "";
}
result_of tid (error none) = record {
  task_id = tid;
  status = TaskStatus.failed;
  output = "";
  error = "llm_failed";
}
result_of tid (error (some e)) = record {
  task_id = tid;
  status = TaskStatus.failed;
  output = "";
  error = e;
}
result_of tid (text t) = record {
  task_id = tid;
  status = TaskStatus.failed;
  output = "";
  error = "llm_failed";
}
result_of tid (other o) = record {
  task_id = tid;
  status = TaskStatus.failed;
  output = "";
  error = "llm_failed";
}
result_of tid (raised e) = record {
  task_id = tid;
  status = TaskStatus.failed;
  output = "";
  error = e;
}

unfoldable pub execute_subtask :
    (String → Reply) → WorkflowPlan → Dict SubTaskResult → SubTask → SubTaskResult
execute_subtask ask plan results t = result_of t.task_id (ask (prompt_for plan results t))

-- The variables of the loop: the tasks, `completed_ids` and `self._results`.
pub record LoopState : Type 0 where
  pub subtasks : List SubTask
  pub completed_ids : List String
  pub results : Dict SubTaskResult

-- `completed_ids.add(tid)`, on a set
unfoldable pub add_id : List String → String → List String
add_id ids tid = if contains ids tid then ids else ids ++ tid ∷ []

unfoldable pub is_ready : List String → SubTask → Bool
is_ready ids t =
    not (contains ids t.task_id) && is_pending t.status && all (contains ids) t.depends_on

-- The end of a round: each ready task takes the status of its result, the results are stored and
-- the ids added.
abbrev settle : (SubTask → SubTaskResult) → (SubTask → Bool) → SubTask → SubTask
settle run ready t = if ready t then record t { status = (run t).status } else t

unfoldable pub store_results :
    (SubTask → SubTaskResult) → List SubTask → Dict SubTaskResult → Dict SubTaskResult
store_results run [] results = results
store_results run (t ∷ ts) results = store_results run ts (Dict.set results t.task_id (run t))

unfoldable pub add_ids : List SubTask → List String → List String
add_ids [] ids = ids
add_ids (t ∷ ts) ids = add_ids ts (add_id ids t.task_id)

abbrev deadlock : SubTask → SubTaskResult
deadlock t = record {
  task_id = t.task_id;
  status = TaskStatus.failed;
  output = "";
  error = "deadlock";
}

-- What a round and the deadlock branch share.
unfoldable pub finish_tasks : (SubTask → SubTaskResult) → (SubTask → Bool) → LoopState → LoopState
finish_tasks run chosen s = record {
  subtasks = map (settle run chosen) s.subtasks;
  completed_ids = add_ids (filter chosen s.subtasks) s.completed_ids;
  results = store_results run (filter chosen s.subtasks) s.results;
}

abbrev waiting : SubTask → Bool
waiting t = is_pending t.status

unfoldable pub round : (String → Reply) → WorkflowPlan → LoopState → LoopState
round ask plan s = finish_tasks (execute_subtask ask plan s.results) (is_ready s.completed_ids) s

unfoldable pub fail_pending : LoopState → LoopState
fail_pending s = finish_tasks deadlock waiting s

-- The `while` loop; `none` means that the fuel ran out.
unfoldable pub loop : (String → Reply) → WorkflowPlan → ℕ → LoopState → Option LoopState
loop ask plan zero s = none
loop ask plan (suc fuel) s =
    let next = loop ask plan fuel (round ask plan s) in
    if ltb (length s.completed_ids) (length s.subtasks)
    then (elim (filter (is_ready s.completed_ids) s.subtasks) [
      | [] ↦ some (fail_pending s)
      | _ ∷ _ ↦ next
    ])
    else some s

abbrev results_text : List SubTaskResult → String
results_text [] = ""
results_text (r ∷ []) = "[" +++ r.task_id +++ "]: " +++ r.output
results_text (r ∷ q ∷ rs) =
    "[" +++ r.task_id +++ "]: " +++ r.output +++ "\n---\n" +++ results_text (q ∷ rs)

-- `MERGE_PROMPT`
abbrev merge_prompt : String → String → String
merge_prompt goal results =
    "You are a code integration engine. Merge the following sub-task results into a coherent final output.\n\nGoal: "
    +++ goal +++ "\n\nSub-task results:\n" +++ results
    +++ "\n\nProduce a unified summary that:\n1. Integrates all code changes\n2. Resolves any conflicts\n3. Provides a final summary of what was accomplished\n\nOutput the merged result:"

unfoldable pub merge_results : (String → Reply) → WorkflowPlan → List SubTaskResult → String
merge_results ask plan rs =
    elim (ask (merge_prompt plan.goal (results_text (filter (λ r. not (r.output == "")) rs)))) [
      | done c ↦ c
      | error none ↦ "Merge error: llm_failed"
      | error (some e) ↦ "Merge error: " +++ e
      | text t ↦ t
      | other o ↦ o
      | raised e ↦ "Merge error: " +++ e
    ]

abbrev is_nonempty {ℓ} : {A : Type ℓ} → List A → Bool
is_nonempty [] = false
is_nonempty (x ∷ xs) = true

-- What follows the loop: the plan and the result.
unfoldable pub conclude :
    (String → Reply) → WorkflowPlan → LoopState → WorkflowPlan × WorkflowResult
conclude ask plan s =
    let rs = Dict.values s.results in
    let all_ok = all (λ r. is_completed r.status) rs in
    let status =
      if all_ok && is_nonempty rs
      then PlanStatus.completed
      else if ltb 0 (success_count rs)
      then PlanStatus.partial
      else PlanStatus.failed in
    (
      record plan { subtasks = s.subtasks; status = status },
      record {
        plan_id = plan.plan_id;
        status = status;
        subtask_results = rs;
        merged_output = if all_ok && is_nonempty rs then merge_results ask plan rs else "";
      },
    )

abbrev pub start : WorkflowPlan → Dict SubTaskResult → LoopState
start plan results = record { subtasks = plan.subtasks; completed_ids = []; results = results }

-- The loop and what follows it, on an executor that holds `results`, with fuel for one round more
-- than there are tasks.
unfoldable pub run_plan :
    (String → Reply)
    → WorkflowPlan
    → Dict SubTaskResult
    → Option (WorkflowPlan × WorkflowResult × Dict SubTaskResult)
run_plan ask plan results = elim (loop ask plan (suc (length plan.subtasks)) (start plan results)) [
  | none ↦ none
  | some s ↦ let (p, r) = conclude ask plan s in some (p, r, s.results)
]

-- A Python integer: `negsuc n` is - n - 1.
pub data ℤ : Type 0 where
  pos negsuc : ℕ → ℤ

-- How `execute` ends: it returns; the semaphore refuses its count; or it waits for a permit that nobody
-- gives. The last two have the plan as it is left.
pub data Execution : Type 0 where
  returned : WorkflowPlan → WorkflowResult → Dict SubTaskResult → Execution
  value_error blocked : WorkflowPlan → Execution
  out_of_fuel : Execution

abbrev pub execution : Option (WorkflowPlan × WorkflowResult × Dict SubTaskResult) → Execution
execution none = out_of_fuel
execution (some (p, r, after)) = returned p r after

abbrev is_first : SubTask → Bool
is_first t = is_ready [] t

abbrev set_running : SubTask → SubTask
set_running t = if is_first t then record t { status = TaskStatus.running } else t

-- `execute` with `max_parallel` permits: with none of them, the first round that has a ready task waits
-- for ever. With at least one every task of a round gets its turn, and since the tasks of a round do
-- not see each other, the results are the same in any order.
unfoldable pub execute : (String → Reply) → WorkflowPlan → Dict SubTaskResult → ℤ → Execution
execute ask plan results (negsuc n) = value_error (record plan { status = PlanStatus.running })
execute ask plan results (pos zero) =
    let ended = execution (run_plan ask plan results) in
    if is_nonempty (filter is_first plan.subtasks)
    then blocked
        (record plan { status = PlanStatus.running; subtasks = map set_running plan.subtasks })
    else ended
execute ask plan results (pos (suc n)) = execution (run_plan ask plan results)
