-- ===== src/Workflow/Executor/Reports.antt =====
-- What the results of workflow/executor.py say of the tasks: with distinct task ids, each task that
-- is not pending has the result under its id, with the same status.
use mathlib.Core.Bool.{true≢false}
use mathlib.Core.Logic.{⊎_elim}
use fusion_code_modelization.Common.{
  subst, suc, String, ◌≡◌, refl, sym, ◌∙◌, Bool, true, false, Option, none, some, List, [], ◌∷◌,
  filter, map, all, All, length, contains, eq_iff, ◌⊎◌, inl, inr, Bool-cases, List-cases, ℕ, zero,
  suc, ap, arith, if◌then◌else◌, same_text,
}
use fusion_code_modelization.Common.Dict
use fusion_code_modelization.Common.Dict.{Dict, get-set}
use fusion_code_modelization.Workflow.Plan.{
  TaskStatus, PlanStatus, SubTask, WorkflowPlan, task_ids, is_pending, is_completed, Reply,
}
use fusion_code_modelization.Workflow.Executor.{
  SubTaskResult, WorkflowResult, execute_subtask, LoopState, is_ready, settle, deadlock, waiting,
  store_results, finish_tasks, round, fail_pending, conclude, start, run_plan, returned, blocked, ℤ,
  pos, negsuc, execution, execute,
}
use fusion_code_modelization.Workflow.Executor.Ends.{
  none_pending, execute_loop, run_plan_total, loop_keeps,
}

-- No two tasks have the same id.
abbrev pub Distinct : List SubTask → Type 0
Distinct [] = Unit
Distinct (t ∷ ts) = (contains (task_ids ts) t.task_id ≡ false) × Distinct ts

abbrev pub status_of : Option SubTaskResult → Option TaskStatus
status_of none = none
status_of (some r) = some r.status

-- A task that is not pending has the result of its own status.
abbrev pub Reported : Dict SubTaskResult → SubTask → Type 0
Reported results t =
    (is_pending t.status ≡ true) ⊎ (status_of (Dict.get results t.task_id) ≡ some t.status)

abbrev Agrees : LoopState → Type 0
Agrees s = Distinct s.subtasks × All (Reported s.results) s.subtasks

settle-Reported :
    (run : SubTask → SubTaskResult) (chosen : SubTask → Bool) (t : SubTask)
    (before after : Dict SubTaskResult)
    → Reported before t
    → Dict.get after t.task_id ≡ (if chosen t then some (run t) else Dict.get before t.task_id)
    → Reported after (settle run chosen t)
settle-Reported run chosen t before after r a = elim (Bool-cases (chosen t)) [
  | inl y ↦ rw y (inr (rw (a, y)))
  | inr n ↦ rw n (⊎_elim inl (λ e. inr (rw (a, n) e)) r)
]

module _ (run : SubTask → SubTaskResult) (chosen : SubTask → Bool) where
  task_ids-settle : (ts : List SubTask) → task_ids (map (settle run chosen) ts) ≡ task_ids ts
  task_ids-settle [] = refl
  task_ids-settle (t ∷ ts) = ground (arith, task_ids-settle ts)

  Distinct-settle : (ts : List SubTask) → Distinct ts → Distinct (map (settle run chosen) ts)
  Distinct-settle [] d = tt
  Distinct-settle (t ∷ ts) d = (ground (arith, task_ids-settle ts), Distinct-settle ts d.1)

  -- An id that no task has keeps its result.
  get-store_absent :
      (ts : List SubTask) (results : Dict SubTaskResult) (k : String)
      → contains (task_ids ts) k ≡ false
      → Dict.get (store_results run (filter chosen ts) results) k ≡ Dict.get results k
  unfolding store_results
  get-store_absent [] results k h = refl
  get-store_absent (t ∷ ts) results k h = ground (
    arith,
    get-store_absent ts results k,
    get-store_absent ts (Dict.set results t.task_id (run t)) k,
    get-set results t.task_id k (run t),
  )

  -- The stored result of each task of the list.
  abbrev Stored : Dict SubTaskResult → Dict SubTaskResult → SubTask → Type 0
  Stored before after t =
      Dict.get after t.task_id ≡ (if chosen t then some (run t) else Dict.get before t.task_id)

  Stored-set :
      (ts : List SubTask) (before after : Dict SubTaskResult) (k : String) (r : SubTaskResult)
      → contains (task_ids ts) k ≡ false
      → All (Stored (Dict.set before k r) after) ts
      → All (Stored before after) ts
  Stored-set [] before after k r h a = tt
  Stored-set (t ∷ ts) before after k r h a = (
    ground (arith, get-set before k t.task_id r, eq_iff k t.task_id, eq_iff t.task_id k, a.0),
    Stored-set ts before after k r (ground arith) a.1,
  )

  get-store :
      (ts : List SubTask) (results : Dict SubTaskResult)
      → Distinct ts
      → All (Stored results (store_results run (filter chosen ts) results)) ts
  unfolding store_results
  get-store [] results d = tt
  get-store (t ∷ ts) results d = elim (Bool-cases (chosen t)) [
    | inl y ↦
        let before = Dict.set results t.task_id (run t) in
        let after = store_results run (filter chosen ts) before in
        let put : Dict.get after t.task_id ≡ some (run t) =
          get-store_absent ts before t.task_id d.0
          ∙ rw (get-set results t.task_id t.task_id (run t)) (rw (same_text t.task_id)) in
        let head : filter chosen (t ∷ ts) ≡ t ∷ filter chosen ts = rw y in
        subst (λ l. All (Stored results (store_results run l results)) (t ∷ ts)) (sym head)
          (rw y put, Stored-set ts results after t.task_id (run t) d.0 (get-store ts before d.1))
    | inr n ↦
        let head : filter chosen (t ∷ ts) ≡ filter chosen ts = rw n in
        subst (λ l. All (Stored results (store_results run l results)) (t ∷ ts)) (sym head)
          (rw n (get-store_absent ts results t.task_id d.0), get-store ts results d.1)
  ]

  Reported-settle :
      (ts : List SubTask) (before after : Dict SubTaskResult)
      → All (Reported before) ts
      → All (Stored before after) ts
      → All (Reported after) (map (settle run chosen) ts)
  Reported-settle [] before after r a = tt
  Reported-settle (t ∷ ts) before after r a =
      (settle-Reported run chosen t before after r.0 a.0, Reported-settle ts before after r.1 a.1)

  finish_tasks-Agrees : (s : LoopState) → Agrees s → Agrees (finish_tasks run chosen s)
  unfolding finish_tasks
  finish_tasks-Agrees s h = (
    Distinct-settle s.subtasks h.0,
    Reported-settle s.subtasks s.results (store_results run (filter chosen s.subtasks) s.results)
        h.1 (get-store s.subtasks s.results h.0),
  )

round-Agrees :
    (ask : String → Reply) (plan : WorkflowPlan) (s : LoopState)
    → Agrees s
    → Agrees (round ask plan s)
unfolding round
round-Agrees ask plan s h =
    finish_tasks-Agrees (execute_subtask ask plan s.results) (is_ready s.completed_ids) s h

fail_pending-Agrees : (s : LoopState) → Agrees s → Agrees (fail_pending s)
unfolding fail_pending
fail_pending-Agrees s h = finish_tasks-Agrees deadlock waiting s h

all_results_completed :
    (results : Dict SubTaskResult) (k : String) (st : TaskStatus)
    → all (λ r. is_completed r.status) (Dict.values results) ≡ true
    → status_of (Dict.get results k) ≡ some st
    → is_completed st ≡ true
unfolding Dict.get
all_results_completed [] k st h e = cc
all_results_completed ((j, r) ∷ results) k st h e =
    ground (arith, all_results_completed results k st)

all_tasks_completed :
    (results : Dict SubTaskResult) (ts : List SubTask)
    → all (λ r. is_completed r.status) (Dict.values results) ≡ true
    → All (λ t. is_pending t.status ≡ false) ts
    → All (Reported results) ts
    → All (λ t. is_completed t.status ≡ true) ts
all_tasks_completed results [] h p r = tt
all_tasks_completed results (t ∷ ts) h p r = (
  ⊎_elim (λ w. absurd (true≢false (sym w ∙ p.0)))
      (λ e. all_results_completed results t.task_id t.status h e) r.0,
  all_tasks_completed results ts h p.1 r.1,
)

initial-Reported :
    (results : Dict SubTaskResult) (ts : List SubTask)
    → All (λ t. is_pending t.status ≡ true) ts
    → All (Reported results) ts
initial-Reported results [] h = tt
initial-Reported results (t ∷ ts) h = (inl h.0, initial-Reported results ts h.1)

run_plan-both :
    (ask : String → Reply) (plan : WorkflowPlan) (results : Dict SubTaskResult)
    → Distinct plan.subtasks
    → All (λ t. is_pending t.status ≡ true) plan.subtasks
    → (p : WorkflowPlan) × (r : WorkflowResult) × (after : Dict SubTaskResult) × (run_plan ask plan
          results
        ≡ some (p, r, after))
      × All (Reported after) p.subtasks
      × (r.status ≡ PlanStatus.completed → All (λ t. is_completed t.status ≡ true) p.subtasks)
unfolding run_plan conclude
run_plan-both ask plan results d w =
    let (s, ran, gone) = execute_loop ask plan results in
    let kept =
      loop_keeps ask plan Agrees (round-Agrees ask plan) fail_pending-Agrees
        (suc (length plan.subtasks)) (start plan results) s
        (d, initial-Reported results plan.subtasks w) ran in
    (
      (conclude ask plan s).0,
      (conclude ask plan s).1,
      s.results,
      rw (ran, run_plan),
      kept.1,
      λ c.
          all_tasks_completed s.results s.subtasks (ground arith) (none_pending s.subtasks gone)
            kept.1,
    )

-- For a plan with distinct task ids whose tasks are all pending and a `max_parallel` of at least 1:
-- `execute` returns, and afterwards no task of the plan is pending, and each has the result under its
-- id with its own status.
pub execute-Reported :
    (ask : String → Reply) (plan : WorkflowPlan) (results : Dict SubTaskResult) (n : ℕ)
    → Distinct plan.subtasks
    → All (λ t. is_pending t.status ≡ true) plan.subtasks
    → (p : WorkflowPlan) × (r : WorkflowResult) × (after : Dict SubTaskResult) × (execute ask plan
          results
          (pos (suc n))
        ≡ returned p r after)
      × All (Reported after) p.subtasks
      × All (λ t. is_pending t.status ≡ false) p.subtasks
unfolding execute
execute-Reported ask plan results n d w =
    let (p, r, after, e, told, c) = run_plan-both ask plan results d w in
    let (p', r', after', e', settled) = run_plan_total ask plan results in
    let same : p' ≡ p = cc in
    (
      p,
      r,
      after,
      ap execution e,
      told,
      subst (λ x. All (λ t. is_pending t.status ≡ false) x.subtasks) same settled,
    )

-- Whatever `execute` returns is what the loop and its end have made.
execute-run_plan :
    (ask : String → Reply) (plan : WorkflowPlan) (results : Dict SubTaskResult) (max_parallel : ℤ)
    (p : WorkflowPlan) (r : WorkflowResult) (after : Dict SubTaskResult)
    → execute ask plan results max_parallel ≡ returned p r after
    → execution (run_plan ask plan results) ≡ returned p r after
unfolding execute
execute-run_plan ask plan results (negsuc n) p r after e = cc
execute-run_plan ask plan results (pos (suc n)) p r after e = e
execute-run_plan ask plan results (pos zero) p r after e =
    elim (List-cases (filter (λ t. is_ready [] t) plan.subtasks)) [
      | inl nobody ↦ rw nobody at e
      | inr (t, ts, some_ready) ↦ absurd (never _ (rw some_ready at e))
    ]
  where
    never : (q : WorkflowPlan) → blocked q ≡ returned p r after → ⊥
    never q h = cc

-- For a plan with distinct task ids whose tasks are all pending, and any `max_parallel`: if `execute`
-- returns and reports the workflow `completed`, then every task of the plan is completed.
pub execute_completed :
    (ask : String → Reply) (plan : WorkflowPlan) (results : Dict SubTaskResult) (max_parallel : ℤ)
    (p : WorkflowPlan) (r : WorkflowResult) (after : Dict SubTaskResult)
    → Distinct plan.subtasks
    → All (λ t. is_pending t.status ≡ true) plan.subtasks
    → execute ask plan results max_parallel ≡ returned p r after
    → r.status ≡ PlanStatus.completed
    → All (λ t. is_completed t.status ≡ true) p.subtasks
execute_completed ask plan results max_parallel p r after d w e c =
    let (p', r', after', e', told, all_done) = run_plan-both ask plan results d w in
    let ended = execute-run_plan ask plan results max_parallel p r after e in
    let both : returned p' r' after' ≡ returned p r after = sym (ap execution e') ∙ ended in
    let same_plan : p' ≡ p = cc in
    let same_result : r' ≡ r = cc in
    subst (λ x. All (λ t. is_completed t.status ≡ true) x.subtasks) same_plan
      (all_done (rw same_result c))
