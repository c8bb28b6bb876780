-- ===== src/Workflow/Executor/Order.antt =====
-- The order of execution in workflow/executor.py: a task runs after its dependencies.
use mathlib.Core.Bool.{true≢false}
use fusion_code_modelization.Common.{
  ℕ, suc, ap, String, ◌≡◌, refl, sym, ◌∙◌, subst, Bool, true, false, some, List, [], ◌∷◌, filter,
  map, all, All, All-append, length, contains, eq_iff, Bool-cases, inl, inr, ◌⊎◌, arith, same_text,
}
use fusion_code_modelization.Common.Dict
use fusion_code_modelization.Common.Dict.{Dict, get-set}
use fusion_code_modelization.Workflow.Plan.{SubTask, WorkflowPlan, is_completed, Reply}
use fusion_code_modelization.Workflow.Executor.{
  SubTaskResult, WorkflowResult, execute_subtask, LoopState, add_id, add_ids, is_ready, settle,
  deadlock, waiting, store_results, finish_tasks, round, fail_pending, conclude, start, run_plan,
  returned, pos, execution, execute,
}
use fusion_code_modelization.Workflow.Executor.Ends.{execute_loop, loop_keeps}

-- Each of the ids has a result.
abbrev pub AllRun : Dict SubTaskResult → List String → Type 0
AllRun results = All (λ d. Dict.has results d ≡ true)

-- If the task is completed, its dependencies have results.
abbrev Ordered : Dict SubTaskResult → SubTask → Type 0
Ordered results t = is_completed t.status ≡ true → AllRun results t.depends_on

abbrev InOrder : LoopState → Type 0
InOrder s = AllRun s.results s.completed_ids × All (Ordered s.results) s.subtasks

AllRun-contains :
    (results : Dict SubTaskResult) (ids : List String) (k : String)
    → AllRun results ids
    → contains ids k ≡ true
    → Dict.has results k ≡ true
AllRun-contains results [] k h c = cc
AllRun-contains results (i ∷ ids) k h c =
    ground (arith, h.0, eq_iff i k, AllRun-contains results ids k h.1)

AllRun-all :
    (results : Dict SubTaskResult) (ids ks : List String)
    → AllRun results ids
    → all (contains ids) ks ≡ true
    → AllRun results ks
AllRun-all results ids [] h c = tt
AllRun-all results ids (k ∷ ks) h c =
    (AllRun-contains results ids k h (ground arith), AllRun-all results ids ks h (ground arith))

module _ (run : SubTask → SubTaskResult) where
  has-store :
      (ts : List SubTask) (results : Dict SubTaskResult) (k : String)
      → Dict.has results k ≡ true
      → Dict.has (store_results run ts results) k ≡ true
  unfolding store_results
  has-store [] results k h = h
  has-store (t ∷ ts) results k h =
      has-store ts (Dict.set results t.task_id (run t)) k
        (ground (arith, get-set results t.task_id k (run t)))

  AllRun-store :
      (ts : List SubTask) (results : Dict SubTaskResult) (ks : List String)
      → AllRun results ks
      → AllRun (store_results run ts results) ks
  AllRun-store ts results [] h = tt
  AllRun-store ts results (k ∷ ks) h = (has-store ts results k h.0, AllRun-store ts results ks h.1)

  AllRun-add_id :
      (results : Dict SubTaskResult) (ids : List String) (k : String)
      → AllRun results ids
      → Dict.has results k ≡ true
      → AllRun results (add_id ids k)
  unfolding add_id
  AllRun-add_id results ids k h r = elim (Bool-cases (contains ids k)) [
    | inl old ↦ rw old h
    | inr new ↦ rw new (All-append (λ d. Dict.has results d ≡ true) ids (k ∷ []) h (r, tt))
  ]

  AllRun-add_ids :
      (ts : List SubTask) (results : Dict SubTaskResult) (ids : List String)
      → AllRun (store_results run ts results) ids
      → AllRun (store_results run ts results) (add_ids ts ids)
  unfolding store_results add_ids
  AllRun-add_ids [] results ids h = h
  AllRun-add_ids (t ∷ ts) results ids h =
      let put = Dict.set results t.task_id (run t) in
      let own : Dict.has put t.task_id ≡ true =
        rw (get-set results t.task_id t.task_id (run t)) (rw (same_text t.task_id)) in
      AllRun-add_ids ts put (add_id ids t.task_id)
        (AllRun-add_id (store_results run ts put) ids t.task_id h (has-store ts put t.task_id own))

  module _ (chosen : SubTask → Bool) (before : Dict SubTaskResult)
      (after_deps : (t : SubTask)
        → chosen t ≡ true
        → is_completed (run t).status ≡ true
        → AllRun before t.depends_on) where
    Ordered-settle :
        (ts : List SubTask) (done : List SubTask)
        → All (Ordered before) ts
        → All (Ordered (store_results run done before)) (map (settle run chosen) ts)
    Ordered-settle [] done h = tt
    Ordered-settle (t ∷ ts) done h = (
      elim (Bool-cases (chosen t)) [
        | inl y ↦ rw y (λ c. AllRun-store done before t.depends_on (after_deps t y c))
        | inr n ↦ rw n (λ c. AllRun-store done before t.depends_on (h.0 c))
      ],
      Ordered-settle ts done h.1,
    )

    finish_tasks-InOrder :
        (s : LoopState) → before ≡ s.results → InOrder s → InOrder (finish_tasks run chosen s)
    unfolding finish_tasks
    finish_tasks-InOrder s e h =
        let done = filter chosen s.subtasks in
        (
          AllRun-add_ids done s.results s.completed_ids
              (AllRun-store done s.results s.completed_ids h.0),
          subst (λ m. All (Ordered (store_results run done m)) (map (settle run chosen) s.subtasks))
              e
              (Ordered-settle s.subtasks done
                (subst (λ m. All (Ordered m) s.subtasks) (sym e) h.1)),
        )

is_ready-deps :
    (ids : List String) (t : SubTask)
    → is_ready ids t ≡ true
    → all (contains ids) t.depends_on ≡ true
unfolding is_ready
is_ready-deps ids t h = ground arith

round-InOrder :
    (ask : String → Reply) (plan : WorkflowPlan) (s : LoopState)
    → InOrder s
    → InOrder (round ask plan s)
unfolding round
round-InOrder ask plan s h =
    finish_tasks-InOrder (execute_subtask ask plan s.results) (is_ready s.completed_ids) s.results
      (λ t r c.
        AllRun-all s.results s.completed_ids t.depends_on h.0 (is_ready-deps s.completed_ids t r))
      s refl h

fail_pending-InOrder : (s : LoopState) → InOrder s → InOrder (fail_pending s)
unfolding fail_pending
fail_pending-InOrder s h = finish_tasks-InOrder deadlock waiting s.results (λ t r c. cc) s refl h

initial-Ordered :
    (results : Dict SubTaskResult) (ts : List SubTask)
    → All (λ t. is_completed t.status ≡ false) ts
    → All (Ordered results) ts
initial-Ordered results [] h = tt
initial-Ordered results (t ∷ ts) h =
    (λ c. absurd (true≢false (sym c ∙ h.0)), initial-Ordered results ts h.1)

-- The task is not completed, or its dependencies have results.
abbrev pub AfterDeps : Dict SubTaskResult → SubTask → Type 0
AfterDeps results t = (is_completed t.status ≡ false) ⊎ AllRun results t.depends_on

AfterDeps-All :
    (results : Dict SubTaskResult) (ts : List SubTask)
    → All (Ordered results) ts
    → All (AfterDeps results) ts
AfterDeps-All results [] h = tt
AfterDeps-All results (t ∷ ts) h = (
  elim (Bool-cases (is_completed t.status)) [ inl y ↦ inr (h.0 y) | inr n ↦ inl n ],
  AfterDeps-All results ts h.1,
)

run_plan-Ordered :
    (ask : String → Reply) (plan : WorkflowPlan) (results : Dict SubTaskResult)
    → All (λ t. is_completed t.status ≡ false) plan.subtasks
    → (p : WorkflowPlan) × (r : WorkflowResult) × (after : Dict SubTaskResult) × (run_plan ask plan
          results
        ≡ some (p, r, after))
      × All (AfterDeps after) p.subtasks
unfolding run_plan conclude
run_plan-Ordered ask plan results w =
    let (s, ran, gone) = execute_loop ask plan results in
    let kept =
      loop_keeps ask plan InOrder (round-InOrder ask plan) fail_pending-InOrder
        (suc (length plan.subtasks)) (start plan results) s
        (tt, initial-Ordered results plan.subtasks w) ran in
    (
      (conclude ask plan s).0,
      (conclude ask plan s).1,
      s.results,
      rw (ran, run_plan),
      AfterDeps-All s.results s.subtasks kept.1,
    )

-- For a plan of which no task is completed yet and a `max_parallel` of at least 1: `execute` returns,
-- and afterwards every dependency of a completed task has a result of its own (completed or failed),
-- also if the plan names a task that does not exist or has a cycle.
pub execute-Ordered :
    (ask : String → Reply) (plan : WorkflowPlan) (results : Dict SubTaskResult) (n : ℕ)
    → All (λ t. is_completed t.status ≡ false) plan.subtasks
    → (p : WorkflowPlan) × (r : WorkflowResult) × (after : Dict SubTaskResult) × (execute ask plan
          results
          (pos (suc n))
        ≡ returned p r after)
      × All (AfterDeps after) p.subtasks
unfolding execute
execute-Ordered ask plan results n w =
    let (p, r, after, e, ordered) = run_plan-Ordered ask plan results w in
    (p, r, after, ap execution e, ordered)
