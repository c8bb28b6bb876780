-- ===== src/Workflow/Executor/Ends.antt =====
-- How `execute` of workflow/executor.py ends.
use fusion_code_modelization.Common.{
  ℕ, zero, suc, ◌+◌, ◌≤◌, ◌<◌, String, ◌≡◌, refl, Bool, true, false, none, some, List, [], ◌∷◌,
  filter, map, All, length, length-append, length-map, length-filter-le, ltb, Bool-cases,
  List-cases, leb, all, contains, ◌&&◌, ◌≢◌, ◌⊎◌, sym, ◌∙◌, if◌then◌else◌, subst, ap, inl, inr,
  arith,
}
use fusion_code_modelization.Common.Dict.{Dict}
use fusion_code_modelization.Workflow.Plan.{
  TaskStatus, PlanStatus, SubTask, WorkflowPlan, is_pending, Reply, done, error, text, other,
  raised,
}
use fusion_code_modelization.Workflow.Executor.{
  SubTaskResult, WorkflowResult, result_of, execute_subtask, LoopState, add_id, add_ids, is_ready,
  settle, deadlock, waiting, finish_tasks, round, fail_pending, loop, conclude, start, run_plan,
  Execution, returned, value_error, blocked, ℤ, pos, negsuc, execution, execute,
}

abbrev pub pending_count : List SubTask → ℕ
pending_count ts = length (filter waiting ts)

-- Each id that is done belongs to a task that is no longer pending.
abbrev Counted : LoopState → Type 0
Counted s = length s.completed_ids + pending_count s.subtasks ≤ length s.subtasks

pub is_ready-waiting : (ids : List String) (t : SubTask) → is_ready ids t ≡ true → waiting t ≡ true
unfolding is_ready
is_ready-waiting ids t h = ground arith

pub result_not_pending : (tid : String) (r : Reply) → is_pending (result_of tid r).status ≡ false
result_not_pending tid (done c) = refl
result_not_pending tid (error none) = refl
result_not_pending tid (error (some e)) = refl
result_not_pending tid (text t) = refl
result_not_pending tid (other o) = refl
result_not_pending tid (raised e) = refl

pub execute_subtask_not_pending :
    (ask : String → Reply) (plan : WorkflowPlan) (results : Dict SubTaskResult) (t : SubTask)
    → is_pending (execute_subtask ask plan results t).status ≡ false
unfolding execute_subtask
execute_subtask_not_pending ask plan results t = result_not_pending t.task_id (ask _)

length-add_ids :
    (ts : List SubTask) (ids : List String) → length (add_ids ts ids) ≤ length ids + length ts
unfolding add_ids add_id
length-add_ids [] ids = omega arith
length-add_ids (t ∷ ts) ids =
    ground (arith, length-add_ids ts (add_id ids t.task_id), length-append ids (t.task_id ∷ []))

module _ (run : SubTask → SubTaskResult) (chosen : SubTask → Bool)
    (ends : (t : SubTask) → is_pending (run t).status ≡ false)
    (waits : (t : SubTask) → chosen t ≡ true → waiting t ≡ true) where
  pending_count-settle :
      (ts : List SubTask)
      → pending_count (map (settle run chosen) ts) + length (filter chosen ts) ≡ pending_count ts
  pending_count-settle [] = omega arith
  pending_count-settle (t ∷ ts) = ground (arith, pending_count-settle ts, ends t, waits t)

  pub finish_tasks-Counted :
      (s : LoopState)
      → Counted s
      → Counted (finish_tasks run chosen s)
        × (pending_count (finish_tasks run chosen s).subtasks + length (filter chosen s.subtasks)
            ≡ pending_count s.subtasks)
  unfolding finish_tasks
  finish_tasks-Counted s h = (
    omega (
      arith,
      pending_count-settle s.subtasks,
      length-add_ids (filter chosen s.subtasks) s.completed_ids,
      length-map s.subtasks (settle run chosen),
    ),
    pending_count-settle s.subtasks,
  )

round-Counted :
    (ask : String → Reply) (plan : WorkflowPlan) (s : LoopState)
    → Counted s
    → Counted (round ask plan s)
      × (pending_count (round ask plan s).subtasks
            + length (filter (is_ready s.completed_ids) s.subtasks)
          ≡ pending_count s.subtasks)
unfolding round
round-Counted ask plan s h =
    finish_tasks-Counted (execute_subtask ask plan s.results) (is_ready s.completed_ids)
      (execute_subtask_not_pending ask plan s.results) (is_ready-waiting s.completed_ids) s h

fail_pending_none : (s : LoopState) → Counted s → pending_count (fail_pending s).subtasks ≡ 0
unfolding fail_pending
fail_pending_none s h =
    omega (arith, (finish_tasks-Counted deadlock waiting (λ t. refl) (λ t e. e) s h).1)

loop_ends :
    (ask : String → Reply) (plan : WorkflowPlan) (fuel : ℕ) (s : LoopState)
    → Counted s
    → pending_count s.subtasks < fuel
    → (s' : LoopState) × (loop ask plan fuel s ≡ some s') × (pending_count s'.subtasks ≡ 0)
unfolding loop
loop_ends ask plan zero s h lt = absurd (omega arith)
loop_ends ask plan (suc fuel) s h lt =
    elim (Bool-cases (ltb (length s.completed_ids) (length s.subtasks))) [
      | inr stop ↦ (s, rw (stop, loop), ground arith)
      | inl more ↦ elim (List-cases (filter (is_ready s.completed_ids) s.subtasks)) [
        | inl stuck ↦ (fail_pending s, rw (more, stuck, loop), fail_pending_none s h)
        | inr (t, ts, some_ready) ↦
            let (kept, fewer) = round-Counted ask plan s h in
            let less : pending_count (round ask plan s).subtasks < fuel =
              omega (arith, ap length some_ready) in
            let (s', ran, gone) = loop_ends ask plan fuel (round ask plan s) kept less in
            (s', rw (more, some_ready, loop) ran, gone)
      ]
    ]

pub none_pending :
    (ts : List SubTask) → pending_count ts ≡ 0 → All (λ t. is_pending t.status ≡ false) ts
none_pending [] h = tt
none_pending (t ∷ ts) h = elim (Bool-cases (is_pending t.status)) [
  | inl p ↦ absurd (ground arith)
  | inr n ↦ (n, none_pending ts (ground arith))
]

-- The loop that `execute` runs always ends within its fuel, with no task left pending.
pub execute_loop :
    (ask : String → Reply) (plan : WorkflowPlan) (results : Dict SubTaskResult)
    → (s : LoopState) × (loop ask plan (suc (length plan.subtasks)) (start plan results) ≡ some s)
      × (pending_count s.subtasks ≡ 0)
execute_loop ask plan results =
    let few = length-filter-le waiting plan.subtasks in
    loop_ends ask plan (suc (length plan.subtasks)) (start plan results) (omega arith) (omega arith)

pub run_plan_total :
    (ask : String → Reply) (plan : WorkflowPlan) (results : Dict SubTaskResult)
    → (p : WorkflowPlan) × (r : WorkflowResult) × (after : Dict SubTaskResult) × (run_plan ask plan
          results
        ≡ some (p, r, after))
      × All (λ t. is_pending t.status ≡ false) p.subtasks
unfolding run_plan conclude
run_plan_total ask plan results =
    let (s, ran, gone) = execute_loop ask plan results in
    (
      (conclude ask plan s).0,
      (conclude ask plan s).1,
      s.results,
      rw (ran, run_plan),
      none_pending s.subtasks gone,
    )

-- A task that waits for no other.
abbrev pub is_independent : SubTask → Bool
is_independent t = is_pending t.status && leb (length t.depends_on) 0

-- The call returns, and no task is pending then.
abbrev pub Returns : Execution → Type 0
Returns x =
    (p : WorkflowPlan) × (r : WorkflowResult) × (after : Dict SubTaskResult) × (x
      ≡ returned p r after)
    × All (λ t. is_pending t.status ≡ false) p.subtasks

some_inj : {a b : LoopState} → some a ≡ some b → a ≡ b
some_inj e = cc

-- What a round and the deadlock branch keep, the loop keeps.
pub loop_keeps :
    (ask : String → Reply) (plan : WorkflowPlan) (P : LoopState → Type 0)
    (at_round : (s : LoopState) → P s → P (round ask plan s))
    (at_deadlock : (s : LoopState) → P s → P (fail_pending s)) (fuel : ℕ) (s s' : LoopState)
    → P s
    → loop ask plan fuel s ≡ some s'
    → P s'
unfolding loop
loop_keeps ask plan P at_round at_deadlock zero s s' h e = cc
loop_keeps ask plan P at_round at_deadlock (suc fuel) s s' h e =
    elim (Bool-cases (ltb (length s.completed_ids) (length s.subtasks))) [
      | inr stop ↦ let same : s ≡ s' = some_inj (rw (stop, loop) at e) in subst P same h
      | inl more ↦ elim (List-cases (filter (is_ready s.completed_ids) s.subtasks)) [
        | inl stuck ↦
            let same : fail_pending s ≡ s' = some_inj (rw (more, stuck, loop) at e) in
            subst P same (at_deadlock s h)
        | inr (t, ts, some_ready) ↦
            loop_keeps ask plan P at_round at_deadlock fuel (round ask plan s) s' (at_round s h)
              (rw (more, some_ready, loop) at e)
      ]
    ]

independent-ready : (t : SubTask) → is_independent t ≡ is_ready [] t
unfolding is_ready
independent-ready t = by_deps t.depends_on
  where
    by_deps :
        (ids : List String)
        → (is_pending t.status && leb (length ids) 0)
          ≡ (is_pending t.status && all (contains []) ids)
    by_deps [] = refl
    by_deps (_ ∷ _) = ground arith

filter-independent : (ts : List SubTask) → filter is_independent ts ≡ filter (λ t. is_ready [] t) ts
filter-independent [] = refl
filter-independent (t ∷ ts) =
    rw (independent-ready t) (ap (λ l. if is_ready [] t then t ∷ l else l) (filter-independent ts))

set_independent :
    (us : List SubTask)
    → map (λ u. if is_ready [] u then record u { status = TaskStatus.running } else u) us
      ≡ map (λ u. if is_independent u then record u { status = TaskStatus.running } else u) us
set_independent [] = refl
set_independent (u ∷ us) = rw (independent-ready u) (
    ap (λ l. (if is_ready [] u then record u { status = TaskStatus.running } else u) ∷ l)
      (set_independent us))

-- For every plan, every behaviour of the model and every `max_parallel`, `execute` does one of three
-- things. Below 0 it raises. At 0 with a pending task that has no dependencies it waits for ever, and
-- such tasks are left running. Otherwise, which is at 1 or more and at 0 without such a task, it
-- returns, and no task of the plan is pending then.
pub execute_total :
    (ask : String → Reply) (plan : WorkflowPlan) (results : Dict SubTaskResult) (max_parallel : ℤ)
    → ((n : ℕ) × (max_parallel ≡ negsuc n)
        × (execute ask plan results max_parallel
            ≡ value_error (record plan { status = PlanStatus.running })))
      ⊎ ((t : SubTask) × (ts : List SubTask) × (max_parallel ≡ pos 0)
          × (filter is_independent plan.subtasks ≡ t ∷ ts)
          × (execute ask plan results max_parallel
              ≡ blocked (record plan {
                status = PlanStatus.running;
                subtasks =
                    map
                      (λ u.
                        if is_independent u then record u { status = TaskStatus.running } else u)
                      plan.subtasks;
              })))
      ⊎ (((max_parallel ≢ pos 0) ⊎ (filter is_independent plan.subtasks ≡ []))
          × Returns (execute ask plan results max_parallel))
unfolding execute
execute_total ask plan results (negsuc n) = inl (n, refl, refl)
execute_total ask plan results (pos (suc n)) =
    let (p, r, after, e, gone) = run_plan_total ask plan results in
    inr (inr (inl (λ h. some_permit h), (p, r, after, ap execution e, gone)))
  where
    some_permit : {n : ℕ} → pos (suc n) ≡ pos 0 → ⊥
    some_permit h = cc
execute_total ask plan results (pos zero) =
    elim (List-cases (filter is_independent plan.subtasks)) [
      | inl nobody ↦
          let (p, r, after, e, gone) = run_plan_total ask plan results in
          let same = sym (filter-independent plan.subtasks) ∙ nobody in
          inr (inr (inr nobody, (p, r, after, rw same (ap execution e), gone)))
      | inr (t, ts, waits) ↦
          let same = sym (filter-independent plan.subtasks) ∙ waits in
          inr (inl (t, ts, refl, waits, rw same (ap left_running (set_independent plan.subtasks))))
    ]
  where
    left_running : List SubTask → Execution
    left_running us = blocked (record plan { status = PlanStatus.running; subtasks = us })
