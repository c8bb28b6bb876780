-- ===== src/Workflow/Plan.antt =====
-- fusion_code_modelization/workflow/decomposer.py: the tasks of a plan, and the plan that is read
-- from the model's answer.
use fusion_code_modelization.Common.{
  ℕ, String, Bool, true, false, Option, none, some, List, [], ◌∷◌, filter, all, map, contains, ◌==◌,
  ◌&&◌, if◌then◌else◌,
}

pub data TaskStatus : Type 0 where
  pending running completed failed : TaskStatus

pub record SubTask : Type 0 where
  pub task_id : String
  pub title : String
  pub description : String
  pub depends_on : List String
  pub priority : ℕ
  pub status : TaskStatus

pub data PlanStatus : Type 0 where
  planned running completed partial failed : PlanStatus

pub record WorkflowPlan : Type 0 where
  pub plan_id : String
  pub goal : String
  pub subtasks : List SubTask
  pub status : PlanStatus
  pub template : String

-- `t.status == "pending"` and `t.status == "completed"`
abbrev pub is_pending : TaskStatus → Bool
is_pending pending = true
is_pending _ = false

abbrev pub is_completed : TaskStatus → Bool
is_completed completed = true
is_completed _ = false

abbrev pub task_ids : List SubTask → List String
task_ids = map (λ t. t.task_id)

-- `ready_tasks`
unfoldable pub ready_tasks : WorkflowPlan → List SubTask
ready_tasks plan =
    let done = task_ids (filter (λ t. is_completed t.status) plan.subtasks) in
    filter (λ t. is_pending t.status && all (contains done) t.depends_on) plan.subtasks

-- One entry of the answer's `subtasks`: a field is `none` where the key is missing.
pub record EntryData : Type 0 where
  pub task_id : Option String
  pub title : Option String
  pub description : Option String
  pub depends_on : Option (List String)
  pub priority : Option ℕ

pub data Item : Type 0 where
  entry : EntryData → Item
  no_dict_item : Item

-- The outcome of `json.loads`: no JSON, a value that is no dictionary, or a dictionary with the
-- list under `subtasks`, if the key is there.
pub data Answer : Type 0 where
  no_json no_dict : Answer
  dict : Option (List Item) → Answer

-- `AttributeError` is not among the exceptions that `_parse_subtasks` catches.
pub data Parsed : Type 0 where
  tasks : List SubTask → Parsed
  attribute_error : Parsed

abbrev get_or {ℓ} : {A : Type ℓ} → Option A → A → A
get_or none d = d
get_or (some a) d = a

abbrev to_task : EntryData → SubTask
to_task e = record {
  task_id = get_or e.task_id "T?";
  title = get_or e.title "";
  description = get_or e.description "";
  depends_on = get_or e.depends_on [];
  priority = get_or e.priority 5;
  status = pending;
}

abbrev cons_task : SubTask → Parsed → Parsed
cons_task t (tasks ts) = tasks (t ∷ ts)
cons_task t attribute_error = attribute_error

abbrev parse_items : List Item → Parsed
parse_items [] = tasks []
parse_items (entry e ∷ items) = cons_task (to_task e) (parse_items items)
parse_items (no_dict_item ∷ items) = attribute_error

-- `_parse_subtasks`
unfoldable pub parse_subtasks : Answer → Parsed
parse_subtasks no_json = tasks []
parse_subtasks no_dict = attribute_error
parse_subtasks (dict none) = tasks []
parse_subtasks (dict (some items)) = parse_items items

-- The reply of the model's client: a dictionary with the status `completed` or another, a text,
-- another value (with its `str`), or an exception (with its text).
pub data Reply : Type 0 where
  done : String → Reply
  error : Option String → Reply
  text : String → Reply
  other : String → Reply
  raised : String → Reply

-- `_content`; `""` stands for no answer.
abbrev pub content : Reply → String
content (done c) = c
content (error e) = ""
content (text t) = t
content (other s) = ""
content (raised e) = ""

-- `decompose`: `read` is the extraction of the JSON text with `json.loads`, `plan_id` the name made
-- from Python's `hash`, and `none` the escaping `AttributeError`.
unfoldable pub decompose :
    (String → Answer) → String → Reply → String → String → Option WorkflowPlan
decompose read plan_id reply goal template =
    let plan = λ (ts : List SubTask). some (
      let p : WorkflowPlan = record {
        plan_id = plan_id;
        goal = goal;
        subtasks = ts;
        status = planned;
        template = template;
      } in
      p) in
    if content reply == "" then plan [] else elim (parse_subtasks (read (content reply))) [
      | tasks ts ↦ plan ts
      | attribute_error ↦ none
    ]
