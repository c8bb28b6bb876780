-- ===== src/Agent/Loop.antt =====
-- fusion_code_modelization/core/agent_loop.py: ask the model, check its answer with a tool, and try
-- again with the error. The model's answer may differ from round to round, so it depends on the number
-- of the round. Log output is left out; the trace file can be written.
pub mod Laws
pub mod Runs
use Prim.Native.Char.{Char}
use Prim.Native.String.{◌++◌ as ◌+++◌}
use fusion_code_modelization.Common.{
  ℕ, zero, suc, ◌+◌, String, Bool, true, false, Option, none, some, List, [], ◌∷◌, ◌++◌, find?, ltb,
  not, is_some, ◌==◌, ◌&&◌, if◌then◌else◌,
}
use fusion_code_modelization.Agent.Hooks.{
  HookEvent, post_llm, pre_exec, HookAction, modify, HookDecision, allowed, Payload, HookRegistry,
  emit,
}

pub data LoopStatus : Type 0 where
  completed failed max_iter_reached hook_denied : LoopStatus

pub record LoopToolResult : Type 0 where
  pub passed : Bool
  pub output : String
  pub error : String

-- A `KeyError` of the tool is caught with that of a name that no tool has.
pub data ToolRan : Type 0 where
  returned : LoopToolResult → ToolRan
  key_error : ToolRan
  raised : String → ToolRan

-- A description, which nothing reads, is left out.
pub record LoopTool : Type 0 where
  pub name : String
  pub execute : String → ToolRan

pub data Decision : Type 0 where
  pass retry_with_feedback llm_failed_retry denied_by_hook unknown_tool_fail_fast : Decision

pub record LoopTrace : Type 0 where
  pub iteration : ℕ
  pub objective : String
  pub llm_response : String
  pub tool_name : String
  pub tool_passed : Bool
  pub tool_output : String
  pub decision : Decision

-- What the client's `chat` returns.
pub data Answer : Type 0 where
  content : String → Answer
  llm_error : Option String → Answer

-- The fields of the loop, the arguments of `run`, and the functions that it calls. `extract` is the
-- argument of that name, or `extract_code` where none is given.
pub record AgentLoop : Type 0 where
  pub chat : ℕ → String → Answer
  pub tools : List LoopTool
  pub max_iter : ℕ
  pub hooks : Option HookRegistry
  pub scrub_secrets : String → String
  pub objective : String
  pub build_prompt : Option String → String
  pub extract : String → String
  pub verify_tool : Option String

-- `trace_file` is the file of `trace_path`, none where there is no path.
pub record LoopVars : Type 0 where
  pub last_output : String
  pub last_error : Option String
  pub traces : List LoopTrace
  pub trace_file : Option (List LoopTrace)

pub record LoopResult : Type 0 where
  pub status : LoopStatus
  pub result : String
  pub verified : Bool
  pub iterations : ℕ
  pub last_error : Option String
  pub traces : List LoopTrace

-- What a round leads to: the next one, or the end.
pub data Next : Type 0 where
  again : LoopVars → Next
  over : LoopResult → Option (List LoopTrace) → Next

-- `text[:n]`
abbrev pub first_chars : ℕ → String → String
first_chars zero s = ""
first_chars (suc n) String.[] = ""
first_chars (suc n) (String.◌∷◌ c s) = String.◌∷◌ c (first_chars n s)

-- `a or b`, for texts
abbrev pub or_text : String → String → String
or_text a b = if a == "" then b else a

abbrev pub or_none : Option String → String → String
or_none none d = d
or_none (some a) d = a

-- The tool that is used: the one named, or the first.
abbrev pub chosen_tool : AgentLoop → Option String
chosen_tool l = elim l.verify_tool [
  | some name ↦ some name
  | none ↦ elim l.tools [ [] ↦ none | t ∷ _ ↦ some t.name ]
]

abbrev pub scrubbed : (String → String) → LoopTrace → LoopTrace
scrubbed scrub t = record t {
  llm_response = scrub t.llm_response;
  tool_output = scrub t.tool_output;
}

-- `_append_trace`: the trace as it is afterwards, and the file.
abbrev pub append_trace :
    (String → String) → Option (List LoopTrace) → LoopTrace → LoopTrace × Option (List LoopTrace)
append_trace scrub none t = (t, none)
append_trace scrub (some file) t = (scrubbed scrub t, some (file ++ scrubbed scrub t ∷ []))

-- A trace is kept in the list too: it is one object.
unfoldable pub note : AgentLoop → LoopVars → LoopTrace → LoopVars
note l v t =
    let (t', file) = append_trace l.scrub_secrets v.trace_file t in
    record v { traces = v.traces ++ t' ∷ []; trace_file = file }

abbrev pub trace_of : AgentLoop → ℕ → String → String → Bool → String → Decision → LoopTrace
trace_of l i response tool tool_passed output decision = record {
  iteration = i;
  objective = l.objective;
  llm_response = response;
  tool_name = tool;
  tool_passed = tool_passed;
  tool_output = output;
  decision = decision;
}

-- What the hooks say: permission without hooks, and the content that is gone on with.
abbrev pub ask_hooks : Option HookRegistry → HookEvent → Payload → Option HookDecision
ask_hooks none event p = none
ask_hooks (some r) event p = some (emit r event p)

abbrev pub is_allowed : Option HookDecision → Bool
is_allowed none = true
is_allowed (some d) = allowed d

abbrev pub reason_of : Option HookDecision → String
reason_of none = ""
reason_of (some d) = d.reason

abbrev modified_or : HookAction → Option String → String → String
modified_or modify (some c) raw = c
modified_or _ _ raw = raw

abbrev pub content_or : Option HookDecision → String → String
content_or none raw = raw
content_or (some d) raw = modified_or d.action d.modified_content raw

abbrev pub find_tool : List LoopTool → String → Option LoopTool
find_tool tools name = find? (λ t. t.name == name) tools

-- The end of a round, once the tool has answered (or there is none).
unfoldable pub judge :
    AgentLoop → ℕ → LoopVars → String → String → Option String → LoopToolResult → Next
judge l i v raw produced tool r =
    let v' =
      note l (record v { last_output = produced })
        (trace_of l i (first_chars 500 raw) (or_none tool "") r.passed
          (first_chars 500 (or_text r.output r.error))
          (if r.passed then pass else retry_with_feedback)) in
    if r.passed
    then over
        (record {
          status = completed;
          result = produced;
          verified = true;
          iterations = i;
          last_error = none;
          traces = v'.traces;
        })
        v'.trace_file
    else again
        (record v' { last_error = some (or_text r.error (or_text r.output "verify_failed")) })

abbrev unknown_tool : AgentLoop → ℕ → LoopVars → String → String → Next
unknown_tool l i v raw name =
    over
      (record {
        status = failed;
        result = "";
        verified = false;
        iterations = i;
        last_error = some ("unknown_tool:" +++ name);
        traces = v.traces;
      })
      (append_trace l.scrub_secrets v.trace_file
        (trace_of l i (first_chars 500 raw) name false "" unknown_tool_fail_fast)).1

abbrev after_tool : AgentLoop → ℕ → LoopVars → String → String → String → ToolRan → Next
after_tool l i v raw produced name (returned r) = judge l i v raw produced (some name) r
after_tool l i v raw produced name key_error = unknown_tool l i v raw name
after_tool l i v raw produced name (raised e) =
    judge l i v raw produced (some name)
      (record { passed = false; output = ""; error = "tool_exception:" +++ e })

abbrev run_tool : AgentLoop → ℕ → LoopVars → String → String → String → Option LoopTool → Next
run_tool l i v raw produced name none = unknown_tool l i v raw name
run_tool l i v raw produced name (some t) = after_tool l i v raw produced name (t.execute produced)

-- The check by a tool, which the hooks may deny.
unfoldable pub verify : AgentLoop → ℕ → LoopVars → String → String → Option String → Next
verify l i v raw produced none =
    judge l i v raw produced none (record { passed = true; output = ""; error = "" })
verify l i v raw produced (some name) =
    let d =
      ask_hooks l.hooks pre_exec
        (("content", produced) ∷ ("tool", name) ∷ ("objective", l.objective) ∷ []) in
    if is_allowed d
    then run_tool l i v raw produced name (find_tool l.tools name)
    else again
        (record (note l (record v { last_output = produced })
          (trace_of l i (first_chars 500 raw) name false "" denied_by_hook)) {
            last_error = some ("hook_denied:" +++ reason_of d);
          })

abbrev answered : AgentLoop → ℕ → LoopVars → Answer → Next
answered l i v (llm_error e) =
    again (record (note l v (trace_of l i "" "" false "" llm_failed_retry)) {
      last_error = some (or_none e "llm_failed");
    })
answered l i v (content raw) =
    let d = ask_hooks l.hooks post_llm (("content", raw) ∷ ("objective", l.objective) ∷ []) in
    if is_allowed d
    then verify l i v (content_or d raw) (l.extract (content_or d raw)) (chosen_tool l)
    else again (record (note l v (trace_of l i (first_chars 500 raw) "" false "" denied_by_hook)) {
      last_error = some (reason_of d);
    })

-- Round `i`, counted from 1.
unfoldable pub iterate : AgentLoop → ℕ → LoopVars → Next
iterate l i v =
    answered l i v
      (l.chat i (l.build_prompt (if ltb 1 i then some (or_none v.last_error "") else none)))

abbrev exhausted : AgentLoop → LoopVars → LoopResult
exhausted l v = record {
  status = max_iter_reached;
  result = v.last_output;
  verified = false;
  iterations = l.max_iter;
  last_error = v.last_error;
  traces = v.traces;
}

-- `rounds` are left, and the next is `i`.
unfoldable pub rounds_from : AgentLoop → ℕ → ℕ → LoopVars → LoopResult × Option (List LoopTrace)
rounds_from l zero i v = (exhausted l v, v.trace_file)
rounds_from l (suc rounds) i v = elim (iterate l i v) [
  | again v' ↦ rounds_from l rounds (i + 1) v'
  | over r file ↦ (r, file)
]

-- `run`, over the trace file as it is.
unfoldable pub run : AgentLoop → Option (List LoopTrace) → LoopResult × Option (List LoopTrace)
run l file =
    rounds_from l l.max_iter 1
      (record { last_output = ""; last_error = none; traces = []; trace_file = file })
