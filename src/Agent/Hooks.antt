-- ===== src/Agent/Hooks.antt =====
-- fusion_code_modelization/core/hooks.py: handlers that allow, deny or modify what is about to be done.
-- A payload is a dictionary of texts. The regular expressions and the client of fusion-guard are
-- parameters. What a handler does besides its decision (log lines, audit entries) is left out.
pub mod Laws
use Prim.Native.String.{◌++◌ as ◌+++◌}
use fusion_code_modelization.Common.{
  ℕ, zero, suc, String, Bool, true, false, Option, none, some, List, [], ◌∷◌, ◌++◌, ltb, not, ◌==◌,
  if◌then◌else◌,
}
use fusion_code_modelization.Common.Dict
use fusion_code_modelization.Common.Dict.{Dict}
use fusion_code_modelization.Sandbox.Paths.{is_in}

pub data HookEvent : Type 0 where
  pre_write post_llm pre_exec post_exec : HookEvent

-- `==` of the enum
abbrev pub event_eq : HookEvent → HookEvent → Bool
event_eq pre_write pre_write = true
event_eq post_llm post_llm = true
event_eq pre_exec pre_exec = true
event_eq post_exec post_exec = true
event_eq _ _ = false

pub data HookAction : Type 0 where
  allow deny modify : HookAction

pub record HookDecision : Type 0 where
  pub action : HookAction
  pub reason : String
  pub modified_content : Option String

abbrev pub is_deny : HookAction → Bool
is_deny deny = true
is_deny _ = false

-- `allowed`
abbrev pub allowed : HookDecision → Bool
allowed d = not (is_deny d.action)

abbrev pub plain : HookAction → String → HookDecision
plain action reason = record { action = action; reason = reason; modified_content = none }

abbrev pub Payload : Type 0
Payload = Dict String

-- A call of a handler returns or raises.
pub data Ran : Type 0 where
  decided : HookDecision → Ran
  raised : String → Ran

-- A description, which nothing reads, is left out.
pub record HookHandler : Type 0 where
  pub name : String
  pub event : HookEvent
  pub execute : Payload → Ran

pub record HookRegistry : Type 0 where
  pub handlers : HookEvent → List HookHandler
  pub enabled : Bool

unfoldable pub register : HookRegistry → HookHandler → HookRegistry
register r h = record r {
  handlers = λ e. if event_eq e h.event then r.handlers e ++ h ∷ [] else r.handlers e;
}

-- `{**payload, "content": content}`
abbrev pub with_content : Payload → String → Payload
with_content payload content = Dict.set payload "content" content

-- What follows a decision: `rest` is the rest of the loop.
abbrev pub follow :
    HookAction
    → Option String
    → HookDecision
    → Payload
    → Option HookDecision
    → (Payload → Option HookDecision → HookDecision)
    → HookDecision
follow deny content d payload final rest = d
follow modify (some content) d payload final rest = rest (with_content payload content) (some d)
follow modify none d payload final rest = rest payload final
follow allow content d payload final rest = rest payload final

abbrev pub follow_ran :
    Ran
    → String
    → Payload
    → Option HookDecision
    → (Payload → Option HookDecision → HookDecision)
    → HookDecision
follow_ran (raised e) name payload final rest =
    plain deny ("hook_exception:" +++ name +++ ":" +++ e)
follow_ran (decided d) name payload final rest =
    follow d.action d.modified_content d payload final rest

-- `final_modify`, or the plain permission.
abbrev pub or_allow : Option HookDecision → HookDecision
or_allow none = plain allow ""
or_allow (some d) = d

-- The loop of `emit` over the handlers.
unfoldable pub emit_to : List HookHandler → Payload → Option HookDecision → HookDecision
emit_to [] payload final = or_allow final
emit_to (h ∷ hs) payload final = follow_ran (h.execute payload) h.name payload final (emit_to hs)

unfoldable pub emit : HookRegistry → HookEvent → Payload → HookDecision
emit r event payload =
    if not r.enabled then plain allow "hooks_disabled" else emit_to (r.handlers event) payload none

abbrev pub text_or : Option String → String → String
text_or none d = d
text_or (some s) d = s

unfoldable pub path_guard : (String → Bool) → Payload → Ran
path_guard traversal payload =
    let target = text_or (Dict.get payload "path") "" in
    if target == ""
    then decided (plain allow "no_path")
    else if traversal target
    then decided (plain deny ("path_guard:blocked_path:" +++ target))
    else decided (plain allow "")

unfoldable pub dangerous_cmd_guard : (String → Bool) → Payload → Ran
dangerous_cmd_guard dangerous payload =
    if dangerous (text_or (Dict.get payload "command") (text_or (Dict.get payload "content") ""))
    then decided (plain deny "dangerous_cmd_guard:destructive_command")
    else decided (plain allow "")

-- `subn` is the substitution of the secrets with its count; `show` prints a number.
unfoldable pub secret_scrub : (String → String × ℕ) → (ℕ → String) → Payload → Ran
secret_scrub subn show payload =
    let content = text_or (Dict.get payload "content") "" in
    if content == ""
    then decided (plain allow "no_content")
    else (let (scrubbed, count) = subn content in
        if ltb 0 count
        then decided (record {
          action = modify;
          reason = "secret_scrub:" +++ show count +++ "_secrets";
          modified_content = some scrubbed;
        })
        else decided (plain allow ""))

-- The answer of fusion-guard: a verdict, of which some are named, or an exception.
pub data Verdict : Type 0 where
  block : String → Verdict
  redact : Option String → Verdict
  allow_verdict : Verdict
  other : String → Verdict
  failed : String → Verdict

abbrev pub answer_of : Verdict → HookDecision
answer_of (block reason) = plain deny ("guard:block:" +++ reason)
answer_of (redact none) = plain deny "guard:redact_missing_content"
answer_of (redact (some content)) = record {
  action = modify;
  reason = "guard:redact";
  modified_content = some content;
}
answer_of allow_verdict = plain allow "guard:allow"
answer_of (other action) = plain deny ("guard:unknown_action:" +++ action)
answer_of (failed e) =
    if is_in "unreachable" e
    then plain allow "guard_unreachable_fallback_regex"
    else plain deny ("guard_error_fail_closed:" +++ e)

-- `GuardBridge.evaluate`; there is no client where it is disabled or cannot be made.
unfoldable pub evaluate : Option (Payload → Verdict) → Payload → Ran
evaluate none payload = decided (plain allow "guard_unavailable_fallback_regex")
evaluate (some client) payload = decided (answer_of (client payload))

unfoldable pub audit_log : Payload → Ran
audit_log payload = decided (plain allow "")

-- What `default_registry` takes from outside.
pub record Guards : Type 0 where
  pub traversal : String → Bool
  pub dangerous : String → Bool
  pub subn : String → String × ℕ
  pub show : ℕ → String
  pub client : Option (Payload → Verdict)

abbrev pub handler : String → HookEvent → (Payload → Ran) → HookHandler
handler name event execute = record { name = name; event = event; execute = execute }

abbrev register_all : HookRegistry → List HookHandler → HookRegistry
register_all r [] = r
register_all r (h ∷ hs) = register_all (register r h) hs

unfoldable pub default_registry : Guards → HookRegistry
default_registry g =
    register_all (record { handlers = λ e. []; enabled = true })
      (handler "path_guard" pre_write (path_guard g.traversal)
        ∷ handler "dangerous_cmd_guard" pre_exec (dangerous_cmd_guard g.dangerous)
        ∷ handler "secret_scrub" post_llm (secret_scrub g.subn g.show)
        ∷ handler "secret_scrub_write" pre_write (secret_scrub g.subn g.show)
        ∷ handler "audit_log" post_exec audit_log
        ∷ handler "guard_evaluate" post_llm (evaluate g.client)
        ∷ handler "guard_evaluate_write" pre_write (evaluate g.client)
        ∷ [])
