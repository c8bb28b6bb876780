-- ===== src/Agent/Tests.antt =====
-- Tests of the hooks and of the agent loop of fusion_code_modelization/core.
use fusion_code_modelization.Common.{
  Bool, inl, inr, Bool-cases, List, subst, ℕ, String, ◌≡◌, refl, true, none, some, [], ◌∷◌, ◌==◌,
  ◌≤◌, ltb, length, if◌then◌else◌,
}
use mathlib.Core.Logic.{◌↔◌}
use fusion_code_modelization.Common.Dict
use fusion_code_modelization.Agent.Hooks.{
  pre_write, allowed, plain, deny, Payload, HookRegistry, emit, emit_to, register, path_guard,
  secret_scrub, evaluate, dangerous_cmd_guard, Guards, default_registry,
}
use fusion_code_modelization.Agent.Hooks.Laws.{Passes, content_of, emit-Passes}
use fusion_code_modelization.Agent.Writer.{
  as_text, Disk, SafeWriter, payload_for, resolve_within, ask, ask_each, write_text,
}
use fusion_code_modelization.Agent.Writer.Laws.{WriteCase, write_text-emit}
use fusion_code_modelization.Agent.Writer.Runs.{
  Call, text_call, unlink_call, mkdir_call, perform_all, perform_all_outside,
}
use fusion_code_modelization.Agent.Writer.Clean.{
  IsClean, IsCleanContent, IsCleanDisk, perform_all-Clean,
}
use fusion_code_modelization.Agent.Loop.{
  completed, returned, LoopTool, Answer, content, llm_error, AgentLoop, run, rounds_from, iterate,
  verify, judge, note,
}
use fusion_code_modelization.Agent.Loop.Laws.{IsVerified}
use fusion_code_modelization.Agent.Loop.Runs.{ScrubbedFile, run-IsVerified, run-ScrubbedFile}

-- The one secret is "key=1", the one destructive command "rm /", the one bad path "../x".
abbrev subn : String → String × ℕ
subn s = if s == "key=1" then ("***", 1) else (s, 0)

abbrev guards : Guards
guards = record {
  traversal = λ s. s == "../x";
  dangerous = λ s. s == "rm /";
  subn = subn;
  show = λ n. "1";
  client = none;
}

abbrev hooks : HookRegistry
hooks = default_registry guards

abbrev write_key : Payload
write_key = ("path", "a.py") ∷ ("content", "key=1") ∷ []

test_scrubs : content_of (emit hooks pre_write write_key) write_key ≡ some "***"
unfolding emit emit_to default_registry register path_guard secret_scrub evaluate Dict.get
test_scrubs = refl

test_blocks :
    emit hooks pre_write (("path", "../x") ∷ []) ≡ plain deny "path_guard:blocked_path:../x"
unfolding emit emit_to default_registry register path_guard secret_scrub evaluate Dict.get
test_blocks = refl

hooks_on : hooks.enabled ≡ true
unfolding default_registry register
hooks_on = refl

emit-Passes_example : allowed (emit hooks pre_write write_key) ≡ true ↔ (
    (q : Payload) × Passes (hooks.handlers pre_write) write_key q
    × (content_of (emit hooks pre_write write_key) write_key ≡ Dict.get q "content"))
emit-Passes_example = emit-Passes hooks pre_write write_key hooks_on

-- The model first gives up, then sends a text that the tool refuses, and then the right one.
abbrev answers : ℕ → String → Answer
answers i p =
    if ltb i 2
    then llm_error (some "timeout")
    else if ltb i 3
    then content "bad"
    else content "key=1"

abbrev compiles : LoopTool
compiles = record {
  name = "compiles";
  execute = λ s.
      returned
        (record { passed = s == "***"; output = ""; error = if s == "***" then "" else "syntax" });
}

abbrev agent_loop : AgentLoop
agent_loop = record {
  chat = answers;
  tools = compiles ∷ [];
  max_iter = 5;
  hooks = some hooks;
  scrub_secrets = λ s. (subn s).0;
  objective = "o";
  build_prompt = λ e. "p";
  extract = λ s. s;
  verify_tool = none;
}

test_third_round :
    ((run agent_loop (some [])).0.result ≡ "***")
    × ((run agent_loop (some [])).0.iterations ≡ 3)
    × (length (run agent_loop (some [])).0.traces ≡ 3)
unfolding run rounds_from iterate verify judge note emit emit_to default_registry register
    path_guard secret_scrub evaluate dangerous_cmd_guard Dict.get
test_third_round = (refl, refl, refl)

run_verified : (run agent_loop (some [])).0.verified ≡ true
unfolding run rounds_from iterate verify judge note emit emit_to default_registry register
    path_guard secret_scrub evaluate dangerous_cmd_guard Dict.get
run_verified = refl

run-IsVerified_example :
    (1 ≤ (run agent_loop (some [])).0.iterations)
    × ((run agent_loop (some [])).0.iterations ≤ 5)
    × ((run agent_loop (some [])).0.status ≡ completed)
    × IsVerified agent_loop
        (run agent_loop (some [])).0.iterations
        (run agent_loop (some [])).0.result
run-IsVerified_example = run-IsVerified agent_loop (some []) run_verified

run-ScrubbedFile_example : ScrubbedFile (λ s. (subn s).0) (run agent_loop (some [])).1
run-ScrubbedFile_example = run-ScrubbedFile agent_loop [] tt

abbrev resolve : String → String
resolve s = if s == "/p/../etc" then "/etc" else s

abbrev writer : SafeWriter
writer = record { project_root = "/p"; registry = some hooks; strict = true }

abbrev disk : Disk
disk = record { files = ("/etc", as_text "root") ∷ []; dirs = [] }

test_stores_scrubbed :
    (write_text resolve writer disk "a/b.py" "key=1").0.files
    ≡ ("/etc", as_text "root") ∷ ("/p/a/b.py", as_text "***") ∷ []
unfolding write_text resolve_within ask ask_each Dict.set default_registry register path_guard
    secret_scrub evaluate Dict.get
test_stores_scrubbed = refl

test_escape : (write_text resolve writer disk "../etc" "x").0 ≡ disk
unfolding write_text resolve_within
test_escape = refl

abbrev write_payload : Payload
write_payload = payload_for "write" "a/b.py" (some "key=1")

write_text-emit_example :
    WriteCase writer disk "/p/a/b.py" write_payload
      (emit hooks pre_write write_payload)
      (write_text resolve writer disk "a/b.py" "key=1")
write_text-emit_example = write_text-emit resolve writer disk "a/b.py" "key=1" hooks refl hooks_on

abbrev calls : List Call
calls =
    text_call "a/b.py" "key=1" ∷ text_call "../etc" "x" ∷ unlink_call "a/b.py" ∷ mkdir_call "c" ∷ []

perform_all_outside_example :
    Dict.get (perform_all resolve writer disk calls).files "/etc" ≡ Dict.get disk.files "/etc"
perform_all_outside_example = perform_all_outside resolve writer calls disk "/etc" refl refl

subn-IsClean : (s : String) → IsClean guards (subn s).0
subn-IsClean s = elim (Bool-cases (s == "key=1")) [
  | inl y ↦ rw y (inr refl)
  | inr n ↦ rw n (inr (rw n refl))
]

disk-IsCleanDisk : IsCleanDisk guards disk
unfolding Dict.get
disk-IsCleanDisk p c e =
    let root : (b : Bool)
        → (if b then some (as_text "root") else none) ≡ some c
        → IsCleanContent guards c =
      λ b at. elim (Bool-cases b) [
        | inl y ↦
            let same : as_text "root" ≡ c =
              let at_true : some (as_text "root") ≡ some c =
                subst (λ x. (if x then some (as_text "root") else none) ≡ some c) y at in
              cc in
            subst (IsCleanContent guards) same (inr refl)
        | inr n ↦
            let bad : none ≡ some c =
              subst (λ x. (if x then some (as_text "root") else none) ≡ some c) n at in
            cc
      ] in
    root ("/etc" == p) e

perform_all-Clean_example : IsCleanDisk guards (perform_all resolve writer disk calls)
perform_all-Clean_example =
    perform_all-Clean guards subn-IsClean resolve writer calls disk refl (λ client p s e f. cc)
      disk-IsCleanDisk
