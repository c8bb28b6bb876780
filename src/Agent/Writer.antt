-- ===== src/Agent/Writer.antt =====
-- fusion_code_modelization/core/safe_writer.py: writes that stay inside the project and that the hooks
-- have let pass. The disk is the files by absolute path and the directories that were made. `resolve`
-- is `Path(...).expanduser().resolve()`. An error of the disk itself is left out.
pub mod Laws
pub mod Runs
pub mod Clean
use Prim.Native.Char.{code}
use Prim.Native.String.{◌++◌ as ◌+++◌, len, slice}
use text.Mathlib.Text.{starts_with}
use fusion_code_modelization.Common.{
  ℕ, zero, suc, ◌+◌, String, Bool, true, false, Option, none, some, List, [], ◌∷◌, ◌++◌, leb, not,
  ◌==◌, ◌&&◌, contains, if◌then◌else◌,
}
use fusion_code_modelization.Common.Dict
use fusion_code_modelization.Common.Dict.{Dict}
use fusion_code_modelization.Sandbox.Paths.{is_within}
use fusion_code_modelization.Agent.Hooks.{
  HookEvent, pre_write, HookAction, allow, deny, modify, HookDecision, plain, Payload, Ran, decided,
  raised, HookHandler, HookRegistry, with_content, or_allow,
}

pub data Content : Type 0 where
  as_text : String → Content
  as_bytes : List ℕ → Content

pub record Disk : Type 0 where
  pub files : Dict Content
  pub dirs : List String

pub record SafeWriter : Type 0 where
  pub project_root : String
  pub registry : Option HookRegistry
  pub strict : Bool

-- A call returns or raises `UnsafePathError`.
pub data Result {ℓ} (A : Type ℓ) : Type ℓ where
  ok : A → Result A
  unsafe : String → Result A

-- What `_emit` returns.
abbrev pub Asked : Type 0
Asked = Result HookDecision

-- `self.project_root / target`, unless the path is absolute.
abbrev pub anchored : SafeWriter → String → String
anchored w path = if starts_with path "/" then path else w.project_root +++ "/" +++ path

unfoldable pub resolve_within : (String → String) → SafeWriter → String → Result String
resolve_within resolve w path =
    let resolved = resolve (anchored w path) in
    if not w.strict
    then ok resolved
    else if is_within resolved w.project_root
    then ok resolved
    else unsafe ("path escapes project_root: " +++ path +++ " -> " +++ resolved)

-- `str(resolved.relative_to(dir))`, for a path that is within `dir`
abbrev pub relative_to : String → String → String
relative_to resolved dir =
    if resolved == dir
    then "."
    else if dir == "/"
    then slice resolved 1 (len resolved)
    else slice resolved (len dir + 1) (len resolved)

-- `_rel`
abbrev pub rel_of : SafeWriter → String → String
rel_of w resolved =
    if is_within resolved w.project_root then relative_to resolved w.project_root else resolved

-- What follows the decision of one handler: `rest` is the rest of the loop.
abbrev pub ask_follow :
    HookAction
    → Option String
    → HookDecision
    → String
    → Payload
    → Option HookDecision
    → (Payload → Option HookDecision → Asked)
    → Asked
ask_follow deny content d what payload final rest =
    unsafe ("hook denied " +++ what +++ ": " +++ d.reason)
ask_follow modify (some content) d what payload final rest =
    rest (with_content payload content) (some d)
ask_follow modify none d what payload final rest = rest payload final
ask_follow allow content d what payload final rest = rest payload final

abbrev pub ask_ran :
    Ran
    → String
    → String
    → Payload
    → Option HookDecision
    → (Payload → Option HookDecision → Asked)
    → Asked
ask_ran (raised e) name what payload final rest = unsafe ("hook_exception:" +++ name +++ ":" +++ e)
ask_ran (decided d) name what payload final rest =
    ask_follow d.action d.modified_content d what payload final rest

-- The loop of `_emit`; `what` is the action and the path, for the error.
unfoldable pub ask_each : List HookHandler → String → Payload → Option HookDecision → Asked
ask_each [] what payload final = ok (or_allow final)
ask_each (h ∷ hs) what payload final =
    ask_ran (h.execute payload) h.name what payload final (ask_each hs what)

abbrev pub content_entry : Option String → Payload
content_entry none = []
content_entry (some content) = ("content", content) ∷ []

abbrev pub payload_for : String → String → Option String → Payload
payload_for action rel content =
    ("event", "pre_write") ∷ ("action", action) ∷ ("path", rel) ∷ content_entry content

abbrev pub ask_registry : Option HookRegistry → String → String → Option String → Asked
ask_registry none action rel content = ok (plain allow "no_registry")
ask_registry (some r) action rel content =
    if not r.enabled
    then ok (plain allow "no_registry")
    else ask_each (r.handlers pre_write) (action +++ " " +++ rel) (payload_for action rel content)
        none

-- `_emit`
unfoldable pub ask : SafeWriter → String → String → Option String → Asked
ask w action rel content = ask_registry w.registry action rel content

abbrev pub modified_or : HookAction → Option String → String → String
modified_or modify (some c) content = c
modified_or _ _ content = content

-- `_apply_modify`
abbrev pub apply_modify : HookDecision → String → String
apply_modify d content = modified_or d.action d.modified_content content

-- The directories above a path, from the top; `acc` is what is read of it.
abbrev pub parents_from : String → String → List String
parents_from acc String.[] = []
parents_from acc (String.◌∷◌ c s) =
    let rest = parents_from (acc +++ String.◌∷◌ c "") s in
    if leb 47 (code c) && (leb (code c) 47 && not (acc == "")) then acc ∷ rest else rest

abbrev pub add_dir : List String → String → List String
add_dir dirs p = if contains dirs p then dirs else dirs ++ p ∷ []

-- `mkdir(parents=True, exist_ok=True)` of each of the paths
abbrev pub make_dirs : List String → List String → List String
make_dirs dirs [] = dirs
make_dirs dirs (p ∷ ps) = make_dirs (add_dir dirs p) ps

-- `resolved.parent.mkdir(...)` and the write
abbrev pub put_file : Disk → String → Content → Disk
put_file disk resolved c = record {
  files = Dict.set disk.files resolved c;
  dirs = make_dirs disk.dirs (parents_from "" resolved);
}

abbrev pub put_asked : Disk → String → (HookDecision → Content) → Asked → Disk × Result String
put_asked disk resolved content (unsafe e) = (disk, unsafe e)
put_asked disk resolved content (ok d) = (put_file disk resolved (content d), ok resolved)

abbrev pub unlink_asked : Disk → String → Asked → Disk × Result Bool
unlink_asked disk resolved (unsafe e) = (disk, unsafe e)
unlink_asked disk resolved (ok d) =
    if Dict.has disk.files resolved
    then (record disk { files = Dict.remove disk.files resolved }, ok true)
    else (disk, ok false)

abbrev pub mkdir_asked : Disk → String → Asked → Disk × Result String
mkdir_asked disk resolved (unsafe e) = (disk, unsafe e)
mkdir_asked disk resolved (ok d) = (
  record disk { dirs = add_dir (make_dirs disk.dirs (parents_from "" resolved)) resolved },
  ok resolved,
)

-- The path is resolved first, and nothing is done where it escapes.
abbrev pub on_resolved {ℓ} :
    {A : Type ℓ} → Disk → Result String → (String → Disk × Result A) → Disk × Result A
on_resolved disk (unsafe e) f = (disk, unsafe e)
on_resolved disk (ok resolved) f = f resolved

module _ (resolve : String → String) where
  unfoldable pub write_text : SafeWriter → Disk → String → String → Disk × Result String
  write_text w disk path content = on_resolved disk (resolve_within resolve w path) (λ resolved.
      put_asked disk resolved (λ d. as_text (apply_modify d content))
        (ask w "write" (rel_of w resolved) (some content)))

  unfoldable pub write_bytes : SafeWriter → Disk → String → List ℕ → Disk × Result String
  write_bytes w disk path data_ = on_resolved disk (resolve_within resolve w path) (λ resolved.
      put_asked disk resolved (λ d. as_bytes data_) (ask w "write" (rel_of w resolved) none))

  unfoldable pub unlink : SafeWriter → Disk → String → Disk × Result Bool
  unlink w disk path =
      on_resolved disk (resolve_within resolve w path)
        (λ resolved. unlink_asked disk resolved (ask w "delete" (rel_of w resolved) none))

  -- With the default arguments
  unfoldable pub mkdir : SafeWriter → Disk → String → Disk × Result String
  mkdir w disk path =
      on_resolved disk (resolve_within resolve w path)
        (λ resolved. mkdir_asked disk resolved (ask w "mkdir" (rel_of w resolved) none))
