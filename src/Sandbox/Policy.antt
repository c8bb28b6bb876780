-- ===== src/Sandbox/Policy.antt =====
-- fusion_code_modelization/sandbox/policy.py. `resolve` is `str(Path(path).expanduser().resolve())`,
-- which depends on the file system. A method returns the verdict and the reason.
use Prim.Native.String.{◌++◌}
use fusion_code_modelization.Common.{
  String, Bool, true, false, List, [], ◌∷◌, any, contains, ◌==◌, if◌then◌else◌,
}
use fusion_code_modelization.Sandbox.Paths.{is_in, rstrip_slash, first_word, base_name, is_within}

pub data SecurityMode : Type 0 where
  readonly manual auto : SecurityMode

pub record SandboxPolicy : Type 0 where
  pub mode : SecurityMode
  pub allowed_dirs : List String
  pub denied_files : List String
  pub denied_commands : List String
  pub ignore_patterns : List String
  pub sensitive_patterns : List String

abbrev pub dangerous_commands : List String
dangerous_commands =
    "rm" ∷ "rmdir" ∷ "del" ∷ "format" ∷ "fdisk" ∷ "mkfs" ∷ "sudo" ∷ "su" ∷ "chmod" ∷ "chown"
    ∷ "curl" ∷ "wget" ∷ "shutdown" ∷ "reboot" ∷ "halt" ∷ "poweroff" ∷ "kill" ∷ "killall" ∷ "dd"
    ∷ "mv /" ∷ "cp -r /" ∷ []

abbrev pub sensitive_file_patterns : List String
sensitive_file_patterns =
    ".env" ∷ ".env.local" ∷ ".env.production" ∷ ".pem" ∷ ".key" ∷ ".p12" ∷ ".pfx" ∷ "id_rsa"
    ∷ "id_ed25519" ∷ "id_ecdsa" ∷ ".ssh/" ∷ ".gnupg/" ∷ "credentials.json" ∷ "service-account.json"
    ∷ ".htpasswd" ∷ ".netrc" ∷ []

abbrev pub default_ignore_patterns : List String
default_ignore_patterns =
    ".git/" ∷ ".svn/" ∷ ".hg/" ∷ "node_modules/" ∷ "__pycache__/" ∷ ".venv/" ∷ "venv/" ∷ ".DS_Store"
    ∷ "Thumbs.db" ∷ "*.pyc" ∷ "*.pyo" ∷ "*.so" ∷ "*.dylib" ∷ ".fusion/" ∷ ".claude/" ∷ []

-- `SandboxPolicy()`
abbrev pub default_policy : SandboxPolicy
default_policy = record {
  mode = manual;
  allowed_dirs = [];
  denied_files = [];
  denied_commands = dangerous_commands;
  ignore_patterns = default_ignore_patterns;
  sensitive_patterns = sensitive_file_patterns;
}

abbrev pub Verdict : Type 0
Verdict = Bool × String

unfoldable pub is_ignored : SandboxPolicy → String → Bool
is_ignored policy p = any (λ pattern_. is_in (rstrip_slash pattern_) p) policy.ignore_patterns

unfoldable pub is_sensitive : SandboxPolicy → String → Bool
is_sensitive policy p = any (λ pattern_. is_in (rstrip_slash pattern_) p) policy.sensitive_patterns

unfoldable pub is_denied : SandboxPolicy → String → Bool
is_denied policy p = any (λ denied. is_in denied p) policy.denied_files

abbrev pub in_some_dir : (String → String) → String → List String → Bool
in_some_dir resolve p dirs = any (λ dir. is_within p (resolve dir)) dirs

abbrev pub is_empty : List String → Bool
is_empty [] = true
is_empty (d ∷ dirs) = false

unfoldable pub is_path_allowed : (String → String) → SandboxPolicy → String → Verdict
is_path_allowed resolve policy path =
    let p = resolve path in
    if is_ignored policy p
    then (false, "Path matches ignore pattern: " ++ p)
    else if is_sensitive policy p
    then (false, "Path matches sensitive pattern: " ++ p)
    else if is_denied policy p
    then (false, "Path explicitly denied: " ++ p)
    else if is_empty policy.allowed_dirs
    then (true, "")
    else if in_some_dir resolve p policy.allowed_dirs
    then (true, "")
    else (false, "Path outside allowed directories: " ++ p)

abbrev pub is_readonly : SecurityMode → Bool
is_readonly readonly = true
is_readonly _ = false

unfoldable pub is_write_allowed : (String → String) → SandboxPolicy → String → Verdict
is_write_allowed resolve policy path =
    if is_readonly policy.mode
    then (false, "Write blocked: sandbox in readonly mode")
    else (let (allowed, reason) = is_path_allowed resolve policy path in
        if allowed then (true, "") else (false, reason))

abbrev pub write_cmds : List String
write_cmds = "touch" ∷ "mkdir" ∷ "cp" ∷ "mv" ∷ "tee" ∷ "echo >" ∷ "cat >" ∷ "sed -i" ∷ []

abbrev command_verdict : SandboxPolicy → String → Verdict
command_verdict policy base_cmd =
    if contains policy.denied_commands base_cmd
    then (false, "Command blocked: " ++ base_cmd ++ " is in denied list")
    else if is_readonly policy.mode
    then (if contains write_cmds base_cmd
        then (false, "Write command blocked in readonly mode: " ++ base_cmd)
        else (true, ""))
    else (true, "")

unfoldable pub is_command_allowed : SandboxPolicy → String → Verdict
is_command_allowed policy command =
    let word = first_word command in
    if word == "" then (true, "") else command_verdict policy (base_name word)
