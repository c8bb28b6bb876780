-- ===== src/Sandbox/Guard.antt =====
-- fusion_code_modelization/sandbox/guard.py and audit.py. A check returns the guard with its audit
-- log, and the verdict. `now` is `time.time()`. The optional file of the log is left out.
pub mod Laws
use fusion_code_modelization.Common.{
  ℕ, zero, suc, String, Bool, true, false, List, [], ◌∷◌, ◌++◌, filter, length, not, take_last,
  if◌then◌else◌,
}
use fusion_code_modelization.Sandbox.Policy.{
  SecurityMode, readonly, manual, auto, SandboxPolicy, Verdict, is_path_allowed, is_write_allowed,
  is_command_allowed,
}

pub record AuditEntry : Type 0 where
  pub action : String
  pub target : String
  pub allowed : Bool
  pub reason : String
  pub timestamp : ℕ

pub record SandboxGuard : Type 0 where
  pub policy : SandboxPolicy
  pub entries : List AuditEntry

-- `SandboxAudit.log`
unfoldable pub log : ℕ → String → String → Verdict → SandboxGuard → SandboxGuard
log now action target v g = record g {
  entries =
      g.entries
      ++ record { action = action; target = target; allowed = v.0; reason = v.1; timestamp = now }
        ∷ [];
}

module _ (resolve : String → String) (now : ℕ) where
  unfoldable pub check_read : SandboxGuard → String → SandboxGuard × Verdict
  check_read g path = let v = is_path_allowed resolve g.policy path in (log now "read" path v g, v)

  unfoldable pub check_write : SandboxGuard → String → SandboxGuard × Verdict
  check_write g path =
      let v = is_write_allowed resolve g.policy path in (log now "write" path v g, v)

  abbrev delete_verdict : SecurityMode → SandboxPolicy → String → Verdict
  delete_verdict readonly policy path = (false, "Delete blocked: sandbox in readonly mode")
  delete_verdict manual policy path = (false, "Delete requires manual approval")
  delete_verdict auto policy path = is_path_allowed resolve policy path

  unfoldable pub check_delete : SandboxGuard → String → SandboxGuard × Verdict
  check_delete g path =
      let v = delete_verdict g.policy.mode g.policy path in (log now "delete" path v g, v)

unfoldable pub check_command : ℕ → SandboxGuard → String → SandboxGuard × Verdict
check_command now g command =
    let v = is_command_allowed g.policy command in (log now "command" command v g, v)

-- `SandboxAudit.get_log`: the slice `[-0:]` is the whole list.
unfoldable pub get_log : ℕ → SandboxGuard → List AuditEntry
get_log zero g = g.entries
get_log (suc limit) g = take_last (suc limit) g.entries

-- `SandboxAudit.count_blocked`
unfoldable pub count_blocked : SandboxGuard → ℕ
count_blocked g = length (filter (λ e. not e.allowed) g.entries)
