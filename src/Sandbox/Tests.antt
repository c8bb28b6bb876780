-- ===== src/Sandbox/Tests.antt =====
-- The sandbox at concrete paths and commands.
use fusion_code_modelization.Common.{String, ◌≡◌, refl, true, false, List, [], ◌∷◌, ◌++◌, map}
use mathlib.Core.Logic.{◌↔◌}
use fusion_code_modelization.Sandbox.Paths.{rstrip_slash, word, first_word, name_from}
use fusion_code_modelization.Sandbox.Policy.{
  auto, readonly, default_policy, is_ignored, is_sensitive, is_denied, is_path_allowed,
  is_write_allowed, is_command_allowed,
}
use fusion_code_modelization.Sandbox.Guard.{
  SandboxGuard, log, check_read, check_write, check_delete, check_command, get_log, count_blocked,
}
use fusion_code_modelization.Sandbox.Guard.Laws.{
  verdict_of, IsOpen, is_path_allowed-IsOpen, Request, read, write, delete, command, check, serve,
  serve-audit,
}

program : Unit {0}
unfolding rstrip_slash word first_word name_from is_ignored is_sensitive is_denied is_path_allowed
    is_write_allowed is_command_allowed log check_read check_write check_delete check_command
    get_log count_blocked check serve
program = tt

abbrev same : String → String
same p = p

abbrev guard : SandboxGuard
guard = record { policy = default_policy; entries = [] }

abbrev open_guard : SandboxGuard
open_guard = record {
  policy = record default_policy { mode = auto; allowed_dirs = "/work" ∷ [] };
  entries = [];
}

paths :
    ((is_path_allowed same default_policy "/home/u/a.py").0 ≡ true)
    × ((is_path_allowed same default_policy "/home/u/.env").0 ≡ false)
    × ((is_path_allowed same open_guard.policy "/work/a.py").0 ≡ true)
    × ((is_path_allowed same open_guard.policy "/worker/a.py").0 ≡ false)
unfolding program
paths = (refl, refl, refl, refl)

-- The ignore pattern `*.pyc` is taken by its letters: a `.pyc` file is not ignored.
star_pattern : (is_path_allowed same default_policy "/home/u/a.pyc").0 ≡ true
unfolding program
star_pattern = refl

-- The entry `mv /` of the dangerous commands stops nothing: a command is looked up by its name.
dead_entry :
    ((is_command_allowed default_policy "/bin/rm -rf x").0 ≡ false)
    × ((is_command_allowed default_policy "mv / /tmp").0 ≡ true)
    × ((is_command_allowed default_policy "cp -r / /tmp").0 ≡ true)
    × ((is_command_allowed (record default_policy { mode = readonly }) "echo > /tmp/x").0 ≡ true)
unfolding program
dead_entry = (refl, refl, refl, refl)

is_path_allowed-IsOpen_example :
    (is_path_allowed same open_guard.policy "/work/a.py").0 ≡ true
    ↔ IsOpen same open_guard.policy "/work/a.py"
is_path_allowed-IsOpen_example = is_path_allowed-IsOpen same open_guard.policy "/work/a.py"

abbrev requests : List Request
requests = read "/home/u/a.py" ∷ write "/home/u/.env" ∷ delete "/x" ∷ command "rm x" ∷ []

blocked : count_blocked (serve same 1 guard requests).0 ≡ 3
unfolding program
blocked = refl

serve-audit_example :
    ((serve same 1 guard requests).0.policy ≡ guard.policy)
    × (map verdict_of (serve same 1 guard requests).0.entries
        ≡ map verdict_of guard.entries ++ (serve same 1 guard requests).1)
serve-audit_example = serve-audit same 1 guard requests
