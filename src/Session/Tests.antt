-- ===== src/Session/Tests.antt =====
-- Runs of the session engine at concrete inputs.
use fusion_code_modelization.Common.{String, ◌≡◌, refl, true, false, some, List, [], ◌∷◌, inl, inr}
use fusion_code_modelization.Common.{if◌then◌else◌, ◌==◌}
use fusion_code_modelization.Common.Dict
use fusion_code_modelization.Common.Dict.{Dict}
use fusion_code_modelization.Session.State.{
  SessionState, idle, completed, Session, can_transition, transition, add_message, to_dict,
}
use fusion_code_modelization.Session.State.Table.{◌⟶*◌}
use fusion_code_modelization.Session.Store.{Files, is_valid_id, from_dict, save, load, delete}
use fusion_code_modelization.Session.Store.Laws.{
  on_disk, written, load-save, IsConsistent, written-IsConsistent,
}
use fusion_code_modelization.Session.Engine.{
  Client, Engine, NewSession, new_session, save_session, create_session, start, pause, complete,
  approve, change, step, evict, cache_client, clone,
}
use fusion_code_modelization.Session.Engine.Steps.{moved}
use fusion_code_modelization.Session.Engine.Runs.{state_at, Call, run, run-path}
use fusion_code_modelization.Session.Engine.Ends.{run-ended}
use fusion_code_modelization.Session.Engine.Clone.{IsCopy, clone-IsCopy}
use fusion_code_modelization.Session.Chat.{Reply, asked, history, chat_begin, chat_finish}
use fusion_code_modelization.Session.Chat.Laws.{IsChatted, chat_overwrites}

program : Unit {0}
unfolding can_transition transition add_message to_dict is_valid_id from_dict save load delete
    on_disk written new_session save_session create_session change step evict cache_client clone
    state_at run history chat_begin chat_finish Dict.get Dict.set Dict.remove
program = tt

abbrev plain : String → String
plain s = s

abbrev args : NewSession
args = record {
  name = "demo";
  working_dir = "/tmp";
  model = "m";
  temperature = 100;
  max_tokens = 4096;
  security_mode = "manual";
  allowed_dirs = [];
}

abbrev fresh : Session
fresh = new_session args "s1" 1

abbrev one : Engine
one = record { files = written plain 2 fresh []; clients = [] }

no_files : IsConsistent []
unfolding Dict.get
no_files = record { own_id = λ sid d g. cc }

one-IsConsistent : IsConsistent one.files
one-IsConsistent = written-IsConsistent plain 2 fresh [] no_files

abbrev stored : Session
stored = on_disk plain (record fresh { updated_at = 2 })

one-load : load one.files "s1" ≡ some stored
unfolding program
one-load = refl

-- A session is created idle, is started, and is then completed; `approve` no longer moves it.
life :
    (e : Engine) × (run plain one (
        record { now = 3; op = start; sid = "s1" }
        ∷ record { now = 4; op = complete; sid = "s1" }
        ∷ record { now = 5; op = approve; sid = "s1" }
        ∷ [])
      ≡ some e)
    × (state_at e "s1" ≡ some completed)
unfolding program
life = (
  record {
    files =
        written plain 4
          (moved complete (on_disk plain (record (moved start stored) { updated_at = 3 })))
          (written plain 3 (moved start stored) one.files);
    clients = [];
  },
  refl,
  refl,
)

load-save_example :
    (s' : Session) × (files' : Files) × (save plain 9 stored one.files ≡ some (s', files'))
    × (load files' "s1" ≡ (if "s1" == "s1" then some (on_disk plain s') else load one.files "s1"))
unfolding program
load-save_example = load-save plain 9 stored one.files "s1" refl

abbrev calls : List Call
calls = record { now = 3; op = start; sid = "s1" } ∷ record { now = 4; op = pause; sid = "s1" } ∷ []

one-state : state_at one "s1" ≡ some idle
unfolding program
one-state = refl

run-path_example :
    (e' : Engine) × (t : SessionState) × (run plain one calls ≡ some e')
    × IsConsistent e'.files
    × (state_at e' "s1" ≡ some t)
    × (idle ⟶* t)
run-path_example = run-path plain one calls "s1" idle one-IsConsistent one-state

abbrev over : Engine
over = record { files = written plain 2 (record fresh { state = completed }) []; clients = [] }

over-state : state_at over "s1" ≡ some completed
unfolding program
over-state = refl

run-ended_example :
    (e' : Engine) × (run plain over calls ≡ some e') × (state_at e' "s1" ≡ some completed)
run-ended_example =
    run-ended plain over calls "s1" completed
      (written-IsConsistent plain 2 (record fresh { state = completed }) [] no_files) over-state
      (inl refl)

abbrev small : Client
small = record { model = "m"; temperature = 0; max_tokens = 8 }

chat_overwrites_example :
    (s' : Session) × (sent : List (String × String)) × (e' : Engine) × (s'' w : Session)
    × ((chat_begin 3 one "s1" "hi").1 ≡ asked s' sent)
    × (chat_finish plain 5 6 s' (Reply.completed "yes") over ≡ some (e', s''))
    × (load e'.files "s1" ≡ some w)
    × IsChatted plain 3 5 "hi" (Reply.completed "yes") stored w
    × ((other : String)
        → load e'.files other ≡ (if "s1" == other then some w else load over.files other))
unfolding program
chat_overwrites_example =
    chat_overwrites plain 3 5 6 one over "s1" "hi" stored (Reply.completed "yes") one-IsConsistent
      one-load (inr refl)

clone-IsCopy_example :
    (e' : Engine) × (s' copy : Session) × (clone plain "s2" 3 4 5 one "s1" "" ≡ some (e', some s'))
    × (load e'.files "s1" ≡ some stored)
    × (load e'.files "s2" ≡ some copy)
    × IsCopy plain stored copy
unfolding program
clone-IsCopy_example = clone-IsCopy plain "s2" 3 4 5 one "s1" "" stored refl refl refl

-- The pattern's `$` lets a newline at the end through.
newline_id : (is_valid_id "s1\n" ≡ true) × (is_valid_id "../s1" ≡ false) × (is_valid_id "" ≡ false)
unfolding program
newline_id = (refl, refl, refl)
