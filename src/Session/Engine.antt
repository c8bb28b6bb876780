-- ===== src/Session/Engine.antt =====
-- `SessionEngine` of fusion_code_modelization/session/engine.py. A method returns the new engine
-- beside its result, and `none` where the `ValueError` of the store's `save` escapes. Session ids
-- (`uuid4`), times and the replies of the model are arguments. A client is known by the model
-- configuration that it was made with.
pub mod Steps
pub mod Runs
pub mod Ends
pub mod Cache
pub mod Clone
use Prim.Native.String.{slice, ◌++◌ as ◌+++◌}
use fusion_code_modelization.Common.{
  ℕ, String, Bool, true, false, Option, none, some, List, [], ◌∷◌, ◌++◌, length, ltb, ◌==◌,
  if◌then◌else◌,
}
use fusion_code_modelization.Common.Dict
use fusion_code_modelization.Common.Dict.{Dict}
use fusion_code_modelization.Session.State.{
  SessionState, idle, running, waiting_approval, paused, completed, failed, Session, transition,
}
use fusion_code_modelization.Session.Store.{Files, save, load, delete}

pub record Client : Type 0 where
  pub model : String
  pub temperature : ℕ
  pub max_tokens : ℕ

pub record Engine : Type 0 where
  pub files : Files
  pub clients : Dict Client

abbrev pub max_cached_clients : ℕ
max_cached_clients = 32

abbrev pub max_history_messages : ℕ
max_history_messages = 40

-- `while len(self._clients) > _MAX_CACHED_CLIENTS: self._clients.popitem(last=False)`
unfoldable pub evict : Dict Client → Dict Client
evict [] = []
evict (c ∷ cs) =
    let rest = evict cs in if ltb max_cached_clients (length (c ∷ cs)) then rest else c ∷ cs

abbrev pub move_to_end : Dict Client → String → Client → Dict Client
move_to_end cs sid c = Dict.remove cs sid ++ (sid, c) ∷ []

unfoldable pub cache_client : Engine → String → Client → Engine
cache_client e sid c = record e { clients = evict (move_to_end e.clients sid c) }

abbrev pub Outcome : Type 0 → Type 0
Outcome A = Option (Engine × A)

-- `self._store.save(session)`
unfoldable pub save_session : (String → String) → ℕ → Session → Engine → Outcome Session
save_session scrub now session e = elim (save scrub now session e.files) [
  | none ↦ none
  | some (s, files) ↦ some (record e { files = files }, s)
]

-- The arguments of `create_session`.
pub record NewSession : Type 0 where
  pub name : String
  pub working_dir : String
  pub model : String
  pub temperature : ℕ
  pub max_tokens : ℕ
  pub security_mode : String
  pub allowed_dirs : List String

-- `a or b`, for texts
abbrev or_text : String → String → String
or_text a b = if a == "" then b else a

unfoldable pub new_session : NewSession → String → ℕ → Session
new_session args sid now =
    let name = or_text args.name ("session-" +++ slice sid 0 6) in
    record {
      session_id = sid;
      name = name;
      state = idle;
      config = record {
        session_id = sid;
        name = name;
        working_dir = args.working_dir;
        model = args.model;
        temperature = args.temperature;
        max_tokens = args.max_tokens;
        security_mode = args.security_mode;
        allowed_dirs = args.allowed_dirs;
        cluster_nodes = [];
        metadata = [];
      };
      messages = [];
      created_at = now;
      updated_at = now;
      error = "";
    }

-- `sid` is the fresh id, `now` the first clock value that is read and `later` the second.
unfoldable pub create_session :
    (String → String) → NewSession → String → ℕ → ℕ → Engine → Outcome Session
create_session scrub args sid now later e =
    elim (save_session scrub later (new_session args sid now) e) [
      | none ↦ none
      | some (e', s) ↦ some (
        cache_client e' sid (record {
          model = args.model;
          temperature = args.temperature;
          max_tokens = args.max_tokens;
        }),
        s,
      )
    ]

-- The common body of `start` to `approve`: `edit` is what `fail` does in front of `save`.
abbrev change_found :
    SessionState
    → (Session → Session)
    → (String → String)
    → ℕ
    → Engine
    → Option Session
    → Outcome Bool
change_found target edit scrub now e none = some (e, false)
change_found target edit scrub now e (some session) =
    let (s, moved) = transition session target in
    if moved
    then elim (save_session scrub now (edit s) e) [ none ↦ none | some (e', _) ↦ some (e', true) ]
    else some (e, false)

unfoldable pub change :
    SessionState → (Session → Session) → (String → String) → ℕ → Engine → String → Outcome Bool
change target edit scrub now e sid = change_found target edit scrub now e (load e.files sid)

-- The methods that move the state of one session.
pub data Op : Type 0 where
  start pause resume complete request_approval approve : Op
  fail : String → Op

abbrev pub target : Op → SessionState
target start = running
target pause = paused
target resume = running
target complete = completed
target request_approval = waiting_approval
target approve = running
target (fail error) = failed

abbrev pub edit : Op → Session → Session
edit (fail error) s = record s { error = error }
edit _ s = s

unfoldable pub step : (String → String) → ℕ → Engine → Op → String → Outcome Bool
step scrub now e op sid = change (target op) (edit op) scrub now e sid

-- `delete`
unfoldable pub delete_session : Engine → String → Engine × Bool
delete_session e sid =
    let (files, found) = delete e.files sid in
    (record { files = files; clients = Dict.remove e.clients sid }, found)

abbrev clone_args : Session → String → NewSession
clone_args source new_name = record {
  name = or_text new_name (source.name +++ "-clone");
  working_dir = source.config.working_dir;
  model = source.config.model;
  temperature = source.config.temperature;
  max_tokens = source.config.max_tokens;
  security_mode = source.config.security_mode;
  allowed_dirs = source.config.allowed_dirs;
}

-- The second `save` of `clone` reads the clock once more, at `last`.
unfoldable pub clone :
    (String → String) → String → ℕ → ℕ → ℕ → Engine → String → String → Outcome (Option Session)
clone scrub new_id now later last e sid new_name = elim (load e.files sid) [
  | none ↦ some (e, none)
  | some source ↦ elim (create_session scrub (clone_args source new_name) new_id now later e) [
    | none ↦ none
    | some (e', cloned) ↦
        elim (save_session scrub last
          (record cloned { messages = cloned.messages ++ source.messages }) e') [
            | none ↦ none
            | some (e'', s) ↦ some (e'', some s)
          ]
  ]
]
