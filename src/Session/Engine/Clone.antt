-- ===== src/Session/Engine/Clone.antt =====
-- `create_session` and `clone` of session/engine.py.
use fusion_code_modelization.Common.{
  ℕ, String, ◌≡◌, refl, true, false, some, [], map, ◌==◌, same_text,
}
use fusion_code_modelization.Session.State.{idle, Session}
use fusion_code_modelization.Session.Store.{is_valid_id, load}
use fusion_code_modelization.Session.Store.Laws.{disk_message, on_disk, written, load-written}
use fusion_code_modelization.Session.Engine.{
  Client, Engine, NewSession, new_session, cache_client, create_session, clone_args, clone,
}
use fusion_code_modelization.Session.Engine.Steps.{save_session-written}

module _ (scrub : String → String) (args : NewSession) (sid : String) (now later : ℕ)
    (e : Engine) where
  abbrev pub new_client : Client
  new_client = record {
    model = args.model;
    temperature = args.temperature;
    max_tokens = args.max_tokens;
  }

  abbrev pub created : Engine
  created =
      cache_client (record e { files = written scrub later (new_session args sid now) e.files }) sid
        new_client

  pub create_session-created :
      is_valid_id sid ≡ true
      → create_session scrub args sid now later e
        ≡ some (created, record (new_session args sid now) { updated_at = later })
  unfolding create_session new_session
  create_session-created v =
      rw (save_session-written scrub later (new_session args sid now) e v, create_session)

-- What of the source a clone holds on disk.
pub record IsCopy (scrub : String → String) (source copy : Session) : Type 0 where
  pub state : copy.state ≡ idle
  pub messages : copy.messages ≡ map (disk_message scrub) source.messages
  pub working_dir : copy.config.working_dir ≡ source.config.working_dir
  pub model : copy.config.model ≡ source.config.model
  pub temperature : copy.config.temperature ≡ source.config.temperature
  pub max_tokens : copy.config.max_tokens ≡ source.config.max_tokens
  pub security_mode : copy.config.security_mode ≡ source.config.security_mode
  pub allowed_dirs : copy.config.allowed_dirs ≡ source.config.allowed_dirs
  pub cluster_nodes : copy.config.cluster_nodes ≡ []
  pub error : copy.error ≡ ""

-- A clone under a fresh, valid id is an idle session on disk with the messages and the settings of
-- its source, but none of its cluster nodes and not its error; the source is left as it was.
pub clone-IsCopy :
    (scrub : String → String) (new_id : String) (now later last : ℕ) (e : Engine)
    (sid new_name : String) (s : Session)
    → load e.files sid ≡ some s
    → is_valid_id new_id ≡ true
    → (new_id == sid) ≡ false
    → (e' : Engine) × (s' copy : Session) × (clone scrub new_id now later last e sid new_name
        ≡ some (e', some s'))
      × (load e'.files sid ≡ some s)
      × (load e'.files new_id ≡ some copy)
      × IsCopy scrub s copy
unfolding clone new_session on_disk cache_client
clone-IsCopy scrub new_id now later last e sid new_name s l v fresh =
    let args = clone_args s new_name in
    let base = record (new_session args new_id now) { updated_at = later } in
    let filled = record base { messages = s.messages } in
    let mid = created scrub args new_id now later e in
    let whole = written scrub last filled mid.files in
    (
      record mid { files = whole },
      record filled { updated_at = last },
      on_disk scrub (record filled { updated_at = last }),
      rw (l, clone, create_session-created scrub args new_id now later e v)
          (rw (save_session-written scrub last filled mid v)),
      rw (load-written scrub last filled mid.files sid v) (
          rw fresh (
            rw (load-written scrub later (new_session args new_id now) e.files sid v)
              (rw fresh l))),
      rw (load-written scrub last filled mid.files new_id v) (rw (same_text new_id)),
      record {
        state = refl;
        messages = refl;
        working_dir = refl;
        model = refl;
        temperature = refl;
        max_tokens = refl;
        security_mode = refl;
        allowed_dirs = refl;
        cluster_nodes = refl;
        error = refl;
      },
    )
