-- ===== src/Session/Chat/Laws.antt =====
-- What `chat` of session/engine.py asks the model, and what it writes after the reply.
use native.Mathlib.Nat.{le_trans}
use fusion_code_modelization.Common.{
  length-map, subst, ◌∙◌, ◌||◌, ℕ, ◌≤◌, String, ◌≡◌, refl, ap, true, none, some, List, map, length,
  length-take_last-le, ◌⊎◌, inl, inr, Option-cases, arith, same_text, [], ◌∷◌, ◌++◌, ◌==◌,
  if◌then◌else◌,
}
use mathlib.Core.List.{append_assoc}
use fusion_code_modelization.Common.Dict
use fusion_code_modelization.Session.State.{
  idle, running, Session, SessionMessage, transition, add_message, state_eq,
}
use fusion_code_modelization.Session.Store.{is_valid_id, load}
use fusion_code_modelization.Session.Store.Laws.{
  disk_message, on_disk, written, load-written, IsConsistent, session_id-load,
}
use fusion_code_modelization.Session.Engine.{
  Engine, max_cached_clients, max_history_messages, cache_client,
}
use fusion_code_modelization.Session.Engine.Cache.{cache_client_bound, move_to_end_bound}
use fusion_code_modelization.Session.Engine.Steps.{save_session-written}
use fusion_code_modelization.Session.Chat.{
  Reply, completed, failed, asked, wake, client_for, history, chat_begin, note_reply, chat_finish,
}

abbrev pub spoken : SessionMessage → String × String
spoken m = (m.role, m.content)

-- The model is sent at most 40 messages, the last of the session.
pub history-le : (s : Session) → length (history s) ≤ max_history_messages
unfolding history
history-le s = ground (arith, length-take_last-le max_history_messages s.messages)

client_for-le :
    (e : Engine) (s : Session) (sid : String)
    → length e.clients ≤ max_cached_clients
    → length (client_for e s sid).clients ≤ max_cached_clients
client_for-le e s sid h = elim (Option-cases (Dict.get e.clients sid)) [
  | inl missing ↦ rw (missing, client_for) (cache_client_bound e sid _).0
  | inr (c, found) ↦
      rw (found, client_for) (le_trans (move_to_end_bound e.clients sid c (rw found)).0 h)
]

wake_running :
    (s : Session) → (s.state ≡ running) ⊎ (s.state ≡ idle) → wake s ≡ record s { state = running }
unfolding transition
wake_running s h = ground arith

files-client_for : (e : Engine) (s : Session) (sid : String) → (client_for e s sid).files ≡ e.files
unfolding cache_client
files-client_for e s sid = ground arith

-- The session as `chat` holds it while the model answers.
abbrev pub awaiting : ℕ → String → Session → Session
awaiting now prompt s = add_message (record s { state = running }) "user" prompt now

pub chat_begin-asked :
    (now : ℕ) (e : Engine) (sid prompt : String) (s : Session)
    → load e.files sid ≡ some s
    → (s.state ≡ running) ⊎ (s.state ≡ idle)
    → chat_begin now e sid prompt ≡ (
      client_for e s sid,
      asked (awaiting now prompt s) (map spoken (history (awaiting now prompt s))),
    )
unfolding chat_begin
chat_begin-asked now e sid prompt s l h =
    let may : (state_eq s.state running || state_eq s.state idle) ≡ true = ground arith in
    rw (l, chat_begin, may, wake_running s h)

-- A chat with a session that is running or idle sends the model at most 40 messages, writes nothing
-- to disk before the reply is there, and keeps the bound on the cached clients.
pub chat_begin_bounds :
    (now : ℕ) (e : Engine) (sid prompt : String) (s : Session)
    → load e.files sid ≡ some s
    → (s.state ≡ running) ⊎ (s.state ≡ idle)
    → length e.clients ≤ max_cached_clients
    → (sent : List (String × String)) × ((chat_begin now e sid prompt).1
        ≡ asked (awaiting now prompt s) sent)
      × (length sent ≤ max_history_messages)
      × ((chat_begin now e sid prompt).0.files ≡ e.files)
      × (length (chat_begin now e sid prompt).0.clients ≤ max_cached_clients)
chat_begin_bounds now e sid prompt s l h b =
    let whole = chat_begin-asked now e sid prompt s l h in
    let s' = awaiting now prompt s in
    (
      map spoken (history s'),
      ap (λ r. r.1) whole,
      rw (length-map (history s') spoken) (history-le s'),
      ap (λ r. r.0.files) whole ∙ files-client_for e s sid,
      rw whole (client_for-le e s sid b),
    )

note_reply_keeps :
    (now : ℕ) (s : Session) (reply : Reply)
    → ((note_reply now s reply).session_id ≡ s.session_id)
      × ((note_reply now s reply).state ≡ s.state)
unfolding add_message
note_reply_keeps now s (completed content) = (refl, refl)
note_reply_keeps now s (failed none) = (refl, refl)
note_reply_keeps now s (failed (some error)) = (refl, refl)

abbrev said : String → String → ℕ → SessionMessage
said role text now = record { role = role; content = text; timestamp = now; metadata = [] }

-- What a reply adds to the messages, and the error that it leaves.
abbrev answer_of : ℕ → Reply → List SessionMessage
answer_of now (completed content) = said "assistant" content now ∷ []
answer_of now (failed error) = []

abbrev error_of : Session → Reply → String
error_of s (completed content) = s.error
error_of s (failed none) = ""
error_of s (failed (some error)) = error

-- The session `w` on disk is `s` with the prompt and the reply, in the state `running`.
pub record IsChatted (scrub : String → String) (now then_ : ℕ) (prompt : String) (reply : Reply)
    (s w : Session) : Type 0 where
  pub state : w.state ≡ running
  pub messages :
      w.messages
      ≡ map (disk_message scrub) (s.messages ++ said "user" prompt now ∷ answer_of then_ reply)
  pub name : w.name ≡ s.name
  pub created_at : w.created_at ≡ s.created_at
  pub error : w.error ≡ error_of s reply
  pub working_dir : w.config.working_dir ≡ s.config.working_dir
  pub model : w.config.model ≡ s.config.model
  pub temperature : w.config.temperature ≡ s.config.temperature
  pub max_tokens : w.config.max_tokens ≡ s.config.max_tokens
  pub security_mode : w.config.security_mode ≡ s.config.security_mode
  pub allowed_dirs : w.config.allowed_dirs ≡ s.config.allowed_dirs
  pub cluster_nodes : w.config.cluster_nodes ≡ s.config.cluster_nodes

note_reply-IsChatted :
    (scrub : String → String) (now then_ later : ℕ) (prompt : String) (s : Session) (reply : Reply)
    → IsChatted scrub now then_ prompt reply s (
        on_disk scrub
          (record (note_reply then_ (awaiting now prompt s) reply) { updated_at = later }))
unfolding on_disk add_message
note_reply-IsChatted scrub now then_ later prompt s (completed content) = record {
  state = refl;
  messages =
      ap (map (disk_message scrub)) (
        append_assoc s.messages (said "user" prompt now ∷ [])
          (said "assistant" content then_ ∷ []));
  name = refl;
  created_at = refl;
  error = refl;
  working_dir = refl;
  model = refl;
  temperature = refl;
  max_tokens = refl;
  security_mode = refl;
  allowed_dirs = refl;
  cluster_nodes = refl;
}
note_reply-IsChatted scrub now then_ later prompt s (failed none) = record {
  state = refl;
  messages = refl;
  name = refl;
  created_at = refl;
  error = refl;
  working_dir = refl;
  model = refl;
  temperature = refl;
  max_tokens = refl;
  security_mode = refl;
  allowed_dirs = refl;
  cluster_nodes = refl;
}
note_reply-IsChatted scrub now then_ later prompt s (failed (some error)) = record {
  state = refl;
  messages = refl;
  name = refl;
  created_at = refl;
  error = refl;
  working_dir = refl;
  model = refl;
  temperature = refl;
  max_tokens = refl;
  security_mode = refl;
  allowed_dirs = refl;
  cluster_nodes = refl;
}

-- For a session that is running or idle, and whatever ran while the model was answering (`between` is
-- any engine), the end of `chat` writes back the session that its beginning read, with the prompt and
-- the reply added and in the state `running`: what else was done to the session in between, such as a
-- `pause` or a `complete`, is lost. The other sessions are as they were in between.
pub chat_overwrites :
    (scrub : String → String) (now then_ later : ℕ) (e between : Engine) (sid prompt : String)
    (s : Session) (reply : Reply)
    → IsConsistent e.files
    → load e.files sid ≡ some s
    → (s.state ≡ running) ⊎ (s.state ≡ idle)
    → (s' : Session) × (sent : List (String × String)) × (e' : Engine) × (s'' w : Session)
      × ((chat_begin now e sid prompt).1 ≡ asked s' sent)
      × (chat_finish scrub then_ later s' reply between ≡ some (e', s''))
      × (load e'.files sid ≡ some w)
      × IsChatted scrub now then_ prompt reply s w
      × ((other : String)
          → load e'.files other ≡ (if sid == other then some w else load between.files other))
unfolding chat_finish add_message
chat_overwrites scrub now then_ later e between sid prompt s reply c l h =
    let (own, valid) = session_id-load e.files sid c l in
    let s' = awaiting now prompt s in
    let r = note_reply then_ s' reply in
    let (same_id, same_state) = note_reply_keeps then_ s' reply in
    let id : r.session_id ≡ sid = same_id ∙ own in
    let v : is_valid_id r.session_id ≡ true = rw id valid in
    let w = on_disk scrub (record r { updated_at = later }) in
    let files = written scrub later r between.files in
    let found : (other : String)
        → load files other ≡ (if sid == other then some w else load between.files other) =
      λ other.
        subst (λ k. load files other ≡ (if k == other then some w else load between.files other)) id
          (load-written scrub later r between.files other v) in
    (
      s',
      map spoken (history s'),
      record between { files = files },
      record r { updated_at = later },
      w,
      ap (λ b. b.1) (chat_begin-asked now e sid prompt s l h),
      save_session-written scrub later r between v,
      found sid ∙ rw (same_text sid) refl,
      note_reply-IsChatted scrub now then_ later prompt s reply,
      found,
    )
