-- ===== src/Session/Chat.antt =====
-- `chat` of fusion_code_modelization/session/engine.py, cut at its `await`: other calls may run
-- between `chat_begin` and `chat_finish`. Progress callbacks are left out, they do not change the
-- session.
pub mod Laws
use fusion_code_modelization.Common.{
  ℕ, String, Option, none, some, List, map, length, take_last, ltb, ◌||◌, if◌then◌else◌,
}
use fusion_code_modelization.Common.Dict
use fusion_code_modelization.Session.State.{
  idle, running, state_eq, Session, SessionMessage, transition, add_message,
}
use fusion_code_modelization.Session.Store.{load}
use fusion_code_modelization.Session.Engine.{
  Engine, Outcome, max_history_messages, cache_client, move_to_end, save_session,
}

-- What the model answers: the content, or the error if the reply names one.
pub data Reply : Type 0 where
  completed : String → Reply
  failed : Option String → Reply

pub data ChatStart : Type 0 where
  not_found cannot_chat : ChatStart
  asked : Session → List (String × String) → ChatStart

abbrev wake : Session → Session
wake s = if state_eq s.state idle then (transition s running).0 else s

abbrev client_for : Engine → Session → String → Engine
client_for e s sid = elim (Dict.get e.clients sid) [
  | none ↦ cache_client e sid (record {
    model = s.config.model;
    temperature = s.config.temperature;
    max_tokens = s.config.max_tokens;
  })
  | some c ↦ record e { clients = move_to_end e.clients sid c }
]

-- `history`
unfoldable pub history : Session → List SessionMessage
history s =
    if ltb max_history_messages (length s.messages)
    then take_last max_history_messages s.messages
    else s.messages

abbrev begin_found : ℕ → Engine → String → String → Option Session → Engine × ChatStart
begin_found now e sid prompt none = (e, not_found)
begin_found now e sid prompt (some session) =
    if state_eq session.state running || state_eq session.state idle
    then (let s = add_message (wake session) "user" prompt now in
        (client_for e session sid, asked s (map (λ m. (m.role, m.content)) (history s))))
    else (e, cannot_chat)

unfoldable pub chat_begin : ℕ → Engine → String → String → Engine × ChatStart
chat_begin now e sid prompt = begin_found now e sid prompt (load e.files sid)

abbrev note_reply : ℕ → Session → Reply → Session
note_reply now s (completed content) = add_message s "assistant" content now
note_reply now s (failed none) = record s { error = "" }
note_reply now s (failed (some error)) = record s { error = error }

-- The rest of `chat`, in the engine as it is when the reply is there.
unfoldable pub chat_finish : (String → String) → ℕ → ℕ → Session → Reply → Engine → Outcome Session
chat_finish scrub now later s reply e = save_session scrub later (note_reply now s reply) e
