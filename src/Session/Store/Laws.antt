-- ===== src/Session/Store/Laws.antt =====
-- What the session store keeps: a file read back is the session that was written, with the message
-- texts scrubbed, and each file is found under the id that it holds.
use fusion_code_modelization.Common.{
  ℕ, String, ◌≡◌, refl, ap, true, Option, none, some, List, [], ◌∷◌, map, ◌==◌, eq_iff,
  Option-cases, Bool-cases, inl, inr, arith, if◌then◌else◌,
}
use fusion_code_modelization.Common.Dict
use fusion_code_modelization.Common.Dict.{get-set, get-remove}
use fusion_code_modelization.Session.State.{
  SessionState, idle, Session, SessionMessage, SessionData, message_data, state_value, to_dict,
}
use fusion_code_modelization.Session.Store.{
  SessionFile, json, garbage, Files, is_valid_id, state_of_value, message_of, scrub_message,
  scrub_messages, get_or, from_dict, save, read, load, delete,
}

abbrev pub disk_message : (String → String) → SessionMessage → SessionMessage
disk_message scrub m = record m { content = scrub m.content; metadata = [] }

-- What of a session survives the way through its file.
unfoldable pub on_disk : (String → String) → Session → Session
on_disk scrub s = record s {
  config = record s.config { session_id = s.session_id; name = s.name; metadata = [] };
  messages = map (disk_message scrub) s.messages;
}

state_of_value-state_value : (st : SessionState) → state_of_value (state_value st) ≡ some st
state_of_value-state_value idle = refl
state_of_value-state_value _ = refl

messages_back :
    (scrub : String → String) (ms : List SessionMessage)
    → map message_of (map (scrub_message scrub) (map message_data ms)) ≡ map (disk_message scrub) ms
messages_back scrub [] = refl
messages_back scrub (m ∷ ms) = ap (◌∷◌ (disk_message scrub m)) (messages_back scrub ms)

from_dict-to_dict :
    (scrub : String → String) (s : Session)
    → from_dict (scrub_messages scrub (to_dict s)) ≡ some (on_disk scrub s)
unfolding from_dict to_dict on_disk
from_dict-to_dict scrub s =
    rw (state_of_value-state_value s.state, from_dict)
      (ap some (λ i. record (on_disk scrub s) { messages = messages_back scrub s.messages i }))

-- The files after a `save` that does not raise.
unfoldable pub written : (String → String) → ℕ → Session → Files → Files
written scrub now s files =
    Dict.set files s.session_id
      (json (scrub_messages scrub (to_dict (record s { updated_at = now }))))

pub save-written :
    (scrub : String → String) (now : ℕ) (s : Session) (files : Files)
    → is_valid_id s.session_id ≡ true
    → save scrub now s files ≡ some (record s { updated_at = now }, written scrub now s files)
unfolding save written
save-written scrub now s files h = rw h

pub load-written :
    (scrub : String → String) (now : ℕ) (s : Session) (files : Files) (sid : String)
    → is_valid_id s.session_id ≡ true
    → load (written scrub now s files) sid ≡ (
        if s.session_id == sid
        then some (on_disk scrub (record s { updated_at = now }))
        else load files sid)
unfolding load written
load-written scrub now s files sid h =
    let s' = record s { updated_at = now } in
    ground (
      arith,
      get-set files s.session_id sid (json (scrub_messages scrub (to_dict s'))),
      from_dict-to_dict scrub s',
      eq_iff s.session_id sid,
    )

-- A `save` under a valid id succeeds. The session is then read back with its message texts
-- scrubbed and its other parts as `on_disk` says, and every other session is as it was.
pub load-save :
    (scrub : String → String) (now : ℕ) (s : Session) (files : Files) (sid : String)
    → is_valid_id s.session_id ≡ true
    → (s' : Session) × (files' : Files) × (save scrub now s files ≡ some (s', files'))
      × (load files' sid
          ≡ (if s.session_id == sid then some (on_disk scrub s') else load files sid))
load-save scrub now s files sid h = (
  record s { updated_at = now },
  written scrub now s files,
  save-written scrub now s files h,
  load-written scrub now s files sid h,
)

-- Each file holds the session of its own id.
pub record IsConsistent (files : Files) : Type 0 where
  pub own_id :
      (sid : String) (d : SessionData)
      → Dict.get files sid ≡ some (json d)
      → d.session_id ≡ some sid

pub written-IsConsistent :
    (scrub : String → String) (now : ℕ) (s : Session) (files : Files)
    → IsConsistent files
    → IsConsistent (written scrub now s files)
unfolding written to_dict
written-IsConsistent scrub now s files h = record {
  own_id = λ sid d g. ground (
    arith,
    get-set files s.session_id sid
        (json (scrub_messages scrub (to_dict (record s { updated_at = now })))),
    eq_iff s.session_id sid,
    h.own_id sid d,
  );
}

session_id-from_dict :
    (d : SessionData) (sid : String) {s : Session}
    → from_dict d ≡ some s
    → d.session_id ≡ some sid
    → s.session_id ≡ sid
unfolding from_dict
session_id-from_dict d sid e h = elim (Option-cases (state_of_value (get_or d.state "idle"))) [
  | inl bad ↦ cc ((rw (bad, from_dict) at e))
  | inr (st, good) ↦ cc ((rw (good, from_dict) at e), h)
]

session_id-read :
    (o : Option SessionFile) (sid : String) {s : Session}
    → ((d : SessionData) → o ≡ some (json d) → d.session_id ≡ some sid)
    → read o ≡ some s
    → s.session_id ≡ sid
session_id-read none sid h e = cc
session_id-read (some garbage) sid h e = cc
session_id-read (some (json d)) sid h e = session_id-from_dict d sid e (h d refl)

pub session_id-load :
    (files : Files) (sid : String) {s : Session}
    → IsConsistent files
    → load files sid ≡ some s
    → (s.session_id ≡ sid) × (is_valid_id sid ≡ true)
unfolding load
session_id-load files sid h e = elim (Bool-cases (is_valid_id sid)) [
  | inl valid ↦
      (session_id-read (Dict.get files sid) sid (h.own_id sid) (rw (valid, load) at e), valid)
  | inr bad ↦ cc ((rw (bad, load) at e))
]

pub load-delete :
    (files : Files) (sid other : String)
    → load (delete files sid).0 other ≡ (if sid == other then none else load files other)
unfolding load delete
load-delete files sid other = ground (arith, get-remove files sid other, eq_iff sid other)

pub delete-IsConsistent :
    (files : Files) (sid : String) → IsConsistent files → IsConsistent (delete files sid).0
unfolding delete
delete-IsConsistent files sid h = record {
  own_id = λ j d g. ground (arith, get-remove files sid j, eq_iff sid j, h.own_id j d);
}
