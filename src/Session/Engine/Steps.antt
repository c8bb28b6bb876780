-- ===== src/Session/Engine/Steps.antt =====
-- The methods `start`, `pause`, `resume`, `complete`, `fail`, `request_approval` and `approve` of
-- session/engine.py against the transition table.
use fusion_code_modelization.Common.{
  ℕ, String, ◌≡◌, refl, true, false, none, some, Bool-cases, inl, inr, if◌then◌else◌,
}
use fusion_code_modelization.Session.State.{Session, can_transition, transition}
use fusion_code_modelization.Session.Store.{is_valid_id, load}
use fusion_code_modelization.Session.Store.Laws.{
  written, save-written, IsConsistent, session_id-load,
}
use fusion_code_modelization.Session.Engine.{
  Engine, save_session, Op, fail, target, edit, change_found, change, step,
}

pub session_id-edit : (op : Op) (s : Session) → (edit op s).session_id ≡ s.session_id
session_id-edit (fail error) s = refl
session_id-edit _ s = refl

pub state-edit : (op : Op) (s : Session) → (edit op s).state ≡ s.state
state-edit (fail error) s = refl
state-edit _ s = refl

pub save_session-written :
    (scrub : String → String) (now : ℕ) (s : Session) (e : Engine)
    → is_valid_id s.session_id ≡ true
    → save_session scrub now s e
      ≡ some (record e { files = written scrub now s e.files }, record s { updated_at = now })
unfolding save_session
save_session-written scrub now s e h = rw (save-written scrub now s e.files h, save_session)

-- The session as the method writes it.
abbrev pub moved : Op → Session → Session
moved op s = edit op (record s { state = target op })

pub step_missing :
    (scrub : String → String) (now : ℕ) (e : Engine) (op : Op) (sid : String)
    → load e.files sid ≡ none
    → step scrub now e op sid ≡ some (e, false)
unfolding step change
step_missing scrub now e op sid h = rw (h, step, change)

-- A method succeeds exactly if the table has the transition. It then writes the session with its
-- new state (`fail` also with its error), and otherwise it changes nothing.
pub step_found :
    (scrub : String → String) (now : ℕ) (e : Engine) (op : Op) (sid : String) (s : Session)
    → IsConsistent e.files
    → load e.files sid ≡ some s
    → step scrub now e op sid ≡ (
        if can_transition s (target op)
        then some (record e { files = written scrub now (moved op s) e.files }, true)
        else some (e, false))
unfolding step change transition
step_found scrub now e op sid s h l =
    let own = session_id-load e.files sid h l in
    let valid : is_valid_id (moved op s).session_id ≡ true =
      rw (session_id-edit op (record s { state = target op })) (rw own.0 own.1) in
    let saves = save_session-written scrub now (moved op s) e valid in
    rw (l, step, change)
      (elim (Bool-cases (can_transition s (target op))) [
        | inl y ↦ rw (y, change_found, transition) (rw (saves, change_found))
        | inr n ↦ rw (n, change_found, transition)
      ])
