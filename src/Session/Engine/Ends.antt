-- ===== src/Session/Engine/Ends.antt =====
-- The ends of a session under start, pause, resume, complete, fail, request_approval and approve of
-- session/engine.py.
use fusion_code_modelization.Common.{
  ℕ, String, ◌≡◌, refl, sym, ◌∙◌, Bool, true, false, some, List, [], ◌∷◌, ◌==◌, eq_iff, ◌⊎◌,
  Option-cases, Bool-cases, inl, inr, arith,
}
use fusion_code_modelization.Session.State.{
  SessionState, completed, failed, Session, can_transition,
}
use fusion_code_modelization.Session.Store.{load}
use fusion_code_modelization.Session.Store.Laws.{
  IsConsistent, session_id-load, written-IsConsistent,
}
use mathlib.Core.Bool.{true≢false}
use fusion_code_modelization.Session.Engine.{Engine, Op, fail, target, step}
use fusion_code_modelization.Session.Engine.Steps.{moved, step_missing, step_found}
use fusion_code_modelization.Session.Engine.Runs.{state_at, after, state_at-after, Call, run}

abbrev pub IsEnd : SessionState → Type 0
IsEnd st = (st ≡ completed) ⊎ (st ≡ failed)

no_exit : (s : Session) (op : Op) → IsEnd s.state → can_transition s (target op) ≡ false
unfolding can_transition
no_exit s (fail error) h = ground arith
no_exit s _ h = ground arith

-- The state on disk after one call, for a session that has ended.
step-ended :
    (scrub : String → String) (now : ℕ) (e : Engine) (op : Op) (sid other : String)
    (st : SessionState)
    → IsConsistent e.files
    → state_at e other ≡ some st
    → IsEnd st
    → (e' : Engine) × (b : Bool) × (step scrub now e op sid ≡ some (e', b))
      × IsConsistent e'.files
      × (state_at e' other ≡ some st)
unfolding state_at
step-ended scrub now e op sid other st h p d = elim (Option-cases (load e.files sid)) [
  | inl missing ↦ (e, false, step_missing scrub now e op sid missing, h, p)
  | inr (s, found) ↦ elim (Bool-cases (can_transition s (target op))) [
    | inl y ↦
        let (own, valid) = session_id-load e.files sid h found in
        (
          after scrub now e op s,
          true,
          rw (step_found scrub now e op sid s h found, y),
          written-IsConsistent scrub now (moved op s) e.files h,
          elim (Bool-cases (sid == other)) [
            | inl same ↦
                let here : st ≡ s.state = cc (p, found, (eq_iff sid other).0 same) in
                absurd (true≢false (sym y ∙ no_exit s op (rw here at d)))
            | inr differs ↦ rw (state_at-after scrub now e op s sid other own valid, differs) p
          ],
        )
    | inr n ↦ (e, false, rw (step_found scrub now e op sid s h found, n), h, p)
  ]
]

-- From consistent files, a session that is completed or failed stays so under any sequence of calls of
-- start, pause, resume, complete, fail, request_approval and approve, for whatever sessions; `failed`
-- has an edge back to `idle` in the table, and none of these takes it. `chat` and `delete` are not
-- among these calls.
pub run-ended :
    (scrub : String → String) (e : Engine) (calls : List Call) (sid : String) (st : SessionState)
    → IsConsistent e.files
    → state_at e sid ≡ some st
    → IsEnd st
    → (e' : Engine) × (run scrub e calls ≡ some e') × (state_at e' sid ≡ some st)
unfolding run
run-ended scrub e [] sid st h p d = (e, refl, p)
run-ended scrub e (c ∷ calls) sid st h p d =
    let (e', b, q, h', p') = step-ended scrub c.now e c.op c.sid sid st h p d in
    let (e'', q', r) = run-ended scrub e' calls sid st h' p' d in (e'', rw (q, run) q', r)
