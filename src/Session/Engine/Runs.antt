-- ===== src/Session/Engine/Runs.antt =====
-- Any sequence of calls of start, pause, resume, complete, fail, request_approval and approve of
-- session/engine.py.
use fusion_code_modelization.Common.{
  ℕ, String, ◌≡◌, refl, Bool, true, false, Option, none, some, List, [], ◌∷◌, ◌==◌, eq_iff,
  Option-cases, Bool-cases, inl, inr, arith, if◌then◌else◌,
}
use fusion_code_modelization.Session.State.{SessionState, Session, can_transition, transition}
use fusion_code_modelization.Session.State.Table.{◌⟶◌, ◌⟶*◌, here, then_, ⟶*-trans, transition_true}
use fusion_code_modelization.Session.Store.{load, is_valid_id}
use fusion_code_modelization.Session.Store.Laws.{
  on_disk, written, load-written, IsConsistent, written-IsConsistent, session_id-load,
}
use fusion_code_modelization.Session.Engine.{Engine, Op, target, step}
use fusion_code_modelization.Session.Engine.Steps.{
  moved, step_missing, step_found, session_id-edit, state-edit,
}

abbrev state_of : Option Session → Option SessionState
state_of none = none
state_of (some s) = some s.state

-- The state that a session has on disk.
unfoldable pub state_at : Engine → String → Option SessionState
state_at e sid = state_of (load e.files sid)

pub record Call : Type 0 where
  pub now : ℕ
  pub op : Op
  pub sid : String

unfoldable pub run : (String → String) → Engine → List Call → Option Engine
run scrub e [] = some e
run scrub e (c ∷ calls) = elim (step scrub c.now e c.op c.sid) [
  | none ↦ none
  | some (e', _) ↦ run scrub e' calls
]

-- `e'` is a consistent engine in which each session has moved along the table.
pub record Advances (e e' : Engine) : Type 0 where
  pub consistent : IsConsistent e'.files
  pub path :
      (sid : String) (s : SessionState)
      → state_at e sid ≡ some s
      → (t : SessionState) × (state_at e' sid ≡ some t) × (s ⟶* t)

pub Advances-refl : {e : Engine} → IsConsistent e.files → Advances e e
Advances-refl h = record { consistent = h; path = λ sid s p. (s, p, here) }

pub Advances-trans : {e e' e'' : Engine} → Advances e e' → Advances e' e'' → Advances e e''
Advances-trans a b = record {
  consistent = b.consistent;
  path = λ sid s p.
      let (t, q, r) = a.path sid s p in let (u, q', r') = b.path sid t q in (u, q', ⟶*-trans r r');
}

can-⟶ : (s : Session) (t : SessionState) → can_transition s t ≡ true → s.state ⟶ t
can-⟶ s t h = transition_true s t (unfold transition in rw h)

module _ (scrub : String → String) (now : ℕ) (e : Engine) (op : Op) (s : Session) where
  abbrev pub after : Engine
  after = record e { files = written scrub now (moved op s) e.files }

  pub state_at-after :
      (sid other : String)
      → s.session_id ≡ sid
      → is_valid_id sid ≡ true
      → state_at after other ≡ (if sid == other then some (target op) else state_at e other)
  unfolding state_at on_disk
  state_at-after sid other own valid =
      let r = record s { state = target op } in
      let v : is_valid_id (moved op s).session_id ≡ true =
        rw (session_id-edit op r) (rw own valid) in
      let l = load-written scrub now (moved op s) e.files other v in
      ground (arith, l, session_id-edit op r, state-edit op r)

  after-path :
      (sid : String)
      → IsConsistent e.files
      → load e.files sid ≡ some s
      → can_transition s (target op) ≡ true
      → (other : String) (st : SessionState) → state_at e other ≡ some st
      → (t : SessionState) × (state_at after other ≡ some t) × (st ⟶* t)
  unfolding state_at
  after-path sid h found y other st p =
      let (own, valid) = session_id-load e.files sid h found in
      let law = state_at-after sid other own valid in
      elim (Bool-cases (sid == other)) [
        | inl same ↦
            let here_ : st ≡ s.state = cc (p, found, (eq_iff sid other).0 same) in
            (target op, rw (law, same), rw here_ (then_ here (can-⟶ s (target op) y)))
        | inr differs ↦ (st, rw (law, differs) p, here)
      ]

pub step-Advances :
    (scrub : String → String) (now : ℕ) (e : Engine) (op : Op) (sid : String)
    → IsConsistent e.files
    → (e' : Engine) × (b : Bool) × (step scrub now e op sid ≡ some (e', b)) × Advances e e'
step-Advances scrub now e op sid h = elim (Option-cases (load e.files sid)) [
  | inl missing ↦ (e, false, step_missing scrub now e op sid missing, Advances-refl h)
  | inr (s, found) ↦ elim (Bool-cases (can_transition s (target op))) [
    | inl y ↦ (
      after scrub now e op s,
      true,
      rw (step_found scrub now e op sid s h found, y),
      record {
        consistent = written-IsConsistent scrub now (moved op s) e.files h;
        path = after-path scrub now e op s sid h found y;
      },
    )
    | inr n ↦ (e, false, rw (step_found scrub now e op sid s h found, n), Advances-refl h)
  ]
]

-- From consistent files, no sequence of these calls raises, and each session has then moved along a
-- path of the transition table.
pub run-Advances :
    (scrub : String → String) (e : Engine) (calls : List Call)
    → IsConsistent e.files
    → (e' : Engine) × (run scrub e calls ≡ some e') × Advances e e'
unfolding run
run-Advances scrub e [] h = (e, refl, Advances-refl h)
run-Advances scrub e (c ∷ calls) h =
    let (e', b, p, a) = step-Advances scrub c.now e c.op c.sid h in
    let (e'', q, a') = run-Advances scrub e' calls a.consistent in
    (e'', rw (p, run) q, Advances-trans a a')

-- From consistent files, no sequence of calls of start, pause, resume, complete, fail,
-- request_approval and approve raises, the files stay consistent, and any session has then moved along
-- a path of the transition table. `chat`, `delete` and the other methods are not among these calls.
pub run-path :
    (scrub : String → String) (e : Engine) (calls : List Call) (sid : String) (s : SessionState)
    → IsConsistent e.files
    → state_at e sid ≡ some s
    → (e' : Engine) × (t : SessionState) × (run scrub e calls ≡ some e')
      × IsConsistent e'.files
      × (state_at e' sid ≡ some t)
      × (s ⟶* t)
run-path scrub e calls sid s h there =
    let (e', ran, a) = run-Advances scrub e calls h in
    let (t, found, way) = a.path sid s there in (e', t, ran, a.consistent, found, way)
