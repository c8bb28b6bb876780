-- ===== src/Session/State/Table.antt =====
-- The transition table of session/state.py as a relation, and the paths through it.
use mathlib.Core.Logic.{◌↔◌}
use fusion_code_modelization.Common.{◌≡◌, refl, true, any, arith, if◌then◌else◌}
use fusion_code_modelization.Session.State.{
  SessionState, idle, running, waiting_approval, paused, cluster_running, completed, failed,
  state_eq, valid_transitions, Session, transition,
}

infix 40 ◌⟶◌ ◌⟶*◌
-- The life of a session as the state diagram draws it.
pub data ◌⟶◌ : SessionState → SessionState → Type 0 where
  begin : idle ⟶ running
  spread : idle ⟶ cluster_running
  ask : running ⟶ waiting_approval
  rest : running ⟶ paused
  grow : running ⟶ cluster_running
  finish : running ⟶ completed
  break_ : running ⟶ failed
  shrink : cluster_running ⟶ running
  cluster_rest : cluster_running ⟶ paused
  cluster_finish : cluster_running ⟶ completed
  cluster_break : cluster_running ⟶ failed
  grant : waiting_approval ⟶ running
  hold : waiting_approval ⟶ paused
  refuse : waiting_approval ⟶ failed
  wake : paused ⟶ running
  wake_cluster : paused ⟶ cluster_running
  paused_break : paused ⟶ failed
  paused_finish : paused ⟶ completed
  reset : failed ⟶ idle

pub data ◌⟶*◌ : SessionState → SessionState → Type 0 where
  here : {s : SessionState} → s ⟶* s
  then_ : {s t u : SessionState} → s ⟶* t → t ⟶ u → s ⟶* u

pub ruleset edges = (
  begin, spread, ask, rest, grow, finish, break_, shrink, cluster_rest, cluster_finish,
  cluster_break, grant, hold, refuse, wake, wake_cluster, paused_break, paused_finish, reset,
)

table-⟶ : (s t : SessionState) → any (state_eq t) (valid_transitions s) ≡ true → s ⟶ t
table-⟶ idle running h = begin
table-⟶ idle cluster_running h = spread
table-⟶ running waiting_approval h = ask
table-⟶ running paused h = rest
table-⟶ running cluster_running h = grow
table-⟶ running completed h = finish
table-⟶ running failed h = break_
table-⟶ cluster_running running h = shrink
table-⟶ cluster_running paused h = cluster_rest
table-⟶ cluster_running completed h = cluster_finish
table-⟶ cluster_running failed h = cluster_break
table-⟶ waiting_approval running h = grant
table-⟶ waiting_approval paused h = hold
table-⟶ waiting_approval failed h = refuse
table-⟶ paused running h = wake
table-⟶ paused cluster_running h = wake_cluster
table-⟶ paused failed h = paused_break
table-⟶ paused completed h = paused_finish
table-⟶ failed idle h = reset
table-⟶ _ _ h = cc

⟶-table : {s t : SessionState} → s ⟶ t → any (state_eq t) (valid_transitions s) ≡ true
⟶-table begin = refl
⟶-table _ = refl

-- `transition` reports success exactly along the edges of the state diagram. It then moves the
-- state and nothing else, and otherwise it leaves the session as it was.
pub transition-⟶ :
    (s : Session) (t : SessionState)
    → ((transition s t).1 ≡ true ↔ (s.state ⟶ t))
      × ((transition s t).0 ≡ (if (transition s t).1 then record s { state = t } else s))
unfolding transition
transition-⟶ s t =
    ((λ h. table-⟶ s.state t (ground arith), λ e. ground (arith, ⟶-table e)), ground arith)

-- What the success of a transition says of the states.
pub transition_true : (s : Session) (t : SessionState) → (transition s t).1 ≡ true → s.state ⟶ t
transition_true s t = (transition-⟶ s t).0.0

-- Every state but `completed` has a path to `completed`, and `completed` has an edge to nothing.
pub ⟶*-trans : {s t u : SessionState} → s ⟶* t → t ⟶* u → s ⟶* u
⟶*-trans p here = p
⟶*-trans p (then_ q e) = then_ (⟶*-trans p q) e

pub from_completed : {s t : SessionState} → s ⟶* t → s ≡ completed → t ≡ completed
from_completed here e = e
from_completed (then_ {t = t} p q) e = stuck q (from_completed p e)
  where
    stuck : {t u : SessionState} → t ⟶ u → t ≡ completed → u ≡ completed
    stuck begin h = cc
    stuck _ h = cc
