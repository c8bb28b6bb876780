-- ===== src/AgentComm/Coordinator/Laws.antt =====
-- The life of a collaboration in agent_comm/coordinator.py.
use fusion_code_modelization.Common.{
  String, ◌≡◌, refl, ap, ◌∙◌, true, false, Option, none, some, ◌==◌, Bool-cases, Option-cases, inl,
  inr, if◌then◌else◌, same_text,
}
use fusion_code_modelization.Common.Dict
use fusion_code_modelization.Common.Dict.{Dict, get-set}
use fusion_code_modelization.AgentComm.Models.{
  CollaborationStatus, pending, active, completed, failed, conflict, status_eq, AgentChannel,
  CollaborationTask,
}
use fusion_code_modelization.AgentComm.Channel.{close_channel}
use fusion_code_modelization.AgentComm.Channel.Closed.{is_closed}
use fusion_code_modelization.AgentComm.Coordinator.{
  CollaborationCoordinator, Fresh, get_task, submit_result, report_conflict, resolve_conflict,
  complete_collaboration, fail_collaboration,
}

abbrev pub status_of : Option CollaborationTask → Option CollaborationStatus
status_of none = none
status_of (some t) = some t.status

-- A result is accepted exactly if the collaboration exists, whatever its status, and from any
-- agent; it is stored under the agent's name, and the other agents' results stay.
pub submit_result_lem :
    (c : CollaborationCoordinator) (fresh : Fresh) (cid agent : String) (result : Dict String)
    (t : CollaborationTask) (other : String)
    → get_task c cid ≡ some t
    → (t' : CollaborationTask) × (get_task (submit_result c fresh cid agent result).0 cid ≡ some t')
      × ((submit_result c fresh cid agent result).1 ≡ true)
      × (Dict.get t'.results other
          ≡ (if agent == other then some result else Dict.get t.results other))
      × (t'.status ≡ t.status)
unfolding get_task submit_result
submit_result_lem c fresh cid agent result t other h =
    let t' = record t { results = Dict.set t.results agent result } in
    (
      t',
      rw (h, submit_result) (rw (get-set c.tasks cid cid t') (rw (same_text cid))),
      rw (h, submit_result),
      get-set t.results agent other result,
      refl,
    )

after_report :
    (c : CollaborationCoordinator) (fresh : Fresh) (cid agent : String) (details : Dict String)
    (t : CollaborationTask)
    → get_task c cid ≡ some t
    → get_task (report_conflict c fresh cid agent details).0 cid
      ≡ some (record t { status = conflict })
unfolding get_task report_conflict
after_report c fresh cid agent details t h =
    rw (h, report_conflict)
      (rw (get-set c.tasks cid cid (record t { status = conflict })) (rw (same_text cid)))

after_resolve :
    (c : CollaborationCoordinator) (fresh : Fresh) (cid : String) (agreed : Dict String)
    (t : CollaborationTask)
    → get_task c cid ≡ some t
    → t.status ≡ conflict
    → ((resolve_conflict c fresh cid agreed).1 ≡ true)
      × (get_task (resolve_conflict c fresh cid agreed).0 cid ≡ some (record t { status = active }))
unfolding get_task resolve_conflict
after_resolve c fresh cid agreed t h e = (
  rw (h, resolve_conflict, e),
  rw (h, resolve_conflict, e)
      (rw (get-set c.tasks cid cid (record t { status = active })) (rw (same_text cid))),
)

-- A conflict may be reported in any status of a collaboration, and to resolve it then makes the
-- collaboration active: so one that is completed or failed comes back to life.
pub resolve-report :
    (c : CollaborationCoordinator) (first second : Fresh) (cid agent : String)
    (details agreed : Dict String) (t : CollaborationTask)
    → get_task c cid ≡ some t
    → (status_of (get_task (report_conflict c first cid agent details).0 cid) ≡ some conflict)
      × ((resolve_conflict (report_conflict c first cid agent details).0 second cid agreed).1
          ≡ true)
      × (status_of (
            get_task
              (resolve_conflict (report_conflict c first cid agent details).0 second cid agreed).0
              cid)
          ≡ some active)
resolve-report c first second cid agent details agreed t h =
    let reported = (report_conflict c first cid agent details).0 in
    let there = after_report c first cid agent details t h in
    let (done, back) =
      after_resolve reported second cid agreed (record t { status = conflict }) there refl in
    (ap status_of there, done, ap status_of back)

status_eq-true : (st : CollaborationStatus) → status_eq st conflict ≡ true → st ≡ conflict
status_eq-true pending h = cc
status_eq-true active h = cc
status_eq-true completed h = cc
status_eq-true failed h = cc
status_eq-true conflict h = refl

-- Without a reported conflict there is nothing to resolve, and the coordinator stays as it is.
pub resolve_nothing :
    (c : CollaborationCoordinator) (fresh : Fresh) (cid : String) (agreed : Dict String)
    → (status_of (get_task c cid) ≡ some conflict → ⊥)
    → resolve_conflict c fresh cid agreed ≡ (c, false)
unfolding get_task resolve_conflict
resolve_nothing c fresh cid agreed h = elim (Option-cases (Dict.get c.tasks cid)) [
  | inl unknown ↦ rw (unknown, resolve_conflict)
  | inr (t, known) ↦ elim (Bool-cases (status_eq t.status conflict)) [
    | inl y ↦ absurd (h (ap status_of known ∙ ap some (status_eq-true t.status y)))
    | inr n ↦ rw (known, resolve_conflict, n)
  ]
]

-- To complete or fail a collaboration is one step: its status is set, and its channel is closed.
pub complete_closes :
    (c : CollaborationCoordinator) (cid : String) (t : CollaborationTask) (ch : AgentChannel)
    → get_task c cid ≡ some t
    → Dict.get c.channel_manager.channels t.channel_name ≡ some ch
    → (status_of (get_task (complete_collaboration c cid).0 cid) ≡ some completed)
      × (status_of (get_task (fail_collaboration c cid).0 cid) ≡ some failed)
      × (is_closed
            (Dict.get (complete_collaboration c cid).0.channel_manager.channels t.channel_name)
          ≡ true)
      × (is_closed (Dict.get (fail_collaboration c cid).0.channel_manager.channels t.channel_name)
          ≡ true)
unfolding get_task complete_collaboration fail_collaboration
complete_closes c cid t ch h known =
    let shut = record ch { is_active = false } in
    let closes : is_closed
          (Dict.get (close_channel c.channel_manager t.channel_name).0.channels t.channel_name)
        ≡ true =
      unfold close_channel in
      rw (known, close_channel)
        (rw (get-set c.channel_manager.channels t.channel_name t.channel_name shut)
          (rw (same_text t.channel_name))) in
    (
      rw (h, complete_collaboration)
          (rw (get-set c.tasks cid cid (record t { status = completed })) (rw (same_text cid))),
      rw (h, fail_collaboration)
          (rw (get-set c.tasks cid cid (record t { status = failed })) (rw (same_text cid))),
      rw (h, complete_collaboration) closes,
      rw (h, fail_collaboration) closes,
    )
