-- ===== src/AgentComm/Tests.antt =====
-- Runs of the channels and of the coordinator at concrete inputs.
use fusion_code_modelization.Common.{
  String, ◌≡◌, refl, true, false, none, some, List, [], ◌∷◌, ◌++◌, length, ◌==◌, if◌then◌else◌,
}
use fusion_code_modelization.Common.Dict
use fusion_code_modelization.Common.Dict.{Dict}
use fusion_code_modelization.AgentComm.Models.{
  status_update, heartbeat, completed, conflict, fields, AgentMessage, CollaborationTask,
}
use fusion_code_modelization.AgentComm.Channel.{
  AgentChannelManager, queue_of, enqueue, fresh_channel, create_channel, close_channel,
  push_message, send_message, receive_messages, Broadcast, broadcast_to, broadcast, load_channel,
  load_message, reload,
}
use fusion_code_modelization.AgentComm.Channel.Delivery.{
  receive-broadcast, broadcast_messages, received as received_of,
}
use fusion_code_modelization.AgentComm.Channel.Reload.{reopened}
use fusion_code_modelization.AgentComm.Channel.Logged.{
  start, Call, create, close, send, announce, run, reload-run,
}
use fusion_code_modelization.AgentComm.Channel.Closed.{is_closed, closed_for_good}
use fusion_code_modelization.AgentComm.Coordinator.{
  CollaborationCoordinator, Fresh, create_collaboration, get_task, submit_result, report_conflict,
  resolve_conflict, complete_collaboration, fail_collaboration,
}
use fusion_code_modelization.AgentComm.Coordinator.Laws.{
  status_of, submit_result_lem, resolve_nothing,
}

program : Unit {0}
unfolding queue_of enqueue create_channel close_channel push_message send_message receive_messages
    broadcast_to broadcast load_channel load_message reload run create_collaboration get_task
    submit_result report_conflict resolve_conflict complete_collaboration fail_collaboration
    Dict.get Dict.set Dict.set_default
program = tt

abbrev hello : String → AgentMessage
hello to = record {
  message_id = "m";
  sender_id = "a";
  recipient_id = to;
  channel_name = "dev";
  message_type = status_update;
  payload = fields [];
  timestamp = 7;
}

abbrev beat : Broadcast
beat = record {
  sender_id = "a";
  channel_name = "dev";
  message_type = heartbeat;
  payload = fields [];
  stamp = λ p. (p, 8);
}

abbrev talk : List Call
talk =
    create "dev" ("a" ∷ "b" ∷ "c" ∷ []) 1
    ∷ send (hello "b")
    ∷ announce beat
    ∷ close "dev"
    ∷ send (hello "c")
    ∷ []

abbrev talked : AgentChannelManager
talked = run start talk

-- `b` has the message and the broadcast, `c` the broadcast only, since the channel was closed.
received :
    (length (receive_messages talked "b" "dev" none) ≡ 2)
    × (length (receive_messages talked "c" "dev" none) ≡ 1)
    × (length (receive_messages talked "b" "dev" (some 7)) ≡ 1)
unfolding program
received = (refl, refl, refl)

-- The closed channel is open after a restart.
restarted :
    (is_closed (Dict.get talked.channels "dev") ≡ true)
    × (is_closed (Dict.get (reload talked).channels "dev") ≡ false)
unfolding program
restarted = (refl, refl)

receive-broadcast_example :
    ((broadcast talked beat).1
      ≡ length (broadcast_messages beat (Dict.get talked.channels beat.channel_name)))
    × (receive_messages (broadcast talked beat).0 "b" "dev" none
        ≡ receive_messages talked "b" "dev" none
          ++ received_of "b" "dev"
              (broadcast_messages beat (Dict.get talked.channels beat.channel_name)))
receive-broadcast_example = receive-broadcast talked beat "b" "dev"

reload-run_example :
    (receive_messages (reload (run start talk)) "b" "dev" none
      ≡ receive_messages (run start talk) "b" "dev" none)
    × (Dict.get (reload (run start talk)).channels "dev"
        ≡ reopened (Dict.get (run start talk).channels "dev"))
reload-run_example = reload-run talk "b" "dev" none

shut : is_closed (Dict.get talked.channels (hello "b").channel_name) ≡ true
unfolding program
shut = refl

closed_for_good_example :
    (send_message (run talked talk) (hello "b") ≡ (run talked talk, false))
    × (broadcast (run talked talk) beat ≡ (run talked talk, 0))
closed_for_good_example = closed_for_good talked talk (hello "b") beat shut refl

abbrev fresh : Fresh
fresh = record { collaboration_id = "c1"; channel_name = "collab_c1"; now = 3; stamp = λ p. (p, 4) }

abbrev nothing : CollaborationCoordinator
nothing = record { channel_manager = start; tasks = []; task_log = [] }

abbrev made : CollaborationCoordinator × CollaborationTask
made = create_collaboration nothing fresh "build" ("a" ∷ "b" ∷ []) none

made_task : get_task made.0 "c1" ≡ some made.1
unfolding program
made_task = refl

submit_result_example :
    (t' : CollaborationTask) × (get_task
        (submit_result made.0 fresh "c1" "b" (("out", "x") ∷ [])).0
        "c1"
      ≡ some t')
    × ((submit_result made.0 fresh "c1" "b" (("out", "x") ∷ [])).1 ≡ true)
    × (Dict.get t'.results "b"
        ≡ (if "b" == "b" then some (("out", "x") ∷ []) else Dict.get made.1.results "b"))
    × (t'.status ≡ made.1.status)
submit_result_example =
    submit_result_lem made.0 fresh "c1" "b" (("out", "x") ∷ []) made.1 "b" made_task

abbrev ended : CollaborationCoordinator
ended = (complete_collaboration made.0 "c1").0

ended_task : get_task ended "c1" ≡ some (record made.1 { status = completed })
unfolding program
ended_task = refl

no_conflict : status_of (get_task made.0 "c1") ≡ some conflict → ⊥
unfolding program
no_conflict h = cc

resolve_nothing_example : resolve_conflict made.0 fresh "c1" [] ≡ (made.0, false)
resolve_nothing_example = resolve_nothing made.0 fresh "c1" [] no_conflict

made_channel :
    Dict.get made.0.channel_manager.channels made.1.channel_name
    ≡ some (fresh_channel "collab_c1" ("a" ∷ "b" ∷ []) 3)
unfolding program
made_channel = refl
