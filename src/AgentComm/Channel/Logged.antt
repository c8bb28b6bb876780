-- ===== src/AgentComm/Channel/Logged.antt =====
-- Every operation of agent_comm/channel.py keeps its files in step with its queues and channels.
use fusion_code_modelization.Common.{
  ℕ, ◌+◌, String, ◌≡◌, refl, sym, ap, ◌∙◌, true, false, Option, none, some, List, [], ◌∷◌, ◌++◌,
  filter, filter-append, ◌==◌, eq_iff, Bool-cases, Option-cases, inl, inr, is_some, arith,
}
use fusion_code_modelization.Common.Dict
use fusion_code_modelization.Common.Dict.{Dict, get-set}
use fusion_code_modelization.AgentComm.Models.{AgentMessage, AgentChannel}
use fusion_code_modelization.AgentComm.Channel.{
  AgentChannelManager, queue_of, fresh_channel, add_channel, create_channel, close_channel,
  may_send, push_message, send_message, Broadcast, message_to, broadcast_to, broadcast_in,
  broadcast, receive_messages, reload,
}
use fusion_code_modelization.AgentComm.Channel.Delivery.{in_channel, queue_of-enqueue}
use fusion_code_modelization.AgentComm.Channel.Reload.{
  last_named-append, reopened, no_queue, IsLogged, reload-IsLogged,
}

abbrev pub start : AgentChannelManager
start = record { channels = []; message_queue = []; channel_log = []; message_log = [] }

pub start-IsLogged : IsLogged start
unfolding Dict.get
start-IsLogged = record { queues = no_queue; channels = λ name. refl; silent = λ name h. refl }

push-IsLogged :
    (c : AgentChannelManager) (m : AgentMessage)
    → is_some (Dict.get c.channels m.channel_name) ≡ true
    → IsLogged c
    → IsLogged (push_message c m)
unfolding push_message
push-IsLogged c m known h = record {
  queues = λ name.
      queue_of-enqueue c.message_queue m name
      ∙ ap (λ l. l ++ filter (in_channel name) (m ∷ [])) (h.queues name)
      ∙ sym (filter-append (in_channel name) c.message_log (m ∷ []));
  channels = h.channels;
  silent = λ name none_there. ground (
    arith,
    filter-append (in_channel name) c.message_log (m ∷ []),
    h.silent name,
    eq_iff m.channel_name name,
  );
}

add_channel-IsLogged :
    (c : AgentChannelManager) (name : String) (participants : List String) (now : ℕ)
    → Dict.get c.channels name ≡ none
    → IsLogged c
    → IsLogged (add_channel c (fresh_channel name participants now))
unfolding queue_of
add_channel-IsLogged c name participants now unknown h =
    let channel = fresh_channel name participants now in
    record {
      queues = λ n. ground (
        arith,
        get-set c.message_queue name n [],
        h.queues n,
        h.silent name unknown,
        eq_iff name n,
      );
      channels = λ n. ground (
        arith,
        get-set c.channels name n channel,
        last_named-append c.channel_log channel n,
        h.channels n,
      );
      silent = λ n none_there. ground (arith, get-set c.channels name n channel, h.silent n);
    }

create_channel-IsLogged :
    (c : AgentChannelManager) (name : String) (participants : List String) (now : ℕ)
    → IsLogged c
    → IsLogged (create_channel c name participants now).0
unfolding create_channel
create_channel-IsLogged c name participants now h = elim (Option-cases (Dict.get c.channels name)) [
  | inl unknown ↦
      rw (unknown, create_channel) (add_channel-IsLogged c name participants now unknown h)
  | inr (channel, known) ↦ rw (known, create_channel) h
]

shut-IsLogged :
    (c : AgentChannelManager) (name : String) (channel : AgentChannel)
    → Dict.get c.channels name ≡ some channel
    → IsLogged c
    → IsLogged
        (record c { channels = Dict.set c.channels name (record channel { is_active = false }) })
shut-IsLogged c name channel known h =
    let shut = record channel { is_active = false } in
    record {
      queues = h.queues;
      channels = λ n. ground (arith, get-set c.channels name n shut, h.channels n, eq_iff name n);
      silent = λ n none_there. ground (arith, get-set c.channels name n shut, h.silent n);
    }

close_channel-IsLogged :
    (c : AgentChannelManager) (name : String) → IsLogged c → IsLogged (close_channel c name).0
unfolding close_channel
close_channel-IsLogged c name h = elim (Option-cases (Dict.get c.channels name)) [
  | inl unknown ↦ rw (unknown, close_channel) h
  | inr (channel, known) ↦ rw (known, close_channel) (shut-IsLogged c name channel known h)
]

may_send-known :
    (o : Option AgentChannel) (m : AgentMessage) → may_send o m ≡ true → is_some o ≡ true
may_send-known none m h = h
may_send-known (some channel) m h = refl

send_message-IsLogged :
    (c : AgentChannelManager) (m : AgentMessage) → IsLogged c → IsLogged (send_message c m).0
unfolding send_message
send_message-IsLogged c m h = elim (Bool-cases (may_send (Dict.get c.channels m.channel_name) m)) [
  | inl y ↦ rw y (push-IsLogged c m (may_send-known (Dict.get c.channels m.channel_name) m y) h)
  | inr n ↦ rw n h
]

broadcast_to-IsLogged :
    (c : AgentChannelManager) (b : Broadcast) (ps : List String) (sent : ℕ)
    → is_some (Dict.get c.channels b.channel_name) ≡ true
    → IsLogged c
    → IsLogged (broadcast_to c b ps sent).0
unfolding broadcast_to push_message
broadcast_to-IsLogged c b [] sent known h = h
broadcast_to-IsLogged c b (p ∷ ps) sent known h = elim (Bool-cases (p == b.sender_id)) [
  | inl own ↦ rw (own, broadcast_to) (broadcast_to-IsLogged c b ps sent known h)
  | inr other ↦
      rw (other, broadcast_to)
        (broadcast_to-IsLogged (push_message c (message_to b p)) b ps (sent + 1) known
          (push-IsLogged c (message_to b p) known h))
]

broadcast_in-IsLogged :
    (c : AgentChannelManager) (b : Broadcast) (o : Option AgentChannel)
    → Dict.get c.channels b.channel_name ≡ o
    → IsLogged c
    → IsLogged (broadcast_in c b o).0
broadcast_in-IsLogged c b none e h = h
broadcast_in-IsLogged c b (some channel) e h = elim (Bool-cases channel.is_active) [
  | inl open_ ↦ rw open_ (broadcast_to-IsLogged c b channel.participants 0 (rw e) h)
  | inr shut ↦ rw shut h
]

-- The calls that change a manager.
pub data Call : Type 0 where
  create : String → List String → ℕ → Call
  close : String → Call
  send : AgentMessage → Call
  announce : Broadcast → Call

unfoldable pub run : AgentChannelManager → List Call → AgentChannelManager
run c [] = c
run c (create name participants now ∷ calls) = run (create_channel c name participants now).0 calls
run c (close name ∷ calls) = run (close_channel c name).0 calls
run c (send m ∷ calls) = run (send_message c m).0 calls
run c (announce b ∷ calls) = run (broadcast c b).0 calls

-- From files that agree with the manager, any sequence of calls leaves files that agree with it.
pub run-IsLogged :
    (c : AgentChannelManager) (calls : List Call) → IsLogged c → IsLogged (run c calls)
unfolding run broadcast
run-IsLogged c [] h = h
run-IsLogged c (create name participants now ∷ calls) h =
    run-IsLogged (create_channel c name participants now).0 calls
      (create_channel-IsLogged c name participants now h)
run-IsLogged c (close name ∷ calls) h =
    run-IsLogged (close_channel c name).0 calls (close_channel-IsLogged c name h)
run-IsLogged c (send m ∷ calls) h =
    run-IsLogged (send_message c m).0 calls (send_message-IsLogged c m h)
run-IsLogged c (announce b ∷ calls) h =
    run-IsLogged (broadcast c b).0 calls
      (broadcast_in-IsLogged c b (Dict.get c.channels b.channel_name) refl h)

-- After any sequence of calls of a manager that began with empty files, a manager that is started
-- anew delivers to every agent exactly what the old one does, and knows the same channels. But each
-- of them is open again, a closed one too.
pub reload-run :
    (calls : List Call) (agent name : String) (since : Option ℕ)
    → (receive_messages (reload (run start calls)) agent name since
        ≡ receive_messages (run start calls) agent name since)
      × (Dict.get (reload (run start calls)).channels name
          ≡ reopened (Dict.get (run start calls).channels name))
reload-run calls agent name since =
    reload-IsLogged (run start calls) agent name since (run-IsLogged start calls start-IsLogged)
