-- ===== src/AgentComm/Channel/Closed.antt =====
-- A channel of agent_comm/channel.py that is closed stays closed.
use fusion_code_modelization.Common.{
  ℕ, ◌+◌, String, ◌≡◌, refl, Bool, true, false, Option, none, some, List, [], ◌∷◌, not, ◌==◌,
  eq_iff, Bool-cases, Option-cases, inl, inr, arith,
}
use fusion_code_modelization.Common.Dict
use fusion_code_modelization.Common.Dict.{get-set}
use fusion_code_modelization.AgentComm.Models.{AgentMessage, AgentChannel}
use fusion_code_modelization.AgentComm.Channel.{
  AgentChannelManager, fresh_channel, create_channel, close_channel, may_send, push_message,
  send_message, Broadcast, message_to, broadcast_to, broadcast_in, broadcast,
}
use fusion_code_modelization.AgentComm.Channel.Logged.{Call, create, close, send, announce, run}

abbrev pub is_closed : Option AgentChannel → Bool
is_closed none = false
is_closed (some channel) = not channel.is_active

create_closed :
    (c : AgentChannelManager) (name other : String) (participants : List String) (now : ℕ)
    → is_closed (Dict.get c.channels name) ≡ true
    → is_closed (Dict.get (create_channel c other participants now).0.channels name) ≡ true
unfolding create_channel
create_closed c name other participants now h =
    ground (
      arith,
      get-set c.channels other name (fresh_channel other participants now),
      eq_iff other name,
    )

close_closed :
    (c : AgentChannelManager) (name other : String)
    → is_closed (Dict.get c.channels name) ≡ true
    → is_closed (Dict.get (close_channel c other).0.channels name) ≡ true
unfolding close_channel
close_closed c name other h = elim (Option-cases (Dict.get c.channels other)) [
  | inl unknown ↦ rw (unknown, close_channel) h
  | inr (channel, known) ↦
      rw (known, close_channel)
        (ground (arith, get-set c.channels other name (record channel { is_active = false })))
]

channels-broadcast_to :
    (c : AgentChannelManager) (b : Broadcast) (ps : List String) (sent : ℕ)
    → (broadcast_to c b ps sent).0.channels ≡ c.channels
unfolding broadcast_to push_message
channels-broadcast_to c b [] sent = refl
channels-broadcast_to c b (p ∷ ps) sent = elim (Bool-cases (p == b.sender_id)) [
  | inl own ↦ rw (own, broadcast_to) (channels-broadcast_to c b ps sent)
  | inr other ↦
      rw (other, broadcast_to)
        (channels-broadcast_to (push_message c (message_to b p)) b ps (sent + 1))
]

channels-broadcast :
    (c : AgentChannelManager) (b : Broadcast) (o : Option AgentChannel)
    → (broadcast_in c b o).0.channels ≡ c.channels
channels-broadcast c b none = refl
channels-broadcast c b (some channel) = elim (Bool-cases channel.is_active) [
  | inl open_ ↦ rw open_ (channels-broadcast_to c b channel.participants 0)
  | inr shut ↦ rw shut
]

channels-send :
    (c : AgentChannelManager) (m : AgentMessage) → (send_message c m).0.channels ≡ c.channels
unfolding send_message push_message
channels-send c m = ground arith

run_closed :
    (c : AgentChannelManager) (calls : List Call) (name : String)
    → is_closed (Dict.get c.channels name) ≡ true
    → is_closed (Dict.get (run c calls).channels name) ≡ true
unfolding run broadcast
run_closed c [] name h = h
run_closed c (create other participants now ∷ calls) name h =
    run_closed (create_channel c other participants now).0 calls name
      (create_closed c name other participants now h)
run_closed c (close other ∷ calls) name h =
    run_closed (close_channel c other).0 calls name (close_closed c name other h)
run_closed c (send m ∷ calls) name h =
    run_closed (send_message c m).0 calls name (rw (channels-send c m) h)
run_closed c (announce b ∷ calls) name h =
    run_closed (broadcast c b).0 calls name
      (rw (channels-broadcast c b (Dict.get c.channels b.channel_name)) h)

refused : (o : Option AgentChannel) (m : AgentMessage) → is_closed o ≡ true → may_send o m ≡ false
refused none m h = refl
refused (some channel) m h = ground arith

refused_broadcast :
    (c : AgentChannelManager) (b : Broadcast) (o : Option AgentChannel)
    → is_closed o ≡ true
    → broadcast_in c b o ≡ (c, 0)
refused_broadcast c b none h = refl
refused_broadcast c b (some channel) h = ground arith

-- Once a channel is closed, no sequence of calls opens it: a message to it is refused, a broadcast
-- on it reaches nobody, and neither changes the manager.
pub closed_for_good :
    (c : AgentChannelManager) (calls : List Call) (m : AgentMessage) (b : Broadcast)
    → is_closed (Dict.get c.channels m.channel_name) ≡ true
    → b.channel_name ≡ m.channel_name
    → (send_message (run c calls) m ≡ (run c calls, false))
      × (broadcast (run c calls) b ≡ (run c calls, 0))
unfolding send_message broadcast
closed_for_good c calls m b h e =
    let shut = run_closed c calls m.channel_name h in
    (
      rw (refused (Dict.get (run c calls).channels m.channel_name) m shut),
      refused_broadcast (run c calls) b (Dict.get (run c calls).channels b.channel_name)
          (rw e shut),
    )
