-- ===== src/AgentComm/Channel.antt =====
-- `AgentChannelManager` of fusion_code_modelization/agent_comm/channel.py. `channel_log` and
-- `message_log` are the lines of channels.jsonl and messages.jsonl. Ids and times of new objects
-- are arguments.
pub mod Delivery
pub mod Reload
pub mod Logged
pub mod Closed
use fusion_code_modelization.Common.{
  ℕ, suc, ◌+◌, String, Bool, true, false, Option, none, some, List, [], ◌∷◌, ◌++◌, filter, foldl,
  contains, ltb, not, ◌==◌, ◌&&◌, ◌||◌, if◌then◌else◌,
}
use fusion_code_modelization.Common.Dict
use fusion_code_modelization.Common.Dict.{Dict}
use fusion_code_modelization.AgentComm.Models.{MessageType, Payload, AgentMessage, AgentChannel}

pub record AgentChannelManager : Type 0 where
  pub channels : Dict AgentChannel
  pub message_queue : Dict (List AgentMessage)
  pub channel_log : List AgentChannel
  pub message_log : List AgentMessage

-- `self._message_queue.get(name, [])`
abbrev pub or_empty : Option (List AgentMessage) → List AgentMessage
or_empty none = []
or_empty (some q) = q

unfoldable pub queue_of : Dict (List AgentMessage) → String → List AgentMessage
queue_of queues name = or_empty (Dict.get queues name)

-- `self._message_queue.setdefault(name, []).append(message)`
unfoldable pub enqueue : Dict (List AgentMessage) → AgentMessage → Dict (List AgentMessage)
enqueue queues m = Dict.set queues m.channel_name (queue_of queues m.channel_name ++ m ∷ [])

abbrev pub fresh_channel : String → List String → ℕ → AgentChannel
fresh_channel name participants now = record {
  name = name;
  participants = participants;
  created_at = now;
  is_active = true;
}

abbrev pub add_channel : AgentChannelManager → AgentChannel → AgentChannelManager
add_channel c channel = record c {
  channels = Dict.set c.channels channel.name channel;
  message_queue = Dict.set c.message_queue channel.name [];
  channel_log = c.channel_log ++ channel ∷ [];
}

unfoldable pub create_channel :
    AgentChannelManager → String → List String → ℕ → AgentChannelManager × AgentChannel
create_channel c name participants now = elim (Dict.get c.channels name) [
  | some channel ↦ (c, channel)
  | none ↦
      (add_channel c (fresh_channel name participants now), fresh_channel name participants now)
]

unfoldable pub close_channel : AgentChannelManager → String → AgentChannelManager × Bool
close_channel c name = elim (Dict.get c.channels name) [
  | none ↦ (c, false)
  | some channel ↦ (
    record c { channels = Dict.set c.channels name (record channel { is_active = false }) },
    true,
  )
]

-- Whether the message may be sent, as the two guards of `send_message` say.
abbrev pub may_send : Option AgentChannel → AgentMessage → Bool
may_send none m = false
may_send (some channel) m = channel.is_active && contains channel.participants m.sender_id

-- What follows the guards: the queue, and a line of the file.
unfoldable pub push_message : AgentChannelManager → AgentMessage → AgentChannelManager
push_message c m = record c {
  message_queue = enqueue c.message_queue m;
  message_log = c.message_log ++ m ∷ [];
}

unfoldable pub send_message : AgentChannelManager → AgentMessage → AgentChannelManager × Bool
send_message c m =
    if may_send (Dict.get c.channels m.channel_name) m then (push_message c m, true) else (c, false)

abbrev pub is_for : String → AgentMessage → Bool
is_for agent m = (m.recipient_id == agent) || (m.recipient_id == "*")

abbrev pub since_filter : Option ℕ → List AgentMessage → List AgentMessage
since_filter none ms = ms
since_filter (some t) ms = filter (λ m. ltb t m.timestamp) ms

unfoldable pub receive_messages :
    AgentChannelManager → String → String → Option ℕ → List AgentMessage
receive_messages c agent name since =
    since_filter since (filter (is_for agent) (queue_of c.message_queue name))

-- What a broadcast says, apart from the recipient; `stamp` gives the id and the time of the message
-- to a recipient.
pub record Broadcast : Type 0 where
  pub sender_id : String
  pub channel_name : String
  pub message_type : MessageType
  pub payload : Payload
  pub stamp : String → String × ℕ

abbrev pub message_to : Broadcast → String → AgentMessage
message_to b participant = record {
  message_id = (b.stamp participant).0;
  sender_id = b.sender_id;
  recipient_id = participant;
  channel_name = b.channel_name;
  message_type = b.message_type;
  payload = b.payload;
  timestamp = (b.stamp participant).1;
}

-- The loop over the participants, with the count `sent`.
unfoldable pub broadcast_to :
    AgentChannelManager → Broadcast → List String → ℕ → AgentChannelManager × ℕ
broadcast_to c b [] sent = (c, sent)
broadcast_to c b (p ∷ ps) sent =
    broadcast_to (if p == b.sender_id then c else push_message c (message_to b p)) b ps
      (if p == b.sender_id then sent else sent + 1)

abbrev pub broadcast_in :
    AgentChannelManager → Broadcast → Option AgentChannel → AgentChannelManager × ℕ
broadcast_in c b none = (c, 0)
broadcast_in c b (some channel) =
    if channel.is_active then broadcast_to c b channel.participants 0 else (c, 0)

unfoldable pub broadcast : AgentChannelManager → Broadcast → AgentChannelManager × ℕ
broadcast c b = broadcast_in c b (Dict.get c.channels b.channel_name)

-- `_load` of a new manager over the files that `c` has written.
unfoldable pub load_channel : AgentChannelManager → AgentChannel → AgentChannelManager
load_channel c channel = record c {
  channels = Dict.set c.channels channel.name channel;
  message_queue = Dict.set_default c.message_queue channel.name [];
}

unfoldable pub load_message : AgentChannelManager → AgentMessage → AgentChannelManager
load_message c m = record c { message_queue = enqueue c.message_queue m }

abbrev pub unloaded : AgentChannelManager → AgentChannelManager
unloaded c = record c { channels = []; message_queue = [] }

unfoldable pub reload : AgentChannelManager → AgentChannelManager
reload c = foldl load_message (foldl load_channel (unloaded c) c.channel_log) c.message_log
