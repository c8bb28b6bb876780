-- ===== src/AgentComm/Channel/Delivery.antt =====
-- What a message that is sent or broadcast by agent_comm/channel.py adds to what the agents receive.
use mathlib.Core.List.{append-nil, append_assoc}
use fusion_code_modelization.Common.{
  ℕ, ◌+◌, String, ◌≡◌, refl, sym, ap, ◌∙◌, Bool, Option, none, some, List, [], ◌∷◌, ◌++◌, map,
  filter, filter-append, foldl, length, not, ◌==◌, eq_iff, Bool-cases, inl, inr, arith,
  if◌then◌else◌,
}
use fusion_code_modelization.Common.Dict
use fusion_code_modelization.Common.Dict.{Dict, get-set}
use fusion_code_modelization.AgentComm.Models.{AgentMessage, AgentChannel}
use fusion_code_modelization.AgentComm.Channel.{
  AgentChannelManager, or_empty, queue_of, enqueue, may_send, push_message, send_message, is_for,
  receive_messages, Broadcast, message_to, broadcast_to, broadcast_in, broadcast,
}

-- `name` is the channel of the message.
abbrev pub in_channel : String → AgentMessage → Bool
in_channel name m = m.channel_name == name

pub queue_of-enqueue :
    (queues : Dict (List AgentMessage)) (m : AgentMessage) (name : String)
    → queue_of (enqueue queues m) name ≡ queue_of queues name ++ filter (in_channel name) (m ∷ [])
unfolding queue_of enqueue
queue_of-enqueue queues m name =
    let q = queue_of queues m.channel_name ++ m ∷ [] in
    ground (
      arith,
      get-set queues m.channel_name name q,
      eq_iff m.channel_name name,
      append-nil (or_empty (Dict.get queues name)),
    )

pub receive-push :
    (c : AgentChannelManager) (m : AgentMessage) (agent name : String)
    → receive_messages (push_message c m) agent name none
      ≡ receive_messages c agent name none
        ++ filter (is_for agent) (filter (in_channel name) (m ∷ []))
unfolding receive_messages push_message
receive-push c m agent name =
    rw (queue_of-enqueue c.message_queue m name) (filter-append (is_for agent) _ _)

-- A message that is accepted is received once more by the agents that it is for, on its channel,
-- and by nobody else; a message that is refused changes nothing.
pub receive-send :
    (c : AgentChannelManager) (m : AgentMessage) (agent name : String)
    → receive_messages (send_message c m).0 agent name none
      ≡ receive_messages c agent name none
        ++ (if (send_message c m).1
            then filter (is_for agent) (filter (in_channel name) (m ∷ []))
            else [])
unfolding send_message
receive-send c m agent name = elim (Bool-cases (may_send (Dict.get c.channels m.channel_name) m)) [
  | inl y ↦ rw y (receive-push c m agent name)
  | inr n ↦ rw n (sym (append-nil _))
]

-- The messages of a broadcast to a list of participants.
abbrev pub messages_to : Broadcast → List String → List AgentMessage
messages_to b ps = map (message_to b) (filter (λ p. not (p == b.sender_id)) ps)

broadcast_to-foldl :
    (c : AgentChannelManager) (b : Broadcast) (ps : List String) (sent : ℕ)
    → broadcast_to c b ps sent
      ≡ (foldl push_message c (messages_to b ps), sent + length (messages_to b ps))
unfolding broadcast_to
broadcast_to-foldl c b [] sent = ap (λ n. (c, n)) (omega arith)
broadcast_to-foldl c b (p ∷ ps) sent = elim (Bool-cases (p == b.sender_id)) [
  | inl own ↦ rw own (broadcast_to-foldl c b ps sent)
  | inr other ↦ rw other (
      broadcast_to-foldl (push_message c (message_to b p)) b ps (sent + 1)
      ∙ ap (λ n. (foldl push_message (push_message c (message_to b p)) (messages_to b ps), n))
          (omega arith))
]

-- Of a list of messages, those that `agent` receives on the channel `name`.
abbrev pub received : String → String → List AgentMessage → List AgentMessage
received agent name ms = filter (is_for agent) (filter (in_channel name) ms)

received-cons :
    (agent name : String) (m : AgentMessage) (ms : List AgentMessage)
    → received agent name (m ∷ []) ++ received agent name ms ≡ received agent name (m ∷ ms)
received-cons agent name m ms =
    sym (
      filter-append (is_for agent) (filter (in_channel name) (m ∷ []))
        (filter (in_channel name) ms))
    ∙ ap (filter (is_for agent)) (sym (filter-append (in_channel name) (m ∷ []) ms))

receive-foldl :
    (c : AgentChannelManager) (ms : List AgentMessage) (agent name : String)
    → receive_messages (foldl push_message c ms) agent name none
      ≡ receive_messages c agent name none ++ received agent name ms
receive-foldl c [] agent name = sym (append-nil _)
receive-foldl c (m ∷ ms) agent name =
    receive-foldl (push_message c m) ms agent name
    ∙ ap (λ l. l ++ received agent name ms) (receive-push c m agent name)
    ∙ append_assoc (receive_messages c agent name none) (received agent name (m ∷ []))
        (received agent name ms)
    ∙ ap (λ l. receive_messages c agent name none ++ l) (received-cons agent name m ms)

-- The messages of a broadcast: none on a closed or an unknown channel.
abbrev pub broadcast_messages : Broadcast → Option AgentChannel → List AgentMessage
broadcast_messages b none = []
broadcast_messages b (some channel) =
    if channel.is_active then messages_to b channel.participants else []

broadcast_in-foldl :
    (c : AgentChannelManager) (b : Broadcast) (o : Option AgentChannel)
    → broadcast_in c b o
      ≡ (foldl push_message c (broadcast_messages b o), length (broadcast_messages b o))
broadcast_in-foldl c b none = refl
broadcast_in-foldl c b (some channel) = elim (Bool-cases channel.is_active) [
  | inl open_ ↦ rw open_ (
      broadcast_to-foldl c b channel.participants 0
      ∙ ap (λ n. (foldl push_message c (messages_to b channel.participants), n)) (omega arith))
  | inr closed ↦ rw closed
]

pub broadcast-foldl :
    (c : AgentChannelManager) (b : Broadcast)
    → broadcast c b ≡ (
      foldl push_message c (broadcast_messages b (Dict.get c.channels b.channel_name)),
      length (broadcast_messages b (Dict.get c.channels b.channel_name)),
    )
unfolding broadcast
broadcast-foldl c b = broadcast_in-foldl c b (Dict.get c.channels b.channel_name)

-- The messages of a broadcast on an open channel, one to each participant but the sender, are
-- received by those agents on that channel after what they received before, and the result counts
-- them; on a closed or an unknown channel there are none.
pub receive-broadcast :
    (c : AgentChannelManager) (b : Broadcast) (agent name : String)
    → ((broadcast c b).1 ≡ length (broadcast_messages b (Dict.get c.channels b.channel_name)))
      × (receive_messages (broadcast c b).0 agent name none
          ≡ receive_messages c agent name none
            ++ received agent name (broadcast_messages b (Dict.get c.channels b.channel_name)))
receive-broadcast c b agent name =
    let whole = broadcast-foldl c b in
    let ms = broadcast_messages b (Dict.get c.channels b.channel_name) in
    (
      ap (λ r. r.1) whole,
      ap (λ r. receive_messages r.0 agent name none) whole ∙ receive-foldl c ms agent name,
    )
