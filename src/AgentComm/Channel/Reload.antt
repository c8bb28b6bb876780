-- ===== src/AgentComm/Channel/Reload.antt =====
-- What agent_comm/channel.py finds in its files when it is started anew: every queue as it was, and
-- every channel, but open.
use mathlib.Core.List.{append-nil, append_assoc}
use fusion_code_modelization.Common.{
  ℕ, String, ◌≡◌, refl, sym, ap, ◌∙◌, true, Option, none, some, List, [], ◌∷◌, ◌++◌, filter,
  filter-append, foldl, ◌==◌, eq_iff, arith, if◌then◌else◌,
}
use fusion_code_modelization.Common.Dict
use fusion_code_modelization.Common.Dict.{Dict, get-set, get-set_default}
use fusion_code_modelization.AgentComm.Models.{AgentMessage, AgentChannel}
use fusion_code_modelization.AgentComm.Channel.{
  AgentChannelManager, queue_of, receive_messages, load_channel, load_message, unloaded, reload,
  is_for, since_filter,
}
use fusion_code_modelization.AgentComm.Channel.Delivery.{in_channel, queue_of-enqueue}

-- The last channel of the file with a name.
abbrev pub last_named : List AgentChannel → String → Option AgentChannel
last_named [] name = none
last_named (ch ∷ chs) name = elim (last_named chs name) [
  | none ↦ if ch.name == name then some ch else none
  | some later ↦ some later
]

-- A channel as it was created.
abbrev pub reopened : Option AgentChannel → Option AgentChannel
reopened none = none
reopened (some ch) = some (record ch { is_active = true })

-- What the files hold of the manager's state.
pub record IsLogged (c : AgentChannelManager) : Type 0 where
  pub queues :
      (name : String) → queue_of c.message_queue name ≡ filter (in_channel name) c.message_log
  pub channels :
      (name : String) → reopened (Dict.get c.channels name) ≡ last_named c.channel_log name
  pub silent :
      (name : String)
      → Dict.get c.channels name ≡ none
      → filter (in_channel name) c.message_log ≡ []

pub last_named-append :
    (chs : List AgentChannel) (ch : AgentChannel) (name : String)
    → last_named (chs ++ ch ∷ []) name ≡ (if ch.name == name then some ch else last_named chs name)
last_named-append [] ch name = refl
last_named-append (first ∷ chs) ch name = ground (arith, last_named-append chs ch name)

load_channels-get :
    (chs : List AgentChannel) (c : AgentChannelManager) (name : String)
    → Dict.get (foldl load_channel c chs).channels name
      ≡ elim (last_named chs name) [ none ↦ Dict.get c.channels name | some ch ↦ some ch ]
unfolding load_channel
load_channels-get [] c name = refl
load_channels-get (ch ∷ chs) c name =
    load_channels-get chs (load_channel c ch) name
    ∙ ground (arith, get-set c.channels ch.name name ch)

load_channels-queue :
    (chs : List AgentChannel) (c : AgentChannelManager) (name : String)
    → queue_of (foldl load_channel c chs).message_queue name ≡ queue_of c.message_queue name
unfolding load_channel queue_of
load_channels-queue [] c name = refl
load_channels-queue (ch ∷ chs) c name =
    load_channels-queue chs (load_channel c ch) name
    ∙ ground (arith, get-set_default c.message_queue ch.name name [], eq_iff ch.name name)

load_messages-queue :
    (ms : List AgentMessage) (c : AgentChannelManager) (name : String)
    → queue_of (foldl load_message c ms).message_queue name
      ≡ queue_of c.message_queue name ++ filter (in_channel name) ms
unfolding load_message
load_messages-queue [] c name = sym (append-nil _)
load_messages-queue (m ∷ ms) c name =
    load_messages-queue ms (load_message c m) name
    ∙ ap (λ l. l ++ filter (in_channel name) ms) (queue_of-enqueue c.message_queue m name)
    ∙ append_assoc (queue_of c.message_queue name) (filter (in_channel name) (m ∷ []))
        (filter (in_channel name) ms)
    ∙ ap (λ l. queue_of c.message_queue name ++ l)
        (sym (filter-append (in_channel name) (m ∷ []) ms))

load_messages-channels :
    (ms : List AgentMessage) (c : AgentChannelManager)
    → (foldl load_message c ms).channels ≡ c.channels
unfolding load_message
load_messages-channels [] c = refl
load_messages-channels (m ∷ ms) c = load_messages-channels ms (load_message c m)

pub no_queue : (name : String) → queue_of [] name ≡ []
unfolding queue_of Dict.get
no_queue name = refl

found_again :
    (o : Option AgentChannel) (name : String)
    → elim o [ none ↦ Dict.get {V = AgentChannel} [] name | some ch ↦ some ch ] ≡ o
unfolding Dict.get
found_again none name = refl
found_again (some ch) name = refl

-- A restarted manager delivers to every agent exactly what the old one did, and knows the same
-- channels; but every channel is open again, a closed one too.
pub reload-IsLogged :
    (c : AgentChannelManager) (agent name : String) (since : Option ℕ)
    → IsLogged c
    → (receive_messages (reload c) agent name since ≡ receive_messages c agent name since)
      × (Dict.get (reload c).channels name ≡ reopened (Dict.get c.channels name))
unfolding reload receive_messages
reload-IsLogged c agent name since h =
    let loaded = foldl load_channel (unloaded c) c.channel_log in
    let same : queue_of (reload c).message_queue name ≡ queue_of c.message_queue name =
      load_messages-queue c.message_log loaded name
      ∙ ap (λ l. l ++ filter (in_channel name) c.message_log)
          (load_channels-queue c.channel_log (unloaded c) name ∙ no_queue name)
      ∙ sym (h.queues name) in
    (
      ap (λ q. since_filter since (filter (is_for agent) q)) same,
      ap (λ m. Dict.get m name) (load_messages-channels c.message_log loaded)
          ∙ load_channels-get c.channel_log (unloaded c) name
          ∙ found_again (last_named c.channel_log name) name
          ∙ sym (h.channels name),
    )
