-- ===== src/Pool/Channel.antt =====
-- The connections of the pool: pkg/pool/types.go and its one implementation, HubSSEConnection of
-- internal/service/hub.go. A connection is named by a number (its address); its buffered Go channel
-- is the list of queued messages, oldest first, and whether it is closed.
use bs_notify_hub.Prelude.{
  ℕ, ◌++◌, String, Bool, true, false, Option, none, some, List, [], ◌∷◌, same, nat_key, ltb, length,
  if◌then◌else◌,
}

-- MsgType and InternalMsg of internal/dto/hub.go. The payload of a message is its JSON text.
pub data MsgType : Type 0 where
  notify_msg tenant_unread_msg personal_unread_msg heartbeat : MsgType

pub record InternalMsg : Type 0 where
  pub kind : MsgType
  pub content : String

-- What `Write(data interface{})` may be given: raw JSON, or any other Go type.
pub data WriteData : Type 0 where
  raw_message : String → WriteData
  other_type : WriteData

pub record Channel : Type 0 where
  pub queue : List InternalMsg
  pub closed : Bool

abbrev pub Channels : Type 0
Channels = ℕ → Channel

abbrev pub channel_capacity : ℕ
channel_capacity = 100

-- make(chan *dto.InternalMsg, 100)
abbrev pub new_channel : Channel
new_channel = record { queue = []; closed = false }

abbrev pub set_channel : ℕ → Channel → Channels → Channels
set_channel k ch cs j = if same k j then ch else cs j

-- Close: the channel is closed once, and closing again does nothing.
unfoldable pub close : ℕ → Channels → Channels
close k cs = set_channel k (record (cs k) { closed = true }) cs

-- The results of Write. A send on a closed channel is a panic in Go.
pub data WriteResult : Type 0 where
  written wrong_type bad_json channel_full panics : WriteResult

-- The `select` of Write, over a channel with a default case.
unfoldable pub try_send : ℕ → InternalMsg → Channels → Channels × WriteResult
try_send k msg cs =
    if (cs k).closed
    then (cs, panics)
    else if ltb (length (cs k).queue) channel_capacity
    then (set_channel k (record (cs k) { queue = (cs k).queue ++ msg ∷ [] }) cs, written)
    else (cs, channel_full)

module _ (decode : String → Option InternalMsg) where
  -- sonic.Unmarshal is the parameter `decode`
  unfoldable pub write : ℕ → WriteData → Channels → Channels × WriteResult
  unfolding try_send
  write k other_type cs = (cs, wrong_type)
  write k (raw_message payload) cs = elim (decode payload) [
    | none ↦ (cs, bad_json)
    | some msg ↦ try_send k msg cs
  ]
