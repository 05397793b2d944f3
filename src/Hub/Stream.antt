-- ===== src/Hub/Stream.antt =====
-- The loop of Subscribe in internal/service/hub.go, on the channel of its connection, together with
-- the writers to that channel. sonic, and whether a write to the HTTP response fails, are parameters.
pub mod Order
pub mod Tests
use bs_notify_hub.Prelude.{
  ℕ, String, Bool, true, false, Option, none, some, List, [], ◌∷◌, ◌++◌, length, if◌then◌else◌,
}
use bs_notify_hub.Pool.Channel.{
  Channel, Channels, InternalMsg, MsgType, WriteResult, written, raw_message, set_channel, write,
  close,
}

-- What is written to the response: the type and the data of a message, or a heartbeat at a time in
-- seconds. Each is written under the connection's id.
pub data SseEvent : Type 0 where
  message_event : MsgType → String → SseEvent
  heartbeat_event : ℕ → SseEvent

-- What may happen next: someone writes to the channel or closes it, or the `select` of the loop
-- takes one of its three cases.
pub data Signal : Type 0 where
  writes : String → Signal
  closes : Signal
  context_done : Signal
  receives : Signal
  ticks : ℕ → Signal

-- `ended` once the loop has returned.
pub record Stream : Type 0 where
  pub channels : Channels
  pub out : List SseEvent
  pub ended : Bool

module _ (decode : String → Option InternalMsg) (marshal : String → Option String)
    (write_fails : ℕ → Bool) (conn : ℕ) where
  -- WriteEvent: the loop returns when it fails.
  unfoldable pub write_event : SseEvent → Stream → Stream
  write_event e s =
      if write_fails (length s.out)
      then record s { ended = true }
      else record s { out = s.out ++ e ∷ [] }

  abbrev pub write_data : MsgType → Option String → Stream → Stream
  write_data kind none s = s
  write_data kind (some text) s = write_event (message_event kind text) s

  -- `msg, ok := <-conn.MessageChan`: on an empty open channel this case is not ready.
  abbrev pub receive : List InternalMsg → Bool → Stream → Stream
  receive [] true s = record s { ended = true }
  receive [] false s = s
  receive (msg ∷ rest) closed s = write_data msg.kind (marshal msg.content) (record s {
    channels = set_channel conn (record (s.channels conn) { queue = rest }) s.channels;
  })

  abbrev pub select : Signal → Stream → Stream
  select (writes payload) s = s
  select closes s = s
  select context_done s = record s { ended = true }
  select receives s = receive (s.channels conn).queue (s.channels conn).closed s
  select (ticks t) s = write_event (heartbeat_event t) s

  unfoldable pub step : Signal → Stream → Stream
  unfolding write_event write close
  step (writes payload) s = record s {
    channels = (write decode conn (raw_message payload) s.channels).0;
  }
  step closes s = record s { channels = close conn s.channels }
  step signal s = if s.ended then s else select signal s

  unfoldable pub run : List Signal → Stream → Stream
  unfolding step
  run [] s = s
  run (e ∷ es) s = run es (step e s)
