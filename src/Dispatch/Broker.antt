-- ===== src/Dispatch/Broker.antt =====
-- internal/dispatch/broker_local.go and the buffer of broker_cluster_redis.go: a Go channel of
-- messages with a capacity. `Publish` and the Redis consumer drop a message when it is full.
use bs_notify_hub.Prelude.{
  ℕ, ◌++◌, Bool, true, false, Option, none, some, List, [], ◌∷◌, ltb, length, if◌then◌else◌,
}
use bs_notify_hub.Dispatch.Message.{Message}

pub record LocalBroker : Type 0 where
  pub capacity : ℕ
  pub queue : List Message

unfoldable pub new_local_broker : ℕ → LocalBroker
new_local_broker buffer = record { capacity = buffer; queue = [] }

-- Publish: true is a nil error, false is the error that the local queue is full.
unfoldable pub publish : Message → LocalBroker → LocalBroker × Bool
publish msg b =
    if ltb (length b.queue) b.capacity
    then (record b { queue = b.queue ++ msg ∷ [] }, true)
    else (b, false)

-- One receive of the loop of Dispatcher.run.
abbrev take_first : LocalBroker → List Message → Option (Message × LocalBroker)
take_first b [] = none
take_first b (msg ∷ rest) = some (msg, record b { queue = rest })

unfoldable pub receive : LocalBroker → Option (Message × LocalBroker)
receive b = take_first b b.queue
