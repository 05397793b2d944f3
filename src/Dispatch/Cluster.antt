-- ===== src/Dispatch/Cluster.antt =====
-- internal/dispatch/broker_cluster_redis.go, and the choice of a broker in internal/app/initialize.go.
-- The JSON library and Redis Pub/Sub are outside: the subscription delivers payloads, or ends.
use bs_notify_hub.Prelude.{
  ℕ, zero, suc, ◌++◌, ◌≡◌, refl, ap, sym, ◌∙◌, take, ltb, append-nil, Bool-cases, inl, inr, String,
  Bool, true, false, Option, none, some, List, [], ◌∷◌, same, string_key, length, length-append,
  ◌≤◌, if◌then◌else◌, arith,
}
use bs_notify_hub.Dispatch.Message.{Message}
use bs_notify_hub.Dispatch.Broker
use bs_notify_hub.Dispatch.Broker.{LocalBroker, new_local_broker}

-- The buffered channel outChan.
unfoldable pub new_redis_broker : LocalBroker
unfolding new_local_broker
new_redis_broker = new_local_broker 1000

-- What the loop of consumeOnce meets: a payload, the end of the subscription, or the broker's Close.
pub data Delivered : Type 0 where
  payload : String → Delivered
  subscription_ended broker_closed : Delivered

module _ (encode : Message → Option String) (decode : String → Option Message) where
  -- Publish: the payload that Redis is given, or `none` for an error of json.Marshal. What Redis
  -- answers does not change the queue.
  unfoldable pub publish : Message → Option String
  publish msg = encode msg

  abbrev pub enqueue : Option Message → LocalBroker → LocalBroker
  enqueue none b = b
  enqueue (some msg) b = (Broker.publish msg b).0

  -- One payload in consumeOnce: it is dropped if it cannot be read, or if outChan is full.
  unfoldable pub consume : String → LocalBroker → LocalBroker
  unfolding Broker.publish
  consume text b = enqueue (decode text) b

  -- consumeLoop: a subscription that ended is taken up again.
  unfoldable pub consume_loop : List Delivered → LocalBroker → LocalBroker
  unfolding consume
  consume_loop [] b = b
  consume_loop (payload text ∷ es) b = consume_loop es (consume text b)
  consume_loop (subscription_ended ∷ es) b = consume_loop es b
  consume_loop (broker_closed ∷ es) b = b

  abbrev pub add_payload : Option String → List Delivered → List Delivered
  add_payload none es = es
  add_payload (some text) es = payload text ∷ es

  -- What a lossless Redis delivers of the messages that are published one after another.
  abbrev pub delivered : List Message → List Delivered
  delivered [] = []
  delivered (msg ∷ msgs) = add_payload (publish msg) (delivered msgs)

-- The same messages, published one after another to a local broker.
abbrev pub publish_all : List Message → LocalBroker → LocalBroker
publish_all [] b = b
publish_all (msg ∷ msgs) b = publish_all msgs (Broker.publish msg b).0

-- The mode of the configuration chooses the broker; both have a queue of 1000.
unfoldable pub init_broker : String → Bool × LocalBroker
unfolding new_redis_broker
init_broker mode =
    if same mode "cluster" then (true, new_redis_broker) else (false, new_local_broker 1000)

abbrev pub queued : List Message → LocalBroker → LocalBroker
queued ms b = record b { queue = ms }

take_prefix : (q ms : List Message) → take (length q) (q ++ ms) ≡ q
take_prefix [] [] = refl
take_prefix [] (m ∷ ms) = refl
take_prefix (x ∷ q) ms = ap (λ t. x ∷ t) (take_prefix q ms)

take_within : (n : ℕ) (q : List Message) → length q ≤ n → take n q ≡ q
take_within zero [] h = refl
take_within zero (x ∷ q) h = ground (arith, h)
take_within (suc n) [] h = refl
take_within (suc n) (x ∷ q) h = ap (λ t. x ∷ t) (take_within n q (omega (arith, h)))

append_one :
    (q : List Message) (m : Message) (ms : List Message) → (q ++ m ∷ []) ++ ms ≡ q ++ m ∷ ms
append_one [] m ms = refl
append_one (x ∷ q) m ms = ap (λ t. x ∷ t) (append_one q m ms)

publish_all-first :
    (msgs : List Message) (b : LocalBroker)
    → length b.queue ≤ b.capacity
    → publish_all msgs b ≡ queued (take b.capacity (b.queue ++ msgs)) b
unfolding Broker.publish
publish_all-first [] b h =
    ap (λ q. queued q b)
      (sym (ap (take b.capacity) (append-nil b.queue) ∙ take_within b.capacity b.queue h))
publish_all-first (m ∷ ms) b h = elim (Bool-cases (ltb (length b.queue) b.capacity)) [
  | inl room ↦
      rw (room, publish_all)
        (publish_all-first ms (queued (b.queue ++ m ∷ []) b)
            (ground (arith, room, length-append b.queue (m ∷ [])))
          ∙ ap (λ q. queued (take b.capacity q) b) (append_one b.queue m ms))
  | inr full ↦
      let at : b.capacity ≡ length b.queue = ground (arith, full, h) in
      rw (full, publish_all)
        (publish_all-first ms b h
          ∙ ap (λ q. queued q b)
              (ap (λ n. take n (b.queue ++ ms)) at
                ∙ take_prefix b.queue ms
                ∙ sym (ap (λ n. take n (b.queue ++ m ∷ ms)) at ∙ take_prefix b.queue (m ∷ ms))))
]

module _ (encode : Message → Option String) (decode : String → Option Message) where
  -- json.Marshal takes each of the messages, and json.Unmarshal reads what it wrote.
  abbrev pub IsLossless : List Message → Type 0
  IsLossless [] = Unit
  IsLossless (msg ∷ msgs) =
      ((text : String) × (encode msg ≡ some text) × (decode text ≡ some msg)) × IsLossless msgs

  consume_loop-delivered :
      (msgs : List Message) (b : LocalBroker)
      → IsLossless msgs
      → consume_loop encode decode (delivered encode decode msgs) b ≡ publish_all msgs b
  unfolding consume_loop publish
  consume_loop-delivered [] b h = refl
  consume_loop-delivered (msg ∷ msgs) b ((text, e, d), h) =
      let later = delivered encode decode msgs in
      ap (λ o. consume_loop encode decode (add_payload encode decode o later) b) e
      ∙ ap (λ o. consume_loop encode decode later (enqueue encode decode o b)) d
      ∙ consume_loop-delivered msgs (Broker.publish msg b).0 h

  -- In cluster mode, of the messages that are published while the dispatcher takes none and that
  -- Redis delivers, a hub queues the first 1000, in their order and unchanged, and loses the others.
  pub consume_loop-first :
      (msgs : List Message)
      → IsLossless msgs
      → consume_loop encode decode (delivered encode decode msgs) new_redis_broker
        ≡ queued (take 1000 msgs) new_redis_broker
  unfolding new_redis_broker
  consume_loop-first msgs h =
      consume_loop-delivered msgs new_redis_broker h
      ∙ publish_all-first msgs new_redis_broker (omega arith)
