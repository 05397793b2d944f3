-- ===== src/Hub/Broadcast.antt =====
-- Broadcasts of internal/dispatch/dispatcher.go on the hub of internal/service/hub.go.
use bs_notify_hub.Prelude.{
  ℕ, String, ◌≡◌, ◌≢◌, refl, false, Option, some, [], ◌∷◌, ◌++◌, same_iff, nat_key, arith, length,
  ltb, if◌then◌else◌,
}
use bs_notify_hub.Pool.Channel.{Channel, InternalMsg, channel_capacity, try_send, write}
use bs_notify_hub.Pool.Manager
use bs_notify_hub.Pool.Once.{GoesOn, range_group_once}
use bs_notify_hub.Dispatch.Message.{Message, target_broadcast}
use bs_notify_hub.Dispatch.Dispatcher.{Delivery, deliver, process}
use bs_notify_hub.Hub.{Hub}
use bs_notify_hub.Hub.Safety.{IsLive, IsSafe, deliver-IsSafe}

-- A channel with one message more, unless it is full.
abbrev pub pushed : InternalMsg → Channel → Channel
pushed m ch =
    if ltb (length ch.queue) channel_capacity then record ch { queue = ch.queue ++ m ∷ [] } else ch

module _ (decode : String → Option InternalMsg) where
  -- Nothing crashed so far, and the channel holds this.
  abbrev IsAt : Hub → ℕ → Channel → Delivery → Type 0
  IsAt h k ch d = IsSafe decode h.channels d × (d.channels k ≡ ch)

  deliver-pushed :
      (payload : String) (m : InternalMsg) (h : Hub) (k : ℕ) (ch : Channel) (d : Delivery)
      → decode payload ≡ some m
      → (h.channels k).closed ≡ false
      → IsAt h k ch d
      → GoesOn (IsAt h k (pushed m ch)) (deliver decode payload k d)
  unfolding deliver write try_send
  deliver-pushed payload m h k ch d read open_ (safe, at) = (
    (
      deliver-IsSafe decode payload k h.channels d open_ safe,
      ground (arith, read, open_, safe.0, safe.1 k, at, same_iff k k),
    ),
    ground (arith, safe.0),
  )

  deliver-kept :
      (payload : String) (h : Hub) (j k : ℕ) (ch : Channel) (d : Delivery)
      → j ≢ k
      → (h.channels j).closed ≡ false
      → IsAt h k ch d
      → GoesOn (IsAt h k ch) (deliver decode payload j d)
  unfolding deliver write try_send
  deliver-kept payload h j k ch d ne open_ (safe, at) = (
    (
      deliver-IsSafe decode payload j h.channels d open_ safe,
      ground (arith, safe.0, at, same_iff j k),
    ),
    ground (arith, safe.0),
  )

  -- In a hub whose connections are live, a broadcast with a readable payload is put once into the
  -- channel of each connection of its tenant, behind what waits there; only a full channel is left
  -- as it is.
  pub process-broadcast :
      (h : Hub) (msg : Message) (m : InternalMsg) (u c : String) (k : ℕ)
      → IsLive h
      → msg.target_type ≡ target_broadcast
      → decode msg.payload ≡ some m
      → Manager.conn_at h.manager msg.tenant_id u c ≡ some k
      → (process decode msg h.pool).channels k ≡ pushed m (h.channels k)
  unfolding process
  process-broadcast h msg m u c k v broadcast read at =
      let n = msg.tenant_id in
      rw (broadcast, process)
        (range_group_once (IsAt h k (h.channels k)) (IsAt h k (pushed m (h.channels k))) n u c k
          (λ u' c' j s. deliver decode msg.payload j s) h.manager at
          (λ u' c' j s at' ne q.
            deliver-kept msg.payload h j k (h.channels k) s (other u' c' j at' ne)
              (v.open_ n u' c' j at') q)
          (λ u' c' j s eu ec ej q.
            rw ej (deliver-pushed msg.payload m h k (h.channels k) s read (v.open_ n u c k at) q))
          (λ u' c' j s at' ne q.
            deliver-kept msg.payload h j k (pushed m (h.channels k)) s (other u' c' j at' ne)
              (v.open_ n u' c' j at') q)
          v.neat (record { channels = h.channels; crashed = false }) ((refl, λ j. refl), refl)).1
    where
      other :
          (u' c' : String) (j : ℕ)
          → Manager.conn_at h.manager msg.tenant_id u' c' ≡ some j
          → ((u' ≡ u) × (c' ≡ c) → ⊥)
          → j ≢ k
      other u' c' j at' ne e =
          let (x, y, z) =
            v.once msg.tenant_id u' c' msg.tenant_id u c k (ground (arith, at', e)) at in
          ne (y, z)
