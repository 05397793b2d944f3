-- ===== src/Dispatch/Isolation.antt =====
-- Messages of internal/dispatch/dispatcher.go and the tenants of pkg/pool.

use bs_notify_hub.Prelude.{
  ℕ, String, ◌≡◌, ◌≢◌, refl, false, Option, some, List, [], ◌∷◌, nat_key, same_iff, arith,
}
use bs_notify_hub.Pool.Channel.{Channel, InternalMsg, write, try_send}
use bs_notify_hub.Pool.Manager
use bs_notify_hub.Pool.Manager.{Pool}
use bs_notify_hub.Pool.Neat.{IsNeat}
use bs_notify_hub.Pool.Range.{range_user_inv, range_group_inv}
use bs_notify_hub.Dispatch.Message.{Message, TargetType, target_broadcast}
use bs_notify_hub.Dispatch.Dispatcher
use bs_notify_hub.Dispatch.Dispatcher.{Delivery, deliver, process, process_users}

module _ (decode : String → Option InternalMsg) where
  deliver-other :
      (payload : String) (j k : ℕ) (d : Delivery)
      → j ≢ k
      → (deliver decode payload j d).0.channels k ≡ d.channels k
  unfolding deliver write try_send
  deliver-other payload j k d h = ground (arith, same_iff j k)

  process_users-other :
      (w : Pool) (tenant payload : String) (k : ℕ) (users : List String) (ch : Channel)
      (d : Delivery)
      → IsNeat w.manager
      → ((u c : String) → Manager.conn_at w.manager tenant u c ≢ some k)
      → d.channels k ≡ ch
      → (process_users decode w.manager tenant payload users d).channels k ≡ ch
  unfolding process_users
  process_users-other w tenant payload k [] ch d v h e = e
  process_users-other w tenant payload k (u ∷ us) ch d v h e =
      process_users-other w tenant payload k us ch _ v h (
        range_user_inv (λ (s : Delivery). s.channels k ≡ ch) tenant u
          (λ c j s. deliver decode payload j s) w.manager
          (λ c j s at q. ground (arith, deliver-other payload j k s, h u c)) v d e)

  -- A channel that belongs to no connection of the message's tenant is left as it is, whatever the
  -- message is.
  pub process-isolated :
      (msg : Message) (w : Pool) (k : ℕ)
      → IsNeat w.manager
      → ((u c : String) → Manager.conn_at w.manager msg.tenant_id u c ≢ some k)
      → (process decode msg w).channels k ≡ w.channels k
  unfolding process
  process-isolated msg w k v h = by_target msg.target_type
    where
      start : Delivery
      start = record { channels = w.channels; crashed = false }

      by_target :
          (t : TargetType)
          → (Dispatcher.process_by decode t w.manager msg start).channels k ≡ w.channels k
      by_target target_broadcast =
          range_group_inv (λ (s : Delivery). s.channels k ≡ w.channels k) msg.tenant_id
            (λ u c j s. deliver decode msg.payload j s) w.manager
            (λ u c j s at q. ground (arith, deliver-other msg.payload j k s, h u c)) v start refl
      by_target _ =
          process_users-other w msg.tenant_id msg.payload k msg.target_ids _ start v h refl
