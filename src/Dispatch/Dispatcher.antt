-- ===== src/Dispatch/Dispatcher.antt =====
-- internal/dispatch/dispatcher.go: Join, Leave and process.
use bs_notify_hub.Prelude.{ℕ, String, Bool, true, false, Option, none, some, List, [], ◌∷◌}
use bs_notify_hub.Pool.Channel.{Channels, InternalMsg, WriteResult, panics, raw_message, write}
use bs_notify_hub.Pool.Manager
use bs_notify_hub.Pool.Manager.{Pool}
use bs_notify_hub.Dispatch.Message.{
  Message, TargetType, target_single, target_multiple, target_broadcast,
}

unfoldable pub join : String → String → String → ℕ → Pool → Pool
join group user conn_id conn w = Manager.register group user conn_id conn w

unfoldable pub leave : String → String → String → Option ℕ → Pool → Pool
leave group user conn_id conn w = Manager.unregister group user conn_id conn w

-- The channels, and whether a write panicked, which stops the process.
pub record Delivery : Type 0 where
  pub channels : Channels
  pub crashed : Bool

abbrev is_panic : WriteResult → Bool
is_panic panics = true
is_panic _ = false

module _ (decode : String → Option InternalMsg) where
  -- The callback of process: the error of Write is ignored, and the walk goes on.
  unfoldable pub deliver : String → ℕ → Delivery → Delivery × Bool
  deliver payload conn d = elim d.crashed [
    | true ↦ (d, false)
    | false ↦
        let (cs, r) = write decode conn (raw_message payload) d.channels in
        (record { channels = cs; crashed = is_panic r }, true)
  ]

  -- the loop over `msg.TargetIDs`
  unfoldable pub process_users :
      Manager.Manager → String → String → List String → Delivery → Delivery
  unfolding deliver
  process_users m tenant payload [] d = d
  process_users m tenant payload (user ∷ rest) d =
      process_users m tenant payload rest
        (Manager.range_user tenant user (λ conn_id conn s. deliver payload conn s) m d)

  abbrev pub process_by : TargetType → Manager.Manager → Message → Delivery → Delivery
  process_by target_single m msg d = process_users m msg.tenant_id msg.payload msg.target_ids d
  process_by target_multiple m msg d = process_users m msg.tenant_id msg.payload msg.target_ids d
  process_by target_broadcast m msg d =
      Manager.range_group msg.tenant_id (λ user conn_id conn s. deliver msg.payload conn s) m d

  unfoldable pub process : Message → Pool → Delivery
  unfolding process_users
  process msg w =
      process_by msg.target_type w.manager msg (record { channels = w.channels; crashed = false })

-- The dispatcher's view of its pool, which may be nil.
unfoldable pub connection_count : Option Manager.Manager → ℕ
connection_count none = 0
connection_count (some m) = Manager.count m

unfoldable pub online_group_count : Option Manager.Manager → ℕ
online_group_count none = 0
online_group_count (some m) = Manager.group_count m

unfoldable pub online_user_count : Option Manager.Manager → ℕ
online_user_count none = 0
online_user_count (some m) = Manager.user_count m

-- GroupStats
unfoldable pub online_group_stats : Option Manager.Manager → List (String × Manager.GroupStat)
online_group_stats none = []
online_group_stats (some m) = Manager.group_stats m

-- GetOnlineUserIDs
unfoldable pub online_user_ids : String → Option Manager.Manager → List String
online_user_ids tenant none = []
online_user_ids tenant (some m) = Manager.get_online_user_ids tenant m
