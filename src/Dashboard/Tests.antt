-- ===== src/Dashboard/Tests.antt =====
-- The dashboard of internal/service/internal.go on a pool with one user.
use bs_notify_hub.Prelude.{◌≡◌, refl, none, some, ◌∷◌, [], String-discrete, ◌==◌, if◌then◌else◌}
use bs_notify_hub.Dashboard.{count_distinct, online_stats}
use bs_notify_hub.Dispatch.Tests.{one_user}

distinct_users : count_distinct ("a" ∷ "b" ∷ "a" ∷ []) ≡ 2
unfolding count_distinct String-discrete
distinct_users = refl

-- A user leaves while the figures are read: no tenant is online, and one connection is counted.
uneven : (online_stats (some (λ i. if i == 2 then some one_user.manager else none))).2 ≡ 1
unfolding online_stats bs_notify_hub.Pool.Manager.count bs_notify_hub.Pool.Manager.register
    bs_notify_hub.Prelude.Map.get bs_notify_hub.Pool.Manager.new_manager
    bs_notify_hub.Prelude.Map.put bs_notify_hub.Prelude.ℕ_discrete bs_notify_hub.Pool.Group.register
uneven = refl
