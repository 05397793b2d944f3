-- ===== src/Pool/Tests.antt =====
-- A pool of pkg/pool with one connection.
use bs_notify_hub.Prelude.{ℕ, String, ◌≡◌, ◌↔◌, none, some, same, string_key, ◌&&◌, if◌then◌else◌}
use bs_notify_hub.Pool.Channel.{new_channel}
use bs_notify_hub.Pool.Group.{close_old}
use bs_notify_hub.Pool.Manager
use bs_notify_hub.Pool.Manager.{Pool, new_manager, get_online_user_ids}
use bs_notify_hub.Pool.Connections.{dropped}
use bs_notify_hub.Pool.Links.{IsLinked, new_manager-IsLinked, register-IsLinked}
use bs_notify_hub.Pool.Lookup.{conn_at-register, conn_at-unregister}
use bs_notify_hub.Pool.Neat.{IsNeat, new_manager-IsNeat, register-IsNeat, unregister-IsNeat}
use bs_notify_hub.Pool.Closing.{close_dropped, channels-register, channels-unregister}
use bs_notify_hub.Pool.Online.{IsListed, get_online_user_ids_iff}

abbrev acme : String
acme = "acme"

abbrev user : String
user = "7"

abbrev tab : String
tab = "tab"

abbrev nobody : Pool
nobody = record { manager = new_manager; channels = λ k. new_channel }

abbrev one_tab : Pool
one_tab = Manager.register acme user tab 0 nobody

one_tab-IsLinked : IsLinked one_tab.manager
one_tab-IsLinked = register-IsLinked acme user tab 0 nobody new_manager-IsLinked

one_tab-IsNeat : IsNeat one_tab.manager
one_tab-IsNeat = register-IsNeat acme user tab 0 nobody new_manager-IsNeat

conn_at-register_example :
    Manager.conn_at (Manager.register acme user tab 1 one_tab).manager acme user tab ≡ (
      if same acme acme && same user user && same tab tab
      then some 1
      else Manager.conn_at one_tab.manager acme user tab)
conn_at-register_example = conn_at-register acme user tab 1 one_tab acme user tab one_tab-IsLinked

conn_at-unregister_example :
    Manager.conn_at (Manager.unregister acme user tab (some 0) one_tab).manager acme user tab ≡ (
      if same acme acme
        && same user user
        && same tab tab
        && dropped (Manager.conn_at one_tab.manager acme user tab) (some 0)
      then none
      else Manager.conn_at one_tab.manager acme user tab)
conn_at-unregister_example =
    conn_at-unregister acme user tab (some 0) one_tab acme user tab one_tab-IsLinked

channels-register_example :
    (Manager.register acme user tab 1 one_tab).channels
    ≡ close_old (Manager.conn_at one_tab.manager acme user tab) one_tab.channels
channels-register_example = channels-register acme user tab 1 one_tab one_tab-IsLinked

channels-unregister_example :
    (Manager.unregister acme user tab (some 0) one_tab).channels
    ≡ close_dropped (Manager.conn_at one_tab.manager acme user tab) (some 0) one_tab.channels
channels-unregister_example = channels-unregister acme user tab (some 0) one_tab

unregister-IsNeat_example : IsNeat (Manager.unregister acme user tab (some 0) one_tab).manager
unregister-IsNeat_example =
    unregister-IsNeat acme user tab (some 0) one_tab one_tab-IsLinked one_tab-IsNeat

get_online_user_ids_iff_example :
    IsListed user (get_online_user_ids acme one_tab.manager)
    ↔ ((c : String) × (k : ℕ) × (Manager.conn_at one_tab.manager acme user c ≡ some k))
get_online_user_ids_iff_example = get_online_user_ids_iff acme user one_tab.manager one_tab-IsNeat
