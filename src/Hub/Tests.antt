-- ===== src/Hub/Tests.antt =====
-- A run of the hub of internal/service/hub.go.
use bs_notify_hub.Prelude.Map
use bs_notify_hub.Pool.Group
use bs_notify_hub.Pool.Manager
use bs_notify_hub.Dispatch.Dispatcher.{join, process}
use bs_notify_hub.Hub.Broadcast.{pushed, process-broadcast}
use bs_notify_hub.Prelude.{
  refl, String-discrete, ℕ_discrete, String, ◌≡◌, false, Option, none, some, List, [], ◌∷◌,
}
use bs_notify_hub.Pool.Channel.{InternalMsg, notify_msg}
use bs_notify_hub.Dispatch.Message.{Message, target_single, target_broadcast}
use bs_notify_hub.Hub.{Hub, register, new_hub}
use bs_notify_hub.Hub.Locks.{
  Event, subscribes, leaves, handles, goes_on, receives, Running, started, run,
}
use bs_notify_hub.Hub.Locks.Sound.{IsSound}
use bs_notify_hub.Hub.Locks.Runs.{run-IsSound}
use bs_notify_hub.Hub.Safety.{IsLive, new_hub-IsLive, register-IsLive}

abbrev read_all : String → Option InternalMsg
read_all s = some (record { kind = notify_msg; content = s })

abbrev to_user : String → Message
to_user u = record {
  trace_id = "";
  tenant_id = "acme";
  target_type = target_single;
  target_ids = u ∷ [];
  payload = "hi";
}

abbrev to_all : Message
to_all = record {
  trace_id = "";
  tenant_id = "acme";
  target_type = target_broadcast;
  target_ids = [];
  payload = "all";
}

-- A tab that reconnects under its id while a broadcast holds the group, and the end of the replaced
-- connection.
abbrev reconnect : List Event
reconnect =
    subscribes "acme" "7" "tab"
    ∷ goes_on 0
    ∷ subscribes "acme" "7" "tab"
    ∷ handles to_all
    ∷ goes_on 0
    ∷ goes_on 0
    ∷ leaves "acme" "7" "tab" 0
    ∷ receives 0
    ∷ goes_on 0
    ∷ handles (to_user "7")
    ∷ goes_on 0
    ∷ goes_on 0
    ∷ []

run-IsSound_example :
    let r = run read_all reconnect started in IsSound r.pool r.next_conn × (r.crashed ≡ false)
run-IsSound_example = run-IsSound read_all reconnect

-- The last connection of a tenant goes, and another comes between the end of its group's Unregister
-- and the removal of the group: the group that takes it in is no longer in the map.
abbrev overtaken : List Event
overtaken =
    subscribes "acme" "7" "tab"
    ∷ goes_on 0
    ∷ leaves "acme" "7" "tab" 0
    ∷ goes_on 0
    ∷ subscribes "acme" "8" "tab"
    ∷ goes_on 0
    ∷ goes_on 0
    ∷ []

abbrev lost : Running
lost = run read_all overtaken started

lost_subscriber :
    (Group.conn_of (lost.heap 0) "8" "tab" ≡ some 1)
    × (Manager.conn_at lost.manager "acme" "8" "tab" ≡ none)
unfolding run Group.conn_of Map.get started Manager.get_group Manager.register_in
    Manager.get_or_create_group new_hub Manager.new_manager Map.put String-discrete
    Manager.unregister_in Group.unregister ℕ_discrete Group.register Manager.conn_at Manager.collect
lost_subscriber = (refl, refl)

abbrev one_tab : Hub
one_tab = (register "acme" "7" "tab" new_hub).0

one_tab-IsLive : IsLive one_tab
one_tab-IsLive = register-IsLive "acme" "7" "tab" new_hub new_hub-IsLive

tab_there : Manager.conn_at one_tab.manager "acme" "7" "tab" ≡ some 0
unfolding register new_hub join Manager.register Manager.register_in Manager.get_or_create_group
    Manager.new_manager Manager.conn_at Group.conn_of Group.register Map.get Map.put Map.remove
    String-discrete ℕ_discrete
tab_there = refl

process-broadcast_example :
    (process read_all to_all one_tab.pool).channels 0
    ≡ pushed (record { kind = notify_msg; content = "all" }) (one_tab.channels 0)
process-broadcast_example =
    process-broadcast read_all one_tab to_all (record { kind = notify_msg; content = "all" }) "7"
      "tab" 0 one_tab-IsLive refl refl tab_there
