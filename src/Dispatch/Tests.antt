-- ===== src/Dispatch/Tests.antt =====
-- The dispatcher of internal/dispatch/dispatcher.go on a pool of two tenants.
use bs_notify_hub.Prelude.Map
use bs_notify_hub.Prelude.{
  String, ◌≡◌, ◌≢◌, refl, Option, some, List, [], ◌∷◌, string_key, String-discrete,
}
use bs_notify_hub.Pool.Channel.{InternalMsg, notify_msg, new_channel}
use bs_notify_hub.Pool.Manager
use bs_notify_hub.Pool.Manager.{Pool, new_manager}
use bs_notify_hub.Pool.Links.{new_manager-IsLinked}
use bs_notify_hub.Pool.Lookup.{conn_at-register}
use bs_notify_hub.Pool.Neat.{IsNeat, new_manager-IsNeat, register-IsNeat}
use bs_notify_hub.Dispatch.Message.{Message, target_broadcast}
use bs_notify_hub.Dispatch.Dispatcher.{process}
use bs_notify_hub.Dispatch.Cluster.{
  new_redis_broker, consume_loop, delivered, queued, consume_loop-first,
}
use bs_notify_hub.Dispatch.Isolation.{process-isolated}

abbrev read_all : String → Option InternalMsg
read_all s = some (record { kind = notify_msg; content = s })

abbrev pub nobody : Pool
nobody = record { manager = new_manager; channels = λ k. new_channel }

-- One connection of one tenant.
abbrev pub one_user : Pool
one_user = Manager.register "acme" "7" "tab" 0 nobody

one_user-IsNeat : IsNeat one_user.manager
one_user-IsNeat = register-IsNeat "acme" "7" "tab" 0 nobody new_manager-IsNeat

abbrev to_all : Message
to_all = record {
  trace_id = "";
  tenant_id = "umbrella";
  target_type = target_broadcast;
  target_ids = [];
  payload = "all";
}

nobody_there : (u c : String) → Manager.conn_at one_user.manager "umbrella" u c ≢ some 0
unfolding Manager.conn_at Manager.new_manager Map.get String-discrete
nobody_there u c h =
    cc (conn_at-register "acme" "7" "tab" 0 nobody "umbrella" u c new_manager-IsLinked, h)

process-isolated_example : (process read_all to_all one_user).channels 0 ≡ one_user.channels 0
process-isolated_example = process-isolated read_all to_all one_user 0 one_user-IsNeat nobody_there

abbrev text_of : Message → Option String
text_of m = some m.payload

abbrev message_of : String → Option Message
message_of s = some (record to_all { payload = s })

abbrev two_messages : List Message
two_messages = to_all ∷ record to_all { payload = "next" } ∷ []

consume_loop-first_example :
    consume_loop text_of message_of (delivered text_of message_of two_messages) new_redis_broker
    ≡ queued two_messages new_redis_broker
consume_loop-first_example =
    consume_loop-first text_of message_of two_messages
      (("all", refl, refl), (("next", refl, refl), tt))
