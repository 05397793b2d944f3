-- ===== src/Logic/Sender.antt =====
-- internal/logic/sender.go: the pushes of unread counts and of notifications.
use bs_notify_hub.Prelude.{String, List, [], ◌∷◌, if◌then◌else◌}
use bs_notify_hub.Prelude.Int.{ℤ}
use bs_notify_hub.Constant.{is_sender_user}
use bs_notify_hub.Dispatch.Message.{
  Message, TargetType, target_single, target_broadcast, is_broadcast,
}
use bs_notify_hub.Dispatch.Broker.{publish}
use bs_notify_hub.Dto.{HubMsg, notify, tenant_unread, personal_unread}
use bs_notify_hub.Model.{NotifyRecord}
use bs_notify_hub.World.{Env, DbError, ok, M, ◌>>=◌, ◌>>◌, pure, ignore}
use bs_notify_hub.Logic.Unread

module _ (env : Env) where
  -- send: a message that the broker refuses is logged and lost.
  unfoldable pub send : String → TargetType → List String → HubMsg → M DbError (Unit {0})
  unfolding publish
  send tenant target ids msg w =
      let m : Message = record {
        trace_id = env.trace_id;
        tenant_id = tenant;
        target_type = target;
        target_ids = ids;
        payload = env.encode msg;
      } in
      (ok tt, record w { broker = (publish m w.broker).0 })

  unfoldable pub send_tenant_unread : String → String → ℤ → M DbError (Unit {0})
  unfolding send
  send_tenant_unread tenant user n = send tenant target_single (user ∷ []) (tenant_unread n)

  unfoldable pub send_personal_unread : String → String → ℤ → M DbError (Unit {0})
  unfolding send
  send_personal_unread tenant user n = send tenant target_single (user ∷ []) (personal_unread n)

  unfoldable pub push_tenant_unread : String → String → M DbError (Unit {0})
  unfolding send_tenant_unread
  push_tenant_unread tenant user = do
    n ← Unread.get_tenant_unread env tenant user
    send_tenant_unread tenant user n

  unfoldable pub push_personal_unread : String → String → M DbError (Unit {0})
  unfolding send_personal_unread
  push_personal_unread tenant user = do
    n ← Unread.get_personal_unread env tenant user
    send_personal_unread tenant user n

  -- a loop over users whose errors are logged: `continue`
  unfoldable pub for_users : (String → M DbError (Unit {0})) → List String → M DbError (Unit {0})
  for_users f [] = pure tt
  for_users f (u ∷ us) = ignore (f u) >> for_users f us

  unfoldable pub send_unread : NotifyRecord → M DbError (Unit {0})
  unfolding for_users push_tenant_unread push_personal_unread
  send_unread r =
      if is_broadcast r.target_type
      then for_users (push_tenant_unread r.tenant_id) (env.online r.tenant_id)
      else if is_sender_user r.sender_type
      then for_users (push_personal_unread r.tenant_id) r.target_ids
      else for_users (push_tenant_unread r.tenant_id) r.target_ids

  unfoldable pub notify_data : NotifyRecord → HubMsg
  notify_data r = notify (record {
    notify_id = env.uuid_string r.notify_id;
    title = r.title;
    content = r.content;
    tenant_id = r.tenant_id;
    sender_id = r.sender_id;
    sender_type = r.sender_type;
    target_ids = r.target_ids;
    event_type = r.event_type;
    expire_time = r.expire_at;
  })

  -- the first step of the goroutine: the count of the record's kind
  unfoldable pub count_new : NotifyRecord → M DbError (Unit {0})
  count_new r =
      if is_broadcast r.target_type
      then ignore (Unread.tenant_broadcast_incr env r.tenant_id (env.uuid_string r.notify_id))
      else ignore (Unread.batch_incr_user_unread env r.tenant_id r.target_ids r.sender_type)

  -- the body of SendNotify's goroutine
  unfoldable pub send_notify : NotifyRecord → M DbError (Unit {0})
  unfolding count_new send_unread notify_data send
  send_notify r = do
    count_new r
    send_unread r
    if is_broadcast r.target_type
        then send r.tenant_id target_broadcast [] (notify_data r)
        else send r.tenant_id target_single r.target_ids (notify_data r)
