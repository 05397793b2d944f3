-- ===== src/Handler/Sender.antt =====
-- internal/handler/sender.go and internal/dto/sender.go
use bs_notify_hub.Prelude.{String, Option, none, some, List, [], ◌∷◌}
use bs_notify_hub.Prelude.Int.{ℤ}
use bs_notify_hub.Constant.{SenderType}
use bs_notify_hub.Dispatch.Message.{target_single}
use bs_notify_hub.Response.{Body, CodeError, new_code_error, bad_request, ok_resp, err_resp}
use bs_notify_hub.World.{World, Env, Result, ok, err}
use bs_notify_hub.Service.Sender
use bs_notify_hub.Service.Sender.{SendNotifyProp, SendResult}
use bs_notify_hub.Middleware.{resolve_tenant_id}

pub record BaseSendReq : Type 0 where
  pub title : String
  pub content : String
  pub tenant_id : String
  pub sender_id : String
  pub sender_type : SenderType
  pub event_type : String
  pub ttl_seconds : Option ℤ

pub record SendToUserReq : Type 0 where
  pub base : BaseSendReq
  pub user_id : String

pub record SendToUsersReq : Type 0 where
  pub base : BaseSendReq
  pub user_ids : List String

pub record SendToAllReq : Type 0 where
  pub base : BaseSendReq

pub record NotifyRes : Type 0 where
  pub notify_id : String
  pub expire_time : Option ℤ
  pub ttl_seconds : ℤ

-- The target type is not set here: it is the zero value, and the service sets it.
unfoldable pub prop_of : Option String → BaseSendReq → List String → SendNotifyProp
unfolding resolve_tenant_id
prop_of ctx base ids = record {
  title = base.title;
  content = base.content;
  tenant_id = resolve_tenant_id ctx base.tenant_id;
  sender_id = base.sender_id;
  sender_type = base.sender_type;
  event_type = base.event_type;
  ttl_seconds = base.ttl_seconds;
  target_type = target_single;
  target_ids = ids;
}

abbrev pub notify_res : SendResult → NotifyRes
notify_res r = record {
  notify_id = r.notify_id;
  expire_time = r.expire_time;
  ttl_seconds = r.ttl_seconds;
}

module _ (env : Env) where
  abbrev pub bind_failed {ℓ} : {A : Type ℓ} → Body A
  bind_failed = err_resp env.trace_id (new_code_error bad_request "参数验证失败")

  abbrev pub sent : String → Result CodeError SendResult × World → Body NotifyRes × World
  sent msg (err e, w) = (err_resp env.trace_id e, w)
  sent msg (ok r, w) = (ok_resp env.trace_id msg (some (notify_res r)), w)

  unfoldable pub send_to_user :
      Option String → Option SendToUserReq → World → Body NotifyRes × World
  unfolding prop_of ok_resp err_resp
  send_to_user ctx none w = (bind_failed, w)
  send_to_user ctx (some req) w =
      sent "发送成功" (Sender.send_to_user env (prop_of ctx req.base (req.user_id ∷ [])) w)

  unfoldable pub send_to_users :
      Option String → Option SendToUsersReq → World → Body NotifyRes × World
  unfolding prop_of ok_resp err_resp
  send_to_users ctx none w = (bind_failed, w)
  send_to_users ctx (some req) w =
      sent "发送成功" (Sender.send_to_users env (prop_of ctx req.base req.user_ids) w)

  -- Broadcast
  unfoldable pub broadcast : Option String → Option SendToAllReq → World → Body NotifyRes × World
  unfolding prop_of ok_resp err_resp
  broadcast ctx none w = (bind_failed, w)
  broadcast ctx (some req) w = sent "全员广播发送成功" (Sender.send_to_all env (prop_of ctx req.base []) w)
