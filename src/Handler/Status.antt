-- ===== src/Handler/Status.antt =====
-- internal/handler/status.go and internal/dto/state.go
use bs_notify_hub.Prelude.{String, Bool, Option, none, some, ◌==◌, if◌then◌else◌, false}
use bs_notify_hub.Prelude.Int.{ℤ, pos, negsuc}
use bs_notify_hub.Response.{Body, CodeError, ok_resp, err_resp}
use bs_notify_hub.World.{World, Env, Result, ok, err}
use bs_notify_hub.Service.Status
use bs_notify_hub.Middleware.{resolve_tenant_id}
use bs_notify_hub.Handler.Sender.{bind_failed}

pub record OperateNotifyStatusReq : Type 0 where
  pub notify_id : String
  pub user_id : String
  pub tenant_id : String

-- `kind` is the field Type, 0 for a user and 1 for a tenant
pub record BatchOperateNotifyStatusReq : Type 0 where
  pub user_id : String
  pub tenant_id : String
  pub kind : ℤ

-- `req.Type == int8(constant.NotifyCategoryTenant)`
abbrev pub is_tenant_kind : ℤ → Bool
is_tenant_kind (pos n) = n == 1
is_tenant_kind (negsuc n) = false

module _ (env : Env) where
  abbrev pub done : String → Result CodeError (Unit {0}) × World → Body (Unit {0}) × World
  done msg (err e, w) = (err_resp env.trace_id e, w)
  done msg (ok r, w) = (ok_resp env.trace_id msg none, w)

  unfoldable pub mark_read :
      Option String → Option OperateNotifyStatusReq → World → Body (Unit {0}) × World
  unfolding resolve_tenant_id ok_resp err_resp
  mark_read ctx none w = (bind_failed env, w)
  mark_read ctx (some req) w =
      done "标记已读成功"
        (Status.mark_read env req.notify_id req.user_id (resolve_tenant_id ctx req.tenant_id) w)

  unfoldable pub delete_notify :
      Option String → Option OperateNotifyStatusReq → World → Body (Unit {0}) × World
  unfolding resolve_tenant_id ok_resp err_resp
  delete_notify ctx none w = (bind_failed env, w)
  delete_notify ctx (some req) w =
      done "通知删除成功"
        (Status.delete_notify env req.notify_id req.user_id (resolve_tenant_id ctx req.tenant_id) w)

  unfoldable pub batch_mark_read :
      Option String → Option BatchOperateNotifyStatusReq → World → Body (Unit {0}) × World
  unfolding resolve_tenant_id ok_resp err_resp
  batch_mark_read ctx none w = (bind_failed env, w)
  batch_mark_read ctx (some req) w =
      let tenant = resolve_tenant_id ctx req.tenant_id in
      done "一键已读成功" (
        if is_tenant_kind req.kind
        then Status.tenant_batch_mark_read env req.user_id tenant w
        else Status.user_batch_mark_read env req.user_id tenant w)

  unfoldable pub batch_delete_notify :
      Option String → Option BatchOperateNotifyStatusReq → World → Body (Unit {0}) × World
  unfolding resolve_tenant_id ok_resp err_resp
  batch_delete_notify ctx none w = (bind_failed env, w)
  batch_delete_notify ctx (some req) w =
      let tenant = resolve_tenant_id ctx req.tenant_id in
      done "收件箱清空成功" (
        if is_tenant_kind req.kind
        then Status.tenant_batch_delete env req.user_id tenant w
        else Status.user_batch_delete env req.user_id tenant w)
