-- ===== src/Handler/Inbox.antt =====
-- internal/handler/inbox.go
use bs_notify_hub.Prelude.{String, Option, none, some}
use bs_notify_hub.Response.{Body, CodeError, ok_resp, err_resp}
use bs_notify_hub.World.{World, Env, Result, ok, err}
use bs_notify_hub.Service.Inbox
use bs_notify_hub.Service.Inbox.{InboxPageReq, InboxPageRes}
use bs_notify_hub.Middleware.{resolve_tenant_id}
use bs_notify_hub.Handler.Sender.{bind_failed}

-- `req.TenantID = middleware.ResolveTenantID(c, req.TenantID)`
abbrev pub resolved : Option String → InboxPageReq → InboxPageReq
resolved ctx req = record req { tenant_id = resolve_tenant_id ctx req.tenant_id }

module _ (env : Env) where
  abbrev pub found : Result CodeError InboxPageRes × World → Body InboxPageRes × World
  found (err e, w) = (err_resp env.trace_id e, w)
  found (ok r, w) = (ok_resp env.trace_id "查询成功" (some r), w)

  unfoldable pub get_personal_page :
      Option String → Option InboxPageReq → World → Body InboxPageRes × World
  unfolding resolve_tenant_id ok_resp err_resp
  get_personal_page ctx none w = (bind_failed env, w)
  get_personal_page ctx (some req) w = found (Inbox.get_personal_page_http env (resolved ctx req) w)

  unfoldable pub get_tenant_page :
      Option String → Option InboxPageReq → World → Body InboxPageRes × World
  unfolding resolve_tenant_id ok_resp err_resp
  get_tenant_page ctx none w = (bind_failed env, w)
  get_tenant_page ctx (some req) w = found (Inbox.get_tenant_page_http env (resolved ctx req) w)
