-- ===== src/Handler/Hub.antt =====
-- internal/handler/hub.go, with the requests of internal/dto/hub.go
use bs_notify_hub.Prelude.{ℕ, String, Bool, Option, none, some}
use bs_notify_hub.Prelude.Int.{ℤ}
use bs_notify_hub.Response.{Body, CodeError, new_code_error, unauthorized, ok_resp, err_resp}
use bs_notify_hub.World.{Result, ok, err}
use bs_notify_hub.Ticket
use bs_notify_hub.Ticket.{
  Bytes, TicketLib, TicketConfig, TicketContent, TicketError, Entries, Granted,
}
use bs_notify_hub.Middleware.{resolve_tenant_id}

pub record ApplyTicketReq : Type 0 where
  pub tenant : String
  pub user_id : String

pub record ApplyTicketRes : Type 0 where
  pub ticket : String
  pub expire_time : ℤ
  pub create_time : ℕ

pub record SubscribeParam : Type 0 where
  pub user_id : String
  pub tenant_id : String
  pub conn_id : String

-- Subscribe refuses the request, or hands it to the service.
pub data Subscribed : Type 0 where
  refused : Body (Unit {0}) → Subscribed
  subscribes : SubscribeParam → Subscribed

module _ (lib : TicketLib) (config : TicketConfig) (trace_id : String) where
  abbrev pub granted : Result CodeError Granted × Entries → Option (Body ApplyTicketRes) × Entries
  granted (err e, s) = (some (err_resp trace_id e), s)
  granted (ok g, s) = (
    some (
        ok_resp trace_id "凭证申请成功" (
          some (record { ticket = g.ticket; expire_time = g.expire_at; create_time = g.created }))),
    s,
  )

  -- No answer is written when the request cannot be read.
  unfoldable pub apply_ticket :
      (ℕ → Option Bytes)
      → Bool
      → ℕ
      → Option String
      → Option ApplyTicketReq
      → Entries
      → Option (Body ApplyTicketRes) × Entries
  unfolding resolve_tenant_id ok_resp err_resp
  apply_ticket random fails now ctx none s = (none, s)
  apply_ticket random fails now ctx (some req) s = granted (
      Ticket.apply_ticket lib config random fails now (resolve_tenant_id ctx req.tenant) req.user_id
        s)

  -- `describe` is the text of the error, `conn_id` the UUID that is drawn.
  module _ (describe : TicketError → String) (conn_id : String) where
    abbrev pub verified : Result TicketError TicketContent × Entries → Subscribed × Entries
    verified (err e, s) =
        (refused (err_resp trace_id (new_code_error unauthorized (describe e))), s)
    verified (ok c, s) =
        (subscribes (record { user_id = c.user_id; tenant_id = c.tenant; conn_id = conn_id }), s)

    unfoldable pub subscribe : Bool → ℕ → String → Entries → Subscribed × Entries
    unfolding err_resp
    subscribe fails now ticket s = verified (Ticket.verify_ticket lib config fails now ticket s)
