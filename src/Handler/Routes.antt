-- ===== src/Handler/Routes.antt =====
-- registerRoutes of main.go: the routes of /v1, all behind AuthMiddleware but for the subscription.
-- The CORS middleware is third-party code and is left out.
use bs_notify_hub.Prelude.{ℕ, String, Bool, Option}
use bs_notify_hub.Response.{Body}
use bs_notify_hub.Session.{Store}
use bs_notify_hub.Ticket.{Bytes, TicketLib, TicketConfig, Entries}
use bs_notify_hub.Token.{JwtLib}
use bs_notify_hub.World.{World, Env}
use bs_notify_hub.Service.Inbox.{InboxPageReq, InboxPageRes}
use bs_notify_hub.Middleware.{
  Request, AuthConfig, Answer, proceeds, answers, answers_map, redirects, auth_middleware,
}
use bs_notify_hub.Handler.Sender
use bs_notify_hub.Handler.Sender.{SendToUserReq, SendToUsersReq, SendToAllReq, NotifyRes}
use bs_notify_hub.Handler.Status
use bs_notify_hub.Handler.Status.{OperateNotifyStatusReq, BatchOperateNotifyStatusReq}
use bs_notify_hub.Handler.Inbox
use bs_notify_hub.Handler.Hub
use bs_notify_hub.Handler.Hub.{ApplyTicketReq, ApplyTicketRes}
use bs_notify_hub.Handler.Valid.{
  validated, valid_to_user, valid_to_users, valid_to_all, valid_page, valid_operate, valid_batch,
  valid_ticket,
}

-- A route, with the body that hertz read and has not validated yet, or `none` where it could not
-- read one.
pub data V1 : Type 0 where
  to_user : Option SendToUserReq → V1
  to_users : Option SendToUsersReq → V1
  to_all : Option SendToAllReq → V1
  personal_page tenant_page : Option InboxPageReq → V1
  read_one delete_one : Option OperateNotifyStatusReq → V1
  read_all delete_all : Option BatchOperateNotifyStatusReq → V1
  ticket_apply : Option ApplyTicketReq → V1

-- What the services work on, the entries of the tickets in Redis, and the sessions.
pub record Server : Type 0 where
  pub world : World
  pub tickets : Entries
  pub sessions : Store

pub data Reply : Type 0 where
  stopped : Answer → Reply
  sent : Body NotifyRes → Reply
  paged : Body InboxPageRes → Reply
  done : Body (Unit {0}) → Reply
  ticketed : Option (Body ApplyTicketRes) → Reply

module _ (env : Env) (tickets : TicketLib) (ticket_config : TicketConfig)
    (random : ℕ → Option Bytes) (redis_fails : Bool) where
  abbrev pub in_world {ℓ} : {A : Type ℓ} → (A → Reply) → Server → A × World → Reply × Server
  in_world f s (a, w) = (f a, record s { world = w })

  abbrev pub in_tickets : Server → Option (Body ApplyTicketRes) × Entries → Reply × Server
  in_tickets s (b, t) = (ticketed b, record s { tickets = t })

  -- The handler of the route, with the tenant id that the middleware set. Its BindAndValidate checks
  -- the body first.
  unfoldable pub handle : Option String → V1 → Server → Reply × Server
  unfolding Sender.send_to_user Sender.send_to_users Sender.broadcast Inbox.get_personal_page
      Inbox.get_tenant_page Status.mark_read Status.delete_notify Status.batch_mark_read
      Status.batch_delete_notify Hub.apply_ticket valid_to_user valid_to_users valid_to_all
      valid_page valid_operate valid_batch valid_ticket
  handle ctx (to_user req) s =
      in_world sent s (Sender.send_to_user env ctx (validated valid_to_user req) s.world)
  handle ctx (to_users req) s =
      in_world sent s (Sender.send_to_users env ctx (validated valid_to_users req) s.world)
  handle ctx (to_all req) s =
      in_world sent s (Sender.broadcast env ctx (validated valid_to_all req) s.world)
  handle ctx (personal_page req) s =
      in_world paged s (Inbox.get_personal_page env ctx (validated valid_page req) s.world)
  handle ctx (tenant_page req) s =
      in_world paged s (Inbox.get_tenant_page env ctx (validated valid_page req) s.world)
  handle ctx (read_one req) s =
      in_world done s (Status.mark_read env ctx (validated valid_operate req) s.world)
  handle ctx (delete_one req) s =
      in_world done s (Status.delete_notify env ctx (validated valid_operate req) s.world)
  handle ctx (read_all req) s =
      in_world done s (Status.batch_mark_read env ctx (validated valid_batch req) s.world)
  handle ctx (delete_all req) s =
      in_world done s (Status.batch_delete_notify env ctx (validated valid_batch req) s.world)
  handle ctx (ticket_apply req) s = in_tickets s (
      Hub.apply_ticket tickets ticket_config env.trace_id random redis_fails env.now ctx
        (validated valid_ticket req) s.tickets)

  -- After the middleware: the handler runs if the request proceeds.
  abbrev pub after : Answer → V1 → Server → Reply × Server
  after (proceeds ctx) v s = handle ctx v s
  after (answers b) v s = (stopped (answers b), s)
  after (answers_map status code msg) v s = (stopped (answers_map status code msg), s)
  after (redirects status to) v s = (stopped (redirects status to), s)

  module _ {PublicKey : Type 0} (lib : JwtLib PublicKey) (config : AuthConfig PublicKey) where
    unfoldable pub serve_v1 : Request → V1 → Server → Reply × Server
    unfolding handle auth_middleware
    serve_v1 req v s = after (auth_middleware lib config s.sessions env.now req) v s
