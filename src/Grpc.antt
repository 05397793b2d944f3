-- ===== src/Grpc.antt =====
-- internal/service/grpc.go: the gRPC methods, on the messages of api/proto. `time.Format` is a
-- parameter. The tenant is that of the message: the methods do not read the one that
-- TokenInterceptor puts into the context.
pub mod Pages
pub mod Tests
use bs_notify_hub.Prelude.{
  ℕ, String, Bool, false, Option, none, some, List, [], ◌∷◌, map, ◌==◌, if◌then◌else◌,
}
use bs_notify_hub.Prelude.Int.{ℤ, pos, negsuc, wrap8, wrap32}
use bs_notify_hub.Constant.{SenderType, sender_user, sender_tenant, other_sender, Status}
use bs_notify_hub.Dispatch.Message.{target_single}
use bs_notify_hub.Response.{CodeError}
use bs_notify_hub.World.{Env, Result, ok, err, M, ◌>>=◌, pure}
use bs_notify_hub.Repository.Record.Page.{RecordHasStatus, RecordPageQueryRes}
use bs_notify_hub.Service.Sender
use bs_notify_hub.Service.Sender.{SendNotifyProp, SendResult}
use bs_notify_hub.Service.Status
use bs_notify_hub.Service.Inbox
use bs_notify_hub.Service.Inbox.{InboxPageReq}
use bs_notify_hub.Ticket
use bs_notify_hub.Ticket.{Bytes, TicketLib, TicketConfig, Entries, Granted}

-- The fields that the three messages to send share; the enum is an int32.
pub record SendReq : Type 0 where
  pub title : String
  pub content : String
  pub tenant_id : String
  pub sender_id : String
  pub sender_type : ℤ
  pub event_type : String
  pub ttl_seconds : Option ℤ

pub record SendNotifyRes : Type 0 where
  pub notify_id : String
  pub ttl_seconds : ℤ
  pub expire_time : Option String

-- The int8 code, as the services tell its values apart.
abbrev pub sender_type_of : ℤ → SenderType
sender_type_of (pos n) =
    if n == 0 then sender_user else if n == 1 then sender_tenant else other_sender
sender_type_of (negsuc n) = other_sender

-- int8(senderType)
unfoldable pub to_sender_type_code : ℤ → SenderType
to_sender_type_code n = sender_type_of (wrap8 n)

unfoldable pub prop_of : SendReq → List String → SendNotifyProp
unfolding to_sender_type_code
prop_of req ids = record {
  title = req.title;
  content = req.content;
  tenant_id = req.tenant_id;
  sender_id = req.sender_id;
  sender_type = to_sender_type_code req.sender_type;
  event_type = req.event_type;
  ttl_seconds = req.ttl_seconds;
  target_type = target_single;
  target_ids = ids;
}

pub record ApplyTicketRes : Type 0 where
  pub ticket : String
  pub expire_time : String
  pub create_time : String

-- SenderType and Status are widened to an int32.
pub record InboxItem : Type 0 where
  pub notify_id : ℕ
  pub title : String
  pub content : String
  pub sender_type : SenderType
  pub sender_id : String
  pub event_type : String
  pub status : Status
  pub expire_at : Option String
  pub created_at : String

pub record GetInboxRes : Type 0 where
  pub page_index : ℤ
  pub page_size : ℤ
  pub total : ℕ
  pub unread : ℕ
  pub list : List InboxItem

pub record NotifyStats : Type 0 where
  pub total : ℕ
  pub unread : ℕ

-- proto.SenderType_TENANT is 1
abbrev pub is_tenant_type : ℤ → Bool
is_tenant_type (pos n) = n == 1
is_tenant_type (negsuc n) = false

-- Connect
abbrev pub connect_message : String
connect_message = "成功"

module _ (env : Env) (format : ℤ → String) where
  abbrev pub format_time : Option ℤ → Option String
  format_time none = none
  format_time (some t) = some (format t)

  abbrev pub notify_res : SendResult → SendNotifyRes
  notify_res r = record {
    notify_id = r.notify_id;
    ttl_seconds = r.ttl_seconds;
    expire_time = format_time r.expire_time;
  }

  unfoldable pub send_to_user : SendReq → String → M CodeError SendNotifyRes
  unfolding prop_of
  send_to_user req user = do
    r ← Sender.send_to_user env (prop_of req (user ∷ []))
    pure (notify_res r)

  unfoldable pub send_to_users : SendReq → List String → M CodeError SendNotifyRes
  unfolding prop_of
  send_to_users req users = do r ← Sender.send_to_users env (prop_of req users); pure (notify_res r)

  unfoldable pub send_to_all : SendReq → M CodeError SendNotifyRes
  unfolding prop_of
  send_to_all req = do r ← Sender.send_to_all env (prop_of req []); pure (notify_res r)

  -- MarkRead and DeleteNotify on a notify id, a user and a tenant.
  unfoldable pub mark_read : String → String → String → M CodeError (Unit {0})
  mark_read id user tenant = Status.mark_read env id user tenant

  unfoldable pub delete_notify : String → String → String → M CodeError (Unit {0})
  delete_notify id user tenant = Status.delete_notify env id user tenant

  unfoldable pub batch_mark_read : ℤ → String → String → M CodeError (Unit {0})
  batch_mark_read kind user tenant =
      if is_tenant_type kind
      then Status.tenant_batch_mark_read env user tenant
      else Status.user_batch_mark_read env user tenant

  unfoldable pub batch_delete_notify : ℤ → String → String → M CodeError (Unit {0})
  batch_delete_notify kind user tenant =
      if is_tenant_type kind
      then Status.tenant_batch_delete env user tenant
      else Status.user_batch_delete env user tenant

  abbrev pub created_time : Option ℕ → Option ℤ
  created_time none = none
  created_time (some t) = some (pos t)

  unfoldable pub inbox_item : RecordHasStatus → InboxItem
  inbox_item i = record {
    notify_id = i.notify_id;
    title = i.title;
    content = i.content;
    sender_type = i.sender_type;
    sender_id = i.sender_id;
    event_type = i.event_type;
    status = i.status;
    expire_at = format_time (created_time i.expire_at);
    created_at = format (pos i.created_at);
  }

  unfoldable pub to_proto_inbox_res : RecordPageQueryRes × ℕ → GetInboxRes
  unfolding inbox_item
  to_proto_inbox_res page = record {
    page_index = wrap32 (pos page.0.page_index);
    page_size = wrap32 (pos page.0.page_size);
    total = page.0.total;
    unread = page.1;
    list = map inbox_item page.0.list;
  }

  unfoldable pub get_personal_inbox : InboxPageReq → M CodeError GetInboxRes
  unfolding to_proto_inbox_res
  get_personal_inbox req = do
    page ← Inbox.get_personal_page_rpc env req
    pure (to_proto_inbox_res page)

  unfoldable pub get_tenant_inbox : InboxPageReq → M CodeError GetInboxRes
  unfolding to_proto_inbox_res
  get_tenant_inbox req = do page ← Inbox.get_tenant_page_rpc env req; pure (to_proto_inbox_res page)

  abbrev pub stats_of : ℕ × ℕ → NotifyStats
  stats_of n = record { total = n.0; unread = n.1 }

  -- The statistics of the personal inbox and of the tenant's.
  unfoldable pub get_user_notify_stats : String → String → M CodeError (NotifyStats × NotifyStats)
  get_user_notify_stats tenant user = do
    personal ← Inbox.get_personal_stats env tenant user
    shared ← Inbox.get_tenant_stats env tenant user
    pure (stats_of personal, stats_of shared)

  module _ (lib : TicketLib) (config : TicketConfig) where
    abbrev pub ticket_res :
        Result CodeError Granted × Entries → Result CodeError ApplyTicketRes × Entries
    ticket_res (err e, s) = (err e, s)
    ticket_res (ok g, s) = (
      ok (record {
        ticket = g.ticket;
        expire_time = format g.expire_at;
        create_time = format (pos g.created);
      }),
      s,
    )

    unfoldable pub apply_ticket :
        (ℕ → Option Bytes)
        → Bool
        → String
        → String
        → Entries
        → Result CodeError ApplyTicketRes × Entries
    apply_ticket random fails tenant user s =
        ticket_res (Ticket.apply_ticket lib config random fails env.now tenant user s)
