-- ===== src/Service/Inbox.antt =====
-- internal/service/inbox.go
use bs_notify_hub.Prelude.{ℕ, String, Option, List, map}
use bs_notify_hub.Prelude.Int.{ℤ}
use bs_notify_hub.Constant.{SenderType, Status}
use bs_notify_hub.Response.{CodeError, new_code_error, db_error}
use bs_notify_hub.World.{Env, M, ◌>>=◌, pure, or_raise}
use bs_notify_hub.Repository.Record.Page
use bs_notify_hub.Repository.Record.Page.{RecordHasStatus, RecordPageQueryRes}
use bs_notify_hub.Repository.Watermark

-- internal/dto/inbox.go
pub record InboxPageReq : Type 0 where
  pub tenant_id : String
  pub user_id : String
  pub page_index : ℤ
  pub page_size : ℤ

pub record InboxItem : Type 0 where
  pub notify_id : ℕ
  pub title : String
  pub content : String
  pub sender_type : SenderType
  pub sender_id : String
  pub event_type : String
  pub expire_at : Option ℕ
  pub created_at : ℕ
  pub status : Status

pub record InboxPageRes : Type 0 where
  pub total : ℕ
  pub page_index : ℕ
  pub page_size : ℕ
  pub pages_total : ℤ
  pub unread : ℕ
  pub list : List InboxItem

unfoldable pub inbox_item : RecordHasStatus → InboxItem
inbox_item i = record {
  notify_id = i.notify_id;
  title = i.title;
  content = i.content;
  sender_type = i.sender_type;
  sender_id = i.sender_id;
  event_type = i.event_type;
  expire_at = i.expire_at;
  created_at = i.created_at;
  status = i.status;
}

unfoldable pub convert_to_page_res : RecordPageQueryRes → ℕ → InboxPageRes
unfolding inbox_item
convert_to_page_res page n = record {
  total = page.total;
  page_index = page.page_index;
  page_size = page.page_size;
  pages_total = page.pages_total;
  unread = n;
  list = map inbox_item page.list;
}

module _ (env : Env) where
  abbrev pub query_failed : CodeError
  query_failed = new_code_error db_error "查询失败"

  unfoldable pub get_personal_page_rpc : InboxPageReq → M CodeError (RecordPageQueryRes × ℕ)
  get_personal_page_rpc q =
      or_raise query_failed
        (Page.get_personal_page env q.tenant_id q.user_id q.page_index q.page_size)

  unfoldable pub get_tenant_page_rpc : InboxPageReq → M CodeError (RecordPageQueryRes × ℕ)
  get_tenant_page_rpc q = do
    mark ← or_raise query_failed (Watermark.find_by_tenant_and_user env q.tenant_id q.user_id)
    or_raise query_failed
        (Page.get_tenant_page env q.tenant_id q.user_id q.page_index q.page_size mark)

  unfoldable pub get_personal_page_http : InboxPageReq → M CodeError InboxPageRes
  unfolding convert_to_page_res
  get_personal_page_http q = do
    res ←
        or_raise query_failed
          (Page.get_personal_page env q.tenant_id q.user_id q.page_index q.page_size)
    pure (convert_to_page_res res.0 res.1)

  unfoldable pub get_tenant_page_http : InboxPageReq → M CodeError InboxPageRes
  unfolding convert_to_page_res
  get_tenant_page_http q = do
    mark ← or_raise query_failed (Watermark.find_by_tenant_and_user env q.tenant_id q.user_id)
    res ←
        or_raise query_failed
          (Page.get_tenant_page env q.tenant_id q.user_id q.page_index q.page_size mark)
    pure (convert_to_page_res res.0 res.1)

  unfoldable pub get_personal_stats : String → String → M CodeError (ℕ × ℕ)
  get_personal_stats tenant user = or_raise query_failed (Page.get_personal_stats env tenant user)

  unfoldable pub get_tenant_stats : String → String → M CodeError (ℕ × ℕ)
  get_tenant_stats tenant user = do
    mark ← or_raise query_failed (Watermark.find_by_tenant_and_user env tenant user)
    or_raise query_failed (Page.get_tenant_stats env tenant user mark)
