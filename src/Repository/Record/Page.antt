-- ===== src/Repository/Record/Page.antt =====
-- The inbox queries of internal/repository/record.go: pages and statistics.
pub mod Ties
pub mod Pages
pub mod Own
pub mod Tests
use bs_notify_hub.Prelude.{
  ℕ, suc, ◌+◌, ◌-◌, ◌*◌, ◌/◌, String, Bool, true, not, ◌&&◌, ◌||◌, Option, none, some, List, same,
  string_key, where_, count_where, length, ltb, leb, take, drop, map, if◌then◌else◌,
}
use bs_notify_hub.Prelude.Int.{ℤ, pos, negsuc, sub_ℕ, wrap64, ltb_ℤ, pos_part}
use bs_notify_hub.Constant.{
  SenderType, is_sender_user, is_sender_tenant, Status, unread, read, is_unread, is_read,
  is_deleted,
}
use bs_notify_hub.Dispatch.Message.{is_broadcast}
use bs_notify_hub.Model.{NotifyStatus, NotifyWatermark}
use bs_notify_hub.World.{Db, Env, DbError, ok, M, ◌>>=◌, pure, call, read_db}
use bs_notify_hub.Repository.Query.{Joined, left_join, newest_first, has_row}

pub record RecordHasStatus : Type 0 where
  pub notify_id : ℕ
  pub title : String
  pub content : String
  pub sender_type : SenderType
  pub sender_id : String
  pub event_type : String
  pub expire_at : Option ℕ
  pub created_at : ℕ
  pub status : Status

pub record RecordPageQueryRes : Type 0 where
  pub total : ℕ
  pub page_index : ℕ
  pub page_size : ℕ
  pub pages_total : ℤ
  pub list : List RecordHasStatus

-- `if pageIndex < 1 { pageIndex = 1 }`, `if pageSize < 1 { pageSize = 10 }`
abbrev pub at_least : ℕ → ℤ → ℕ
at_least default n = if ltb_ℤ n (pos 1) then default else pos_part n

-- the rows of a page, OFFSET (index - 1) * size LIMIT size; gorm leaves out an OFFSET below 0
unfoldable pub page_of {ℓ} : {A : Type ℓ} → ℕ → ℕ → List A → List A
page_of index size rows = take size (drop (pos_part (wrap64 (pos ((index - 1) * size)))) rows)

-- the division of Go, which drops the fraction
abbrev pub div_trunc : ℤ → ℕ → ℤ
div_trunc (pos n) d = pos (n / d)
div_trunc (negsuc n) d = sub_ℕ 0 (suc n / d)

unfoldable pub pages_total_of : ℕ → ℕ → ℤ
pages_total_of total size =
    if ltb 0 total then div_trunc (wrap64 (pos (total + size - 1))) size else pos 0

abbrev pub by_created_at : Joined → ℕ
by_created_at j = j.0.created_at

-- (status IS NULL OR status != deleted)
abbrev pub not_deleted : Option NotifyStatus → Bool
not_deleted none = true
not_deleted (some s) = not (is_deleted s.status)

-- (status IS NOT NULL OR target_type = broadcast)
abbrev pub is_addressed : Joined → Bool
is_addressed j = has_row j.1 || is_broadcast j.0.target_type

abbrev pub in_personal_inbox : String → Joined → Bool
in_personal_inbox tenant j =
    same j.0.tenant_id tenant && is_sender_user j.0.sender_type && not_deleted j.1 && is_addressed j

-- status = unread OR status IS NULL
abbrev pub counts_as_unread : Option NotifyStatus → Bool
counts_as_unread none = true
counts_as_unread (some s) = is_unread s.status

unfoldable pub personal_rows : String → String → Db → List Joined
personal_rows tenant user db =
    where_ (in_personal_inbox tenant) (left_join user db.records db.statuses)

-- A NULL status is scanned as 0.
abbrev pub scanned_status : Option NotifyStatus → Status
scanned_status none = unread
scanned_status (some s) = s.status

abbrev pub item_of : (Joined → Status) → Joined → RecordHasStatus
item_of status j = record {
  notify_id = j.0.notify_id;
  title = j.0.title;
  content = j.0.content;
  sender_type = j.0.sender_type;
  sender_id = j.0.sender_id;
  event_type = j.0.event_type;
  expire_at = j.0.expire_at;
  created_at = j.0.created_at;
  status = status j;
}

abbrev pub list_of : (ℕ → ℕ) → ℕ → ℕ → (Joined → Status) → List Joined → List RecordHasStatus
list_of rank index size status rows =
    map (item_of status) (page_of index size (newest_first (λ j. j.0) rank rows))

abbrev pub page_res : ℕ → ℕ → ℕ → List RecordHasStatus → RecordPageQueryRes
page_res total index size items = record {
  total = total;
  page_index = index;
  page_size = size;
  pages_total = pages_total_of total size;
  list = items;
}

-- TenantClearAt and TenantReadAt, or the zero time
abbrev pub clear_at_of : Option NotifyWatermark → ℕ
clear_at_of none = 0
clear_at_of (some m) = m.tenant_clear_at

abbrev pub read_at_of : Option NotifyWatermark → ℕ
read_at_of none = 0
read_at_of (some m) = m.tenant_read_at

abbrev pub in_tenant_inbox : String → ℕ → Joined → Bool
in_tenant_inbox tenant clear_at j =
    same j.0.tenant_id tenant
    && is_sender_tenant j.0.sender_type
    && ltb clear_at j.0.created_at
    && not_deleted j.1
    && is_addressed j

unfoldable pub tenant_rows : String → String → ℕ → Db → List Joined
tenant_rows tenant user clear_at db =
    where_ (in_tenant_inbox tenant clear_at) (left_join user db.records db.statuses)

abbrev pub not_read : Option NotifyStatus → Bool
not_read none = true
not_read (some s) = not (is_read s.status)

-- the CASE of unread_cnt
abbrev pub tenant_counts_as_unread : ℕ → Joined → Bool
tenant_counts_as_unread read_at j = not_read j.1 && ltb read_at j.0.created_at

-- the CASE of the list's status
abbrev pub tenant_status : ℕ → Joined → Status
tenant_status read_at (r, some s) = s.status
tenant_status read_at (r, none) = if leb r.created_at read_at then read else unread

-- COUNT(*) AS total_cnt, SUM(CASE …) AS unread_cnt; the sum over no rows is NULL, which is 0
abbrev pub counts_of : (Joined → Bool) → List Joined → ℕ × ℕ
counts_of is_unread_row rows = (length rows, count_where is_unread_row rows)

module _ (env : Env) where
  -- A page takes two queries, for the counts and for the list.
  abbrev pub query_page :
      ℕ
      → ℕ
      → (Db → List Joined)
      → (Joined → Bool)
      → (Joined → Status)
      → M DbError (RecordPageQueryRes × ℕ)
  query_page index size rows is_unread_row status = do
    counts ← call env (read_db λ db. counts_of is_unread_row (rows db))
    items ← call env λ w. (ok (list_of (env.tie_rank w.calls) index size status (rows w.db)), w)
    pure (page_res counts.0 index size items, counts.1)

  unfoldable pub get_personal_page : String → String → ℤ → ℤ → M DbError (RecordPageQueryRes × ℕ)
  unfolding personal_rows
  get_personal_page tenant user page_index page_size =
      query_page (at_least 1 page_index) (at_least 10 page_size) (personal_rows tenant user)
        (λ j. counts_as_unread j.1) (λ j. scanned_status j.1)

  unfoldable pub get_personal_stats : String → String → M DbError (ℕ × ℕ)
  unfolding personal_rows
  get_personal_stats tenant user =
      call env (read_db λ db. counts_of (λ j. counts_as_unread j.1) (personal_rows tenant user db))

  unfoldable pub get_tenant_stats : String → String → Option NotifyWatermark → M DbError (ℕ × ℕ)
  unfolding tenant_rows
  get_tenant_stats tenant user mark = call env (
      read_db λ db.
        counts_of (tenant_counts_as_unread (read_at_of mark))
          (tenant_rows tenant user (clear_at_of mark) db))

  unfoldable pub get_tenant_page :
      String → String → ℤ → ℤ → Option NotifyWatermark → M DbError (RecordPageQueryRes × ℕ)
  unfolding tenant_rows
  get_tenant_page tenant user page_index page_size mark =
      query_page (at_least 1 page_index) (at_least 10 page_size)
        (tenant_rows tenant user (clear_at_of mark)) (tenant_counts_as_unread (read_at_of mark))
        (tenant_status (read_at_of mark))
