-- ===== src/Service/Sender.antt =====
-- internal/service/sender.go
pub mod Atomic
pub mod Valid
pub mod Tests
use bs_notify_hub.Prelude.{
  ℕ, String, Bool, true, false, not, Option, none, some, List, [], ◌∷◌, same, string_key, length,
  if◌then◌else◌, ◌==◌,
}
use bs_notify_hub.Prelude.Int.{ℤ, pos, ltb_ℤ, ◌+ℤ◌, seconds}
use bs_notify_hub.Constant.{SenderType, sender_user, sender_tenant, other_sender, unread}
use bs_notify_hub.Dispatch.Message.{
  TargetType, target_single, target_multiple, target_broadcast, is_broadcast,
}
use bs_notify_hub.Model.{NotifyRecord}
use bs_notify_hub.Response.{CodeError, new_code_error, bad_request, internal_error}
use bs_notify_hub.World.{
  Env, DbError, Result, ok, err, M, ◌>>=◌, ◌>>◌, pure, raise, or_raise, transaction, start,
  send_notify,
}
use bs_notify_hub.Repository.Record
use bs_notify_hub.Repository.Status
use bs_notify_hub.Repository.Status.{NewStatus}

pub record SendNotifyProp : Type 0 where
  pub title : String
  pub content : String
  pub tenant_id : String
  pub sender_id : String
  pub sender_type : SenderType
  pub event_type : String
  pub ttl_seconds : Option ℤ
  pub target_type : TargetType
  pub target_ids : List String

-- ExpireTime is in nanoseconds, and may lie before Go's zero time.
pub record SendResult : Type 0 where
  pub notify_id : String
  pub expire_time : Option ℤ
  pub ttl_seconds : ℤ

unfoldable pub validate_sender_type : SenderType → Bool
validate_sender_type sender_user = true
validate_sender_type sender_tenant = true
validate_sender_type other_sender = false

-- `prop.TTLSeconds != nil && *prop.TTLSeconds < 0`
abbrev pub is_negative : Option ℤ → Bool
is_negative none = false
is_negative (some n) = ltb_ℤ n (pos 0)

-- `len(ids) != 1 || ids[0] == ""`
abbrev pub not_one_user : List String → Bool
not_one_user (u ∷ []) = same u ""
not_one_user _ = true

-- the switch on the target type: `none` is no error
abbrev pub target_error : TargetType → List String → Option CodeError
target_error target_single ids =
    if not_one_user ids then some (new_code_error bad_request "一对一发送必须指定 1 个有效 userID") else none
target_error target_multiple ids =
    if length ids == 0 then some (new_code_error bad_request "一对多发送必须指定至少 1 个 userID") else none
target_error target_broadcast ids =
    if length ids == 0 then none else some (new_code_error bad_request "广播发送不能有目标用户")

unfoldable pub validate_send_prop : SendNotifyProp → Option CodeError
unfolding validate_sender_type
validate_send_prop prop =
    if same prop.tenant_id ""
    then some (new_code_error bad_request "tenantID 必填")
    else if not (validate_sender_type prop.sender_type)
    then some (new_code_error bad_request "senderType 仅支持 0-用户 或 1-租户/系统")
    else if is_negative prop.ttl_seconds
    then some (new_code_error bad_request "ttlSeconds 不能小于 0")
    else target_error prop.target_type prop.target_ids

module _ (env : Env) where
  abbrev pub default_ttl : SenderType → Result CodeError ℤ
  default_ttl sender_user = ok env.user_notify_ttl_seconds
  default_ttl sender_tenant = ok env.tenant_notify_ttl_seconds
  default_ttl other_sender = err (new_code_error bad_request "senderType 不合法")

  abbrev pub checked_ttl : Result CodeError ℤ → Result CodeError ℤ
  checked_ttl (err e) = err e
  checked_ttl (ok n) =
      if ltb_ℤ n (pos 0) then err (new_code_error internal_error "默认消息过期时间配置不能小于 0") else ok n

  abbrev pub ttl_or_default : SenderType → Option ℤ → Result CodeError ℤ
  ttl_or_default by none = checked_ttl (default_ttl by)
  ttl_or_default by (some n) = ok n

  unfoldable pub resolve_ttl_seconds : SendNotifyProp → Result CodeError ℤ
  resolve_ttl_seconds prop = ttl_or_default prop.sender_type prop.ttl_seconds

  -- `ttlSeconds == 0` is no expiry.
  abbrev pub is_zero : ℤ → Bool
  is_zero (pos n) = n == 0
  is_zero _ = false

  unfoldable pub resolve_expire_time : ℤ → Option ℤ
  unfolding ◌+ℤ◌ seconds
  resolve_expire_time ttl = if is_zero ttl then none else some (pos env.now +ℤ seconds ttl)

  abbrev pub status_rows : ℕ → List String → List NewStatus
  status_rows id [] = []
  status_rows id (u ∷ us) =
      record { notify_id = id; target_user_id = u; status = unread } ∷ status_rows id us

  abbrev pub record_target_ids : TargetType → List String → List String
  record_target_ids target_broadcast ids = []
  record_target_ids _ ids = ids

  -- The record to be written: `expireAt` is declared and never assigned.
  abbrev pub record_of : SendNotifyProp → NotifyRecord
  record_of prop = record {
    notify_id = 0;
    title = prop.title;
    content = prop.content;
    target_type = prop.target_type;
    sender_type = prop.sender_type;
    sender_id = prop.sender_id;
    event_type = prop.event_type;
    tenant_id = prop.tenant_id;
    target_ids = record_target_ids prop.target_type prop.target_ids;
    expire_at = none;
    created_at = 0;
  }

  abbrev pub create_statuses : List NewStatus → M DbError (Unit {0})
  create_statuses [] = pure tt
  create_statuses (s ∷ ss) = Status.create_bulk env (s ∷ ss)

  -- the body of the transaction, after the record
  unfoldable pub store_statuses : SendNotifyProp → NotifyRecord → M DbError NotifyRecord
  store_statuses prop row = do
    (if is_broadcast prop.target_type
        then pure tt
        else create_statuses (status_rows row.notify_id prop.target_ids))
    pure row

  -- the body of the transaction
  unfoldable pub store : SendNotifyProp → M DbError NotifyRecord
  unfolding store_statuses
  store prop = Record.create env (record_of prop) >>= store_statuses prop

  abbrev pub check {ℓ} : {A : Type ℓ} → Option CodeError → M CodeError A → M CodeError A
  check (some e) m = raise e
  check none m = m

  abbrev pub of_result {ℓ} : {A : Type ℓ} → Result CodeError A → M CodeError A
  of_result (ok a) = pure a
  of_result (err e) = raise e

  -- transmit after the lifetime is known
  unfoldable pub store_and_start : SendNotifyProp → ℤ → M CodeError SendResult
  unfolding resolve_expire_time store
  store_and_start prop ttl = do
    row ← or_raise (new_code_error internal_error "发送的通知新增记录和状态失败") (transaction env (store prop))
    start (send_notify row)
    pure (record {
      notify_id = env.uuid_string row.notify_id;
      expire_time = resolve_expire_time ttl;
      ttl_seconds = ttl;
    })

  unfoldable pub transmit : SendNotifyProp → M CodeError SendResult
  unfolding validate_send_prop resolve_ttl_seconds store_and_start
  transmit prop =
      check (validate_send_prop prop)
        (of_result (resolve_ttl_seconds prop) >>= store_and_start prop)

  unfoldable pub send_to_user : SendNotifyProp → M CodeError SendResult
  unfolding transmit
  send_to_user prop = transmit (record prop { target_type = target_single })

  unfoldable pub send_to_users : SendNotifyProp → M CodeError SendResult
  unfolding transmit
  send_to_users prop = transmit (record prop { target_type = target_multiple })

  unfoldable pub send_to_all : SendNotifyProp → M CodeError SendResult
  unfolding transmit
  send_to_all prop = transmit (record prop { target_type = target_broadcast })
