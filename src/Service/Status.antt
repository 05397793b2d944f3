-- ===== src/Service/Status.antt =====
-- internal/service/status.go: reading and deleting, one notification or all of them.
pub mod Access
pub mod Update
pub mod Batch
pub mod Tests
use bs_notify_hub.Prelude.{
  ℕ, String, Bool, true, false, ◌||◌, Option, none, some, List, [], ◌∷◌, same, string_key,
  if◌then◌else◌,
}
use bs_notify_hub.Prelude.Int.{pos}
use bs_notify_hub.Constant.{
  Status, read, deleted, NotifyCategory, category_user, category_tenant, is_sender_user,
}
use bs_notify_hub.Dispatch.Message.{is_broadcast}
use bs_notify_hub.Model.{NotifyRecord}
use bs_notify_hub.Response.{
  CodeError, new_code_error, bad_request, forbidden, not_found, internal_error,
}
use bs_notify_hub.World.{
  Env, DbError, record_not_found, Result, ok, err, M, ◌>>=◌, ◌>>◌, pure, raise, or_raise,
  transaction, start, once_op, batch_op,
}
use bs_notify_hub.Repository.Record
use bs_notify_hub.Repository.Status
use bs_notify_hub.Repository.Watermark
use bs_notify_hub.Logic.Unread
use bs_notify_hub.Logic.Sender

unfoldable pub contains_user : List String → String → Bool
contains_user [] target = false
contains_user (u ∷ us) target =
    let rest = contains_user us target in if same u target then true else rest

-- the last two tests of validateNotifyAccess
unfoldable pub may_operate : NotifyRecord → String → String → Bool
unfolding contains_user
may_operate r user tenant =
    if same r.tenant_id tenant
    then (if is_broadcast r.target_type then true else contains_user r.target_ids user)
    else false

module _ (env : Env) where
  abbrev pub find_error : DbError → CodeError
  find_error record_not_found = new_code_error not_found "通知不存在"
  find_error _ = new_code_error internal_error "查询通知失败"

  abbrev pub found : Result DbError NotifyRecord → M CodeError NotifyRecord
  found (ok r) = pure r
  found (err e) = raise (find_error e)

  abbrev pub find_record : String → M CodeError NotifyRecord
  find_record id w = let (r, w') = Record.find_by_id env id w in found r w'

  abbrev pub has_uuid : Option ℕ → Bool
  has_uuid none = false
  has_uuid (some id) = true

  -- the last two tests of validateNotifyAccess, on the record that was found
  unfoldable pub allowed : String → String → NotifyRecord → M CodeError NotifyRecord
  unfolding may_operate
  allowed user tenant r =
      if may_operate r user tenant then pure r else raise (new_code_error forbidden "无权操作该通知")

  unfoldable pub validate_notify_access : String → String → String → M CodeError NotifyRecord
  unfolding allowed
  validate_notify_access id user tenant =
      if same id "" || same user "" || same tenant ""
      then raise (new_code_error bad_request "notifyId/userId/tenantId 必填")
      else if has_uuid (env.uuid_parse id)
      then (do r ← find_record id; allowed user tenant r)
      else raise (new_code_error bad_request "notifyId 格式不正确")

  -- execStatusUpdate after the access check
  unfoldable pub update_found : String → Status → NotifyRecord → M CodeError (Unit {0})
  update_found user next r = do
    or_raise (new_code_error internal_error "更新通知状态失败")
        (Status.upsert_by_user_and_notify env user r.notify_id next)
    start (once_op r user)

  unfoldable pub exec_status_update : String → String → String → Status → M CodeError (Unit {0})
  unfolding validate_notify_access update_found
  exec_status_update id user tenant next = do
    r ← validate_notify_access id user tenant
    update_found user next r

  unfoldable pub mark_read : String → String → String → M CodeError (Unit {0})
  unfolding exec_status_update
  mark_read id user tenant = exec_status_update id user tenant read

  unfoldable pub delete_notify : String → String → String → M CodeError (Unit {0})
  unfolding exec_status_update
  delete_notify id user tenant = exec_status_update id user tenant deleted

  unfoldable pub user_batch_mark_read : String → String → M CodeError (Unit {0})
  user_batch_mark_read user tenant = do
    or_raise (new_code_error internal_error "批量更新通知已读状态失败")
        (Status.batch_mark_read_by_user env user tenant)
    start (batch_op user tenant category_user)

  unfoldable pub tenant_batch_mark_read : String → String → M CodeError (Unit {0})
  tenant_batch_mark_read user tenant = do
    or_raise (new_code_error internal_error "更新用户通知已读状态和水位线失败") (
        transaction env do
          Watermark.upsert_tenant_read_at env tenant user env.now
          Status.batch_mark_tenant_non_broadcast_read_by_user env user tenant)
    start (batch_op user tenant category_tenant)

  unfoldable pub user_batch_delete : String → String → M CodeError (Unit {0})
  user_batch_delete user tenant = do
    or_raise (new_code_error internal_error "批量更新通知已删除状态失败")
        (Status.batch_mark_delete_user_notify_by_user env user tenant)
    start (batch_op user tenant category_user)

  -- It calls the user's BatchMarkDeleteUserNotifyByUser.
  unfoldable pub tenant_batch_delete : String → String → M CodeError (Unit {0})
  tenant_batch_delete user tenant = do
    or_raise (new_code_error internal_error "批量更新通知已删除状态和水位线失败") (
        transaction env do
          Watermark.upsert_tenant_clear_at env tenant user env.now
          Status.batch_mark_delete_user_notify_by_user env user tenant)
    start (batch_op user tenant category_tenant)

  -- the body of asyncUpdateBatchOpCacheAndSend's goroutine
  unfoldable pub batch_op_cache_and_send : String → String → NotifyCategory → M DbError (Unit {0})
  batch_op_cache_and_send user tenant category_tenant = do
    size ← Unread.sync_tenant_broadcast_cache_to_op env tenant user
    Sender.push_tenant_unread env tenant user
  batch_op_cache_and_send user tenant category_user = do
    Unread.clear_person_unread env tenant user
    Sender.send_personal_unread env tenant user (pos 0)

  -- the body of asyncUpdateOnceOpCacheAndSend's goroutine
  unfoldable pub once_op_cache_and_send : NotifyRecord → String → M DbError (Unit {0})
  once_op_cache_and_send r user =
      if is_broadcast r.target_type
      then (do
        added ← Unread.mark_user_broadcast_op env r.tenant_id user (env.uuid_string r.notify_id)
        Sender.push_tenant_unread env r.tenant_id user)
      else if is_sender_user r.sender_type
      then (do
        n ← Unread.decr_personal_unread env r.tenant_id user
        Sender.send_personal_unread env r.tenant_id user n)
      else (do
        n ← Unread.decr_tenant_unread env r.tenant_id user
        Sender.send_tenant_unread env r.tenant_id user n)
