-- ===== src/Handler/Valid.antt =====
-- The checks that BindAndValidate makes by the `vd` tags of internal/dto. That of senderType compares
-- a number with a text, which differ, and always holds.
use bs_notify_hub.Prelude.{
  String, Bool, false, not, ◌&&◌, ◌||◌, Option, none, some, same, string_key, ltb, length, ◌==◌,
  if◌then◌else◌,
}
use bs_notify_hub.Prelude.Int.{ℤ, pos, negsuc, leb_ℤ, ltb_ℤ}
use bs_notify_hub.Service.Inbox.{InboxPageReq}
use bs_notify_hub.Handler.Sender.{BaseSendReq, SendToUserReq, SendToUsersReq, SendToAllReq}
use bs_notify_hub.Handler.Status.{
  OperateNotifyStatusReq, BatchOperateNotifyStatusReq, is_tenant_kind,
}
use bs_notify_hub.Handler.Hub.{ApplyTicketReq}

-- $!=''
abbrev pub is_set : String → Bool
is_set s = not (same s "")

unfoldable pub valid_base : BaseSendReq → Bool
valid_base b =
    is_set b.tenant_id
    && is_set b.title
    && is_set b.content
    && is_set b.sender_id
    && is_set b.event_type

unfoldable pub valid_to_user : SendToUserReq → Bool
unfolding valid_base
valid_to_user r = valid_base r.base && is_set r.user_id

unfoldable pub valid_to_users : SendToUsersReq → Bool
unfolding valid_base
valid_to_users r = valid_base r.base && ltb 0 (length r.user_ids)

unfoldable pub valid_to_all : SendToAllReq → Bool
unfolding valid_base
valid_to_all r = valid_base r.base

unfoldable pub valid_page : InboxPageReq → Bool
valid_page r =
    is_set r.tenant_id
    && is_set r.user_id
    && ltb_ℤ (pos 0) r.page_index
    && ltb_ℤ (pos 0) r.page_size
    && leb_ℤ r.page_size (pos 100)

unfoldable pub valid_operate : OperateNotifyStatusReq → Bool
valid_operate r = is_set r.tenant_id && is_set r.notify_id && is_set r.user_id

abbrev pub is_user_kind : ℤ → Bool
is_user_kind (pos n) = n == 0
is_user_kind (negsuc n) = false

unfoldable pub valid_batch : BatchOperateNotifyStatusReq → Bool
valid_batch r =
    is_set r.tenant_id && is_set r.user_id && (is_user_kind r.kind || is_tenant_kind r.kind)

unfoldable pub valid_ticket : ApplyTicketReq → Bool
valid_ticket r = is_set r.tenant && is_set r.user_id

-- What BindAndValidate gives the handler of a body that was read, or `none` for its error.
abbrev pub validated {ℓ} : {A : Type ℓ} → (A → Bool) → Option A → Option A
validated valid none = none
validated valid (some a) = if valid a then some a else none
