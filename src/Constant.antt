-- ===== src/Constant.antt =====
-- internal/constant/app.go and WrapKey of pkg/redis/redis.go: the constants and the Redis keys.
pub mod Keys
pub mod Tests
use Prim.Native.String.{◌++◌}
use bs_notify_hub.Prelude.{String, Bool, true, false}

-- SenderTypeUser and SenderTypeTenant, int8 constants 0 and 1. Any other value is `other_sender`.
pub data SenderType : Type 0 where
  sender_user sender_tenant other_sender : SenderType

abbrev pub is_sender_tenant : SenderType → Bool
is_sender_tenant sender_tenant = true
is_sender_tenant _ = false

abbrev pub is_sender_user : SenderType → Bool
is_sender_user sender_user = true
is_sender_user _ = false

pub data NotifyCategory : Type 0 where
  category_user category_tenant : NotifyCategory

-- NotifyStatusUnread, NotifyStatusRead and NotifyStatusDeleted: 0, 1 and 2.
pub data Status : Type 0 where
  unread read deleted : Status

abbrev pub is_unread : Status → Bool
is_unread unread = true
is_unread _ = false

abbrev pub is_read : Status → Bool
is_read read = true
is_read _ = false

abbrev pub is_deleted : Status → Bool
is_deleted deleted = true
is_deleted _ = false

abbrev pub key_unread_personal_prefix : String
key_unread_personal_prefix = "unread:personal"

abbrev pub key_unread_tenant_prefix : String
key_unread_tenant_prefix = "unread:tenant"

abbrev pub key_broadcast_total_prefix : String
key_broadcast_total_prefix = "broadcast:total"

abbrev pub key_broadcast_op_prefix : String
key_broadcast_op_prefix = "broadcast:op"

abbrev pub space_prefix : String
space_prefix = "bs-notify-hub:"

unfoldable pub wrap_key : String → String
wrap_key key = space_prefix ++ key

-- fmt.Sprintf("%s:%s:%s", …) and fmt.Sprintf("%s:%s", …)
abbrev pub colon2 : String → String → String
colon2 a b = a ++ (":" ++ b)

abbrev pub colon3 : String → String → String → String
colon3 a b c = a ++ (":" ++ (b ++ (":" ++ c)))

unfoldable pub get_unread_personal_key : String → String → String
unfolding wrap_key
get_unread_personal_key tenant user = wrap_key (colon3 key_unread_personal_prefix tenant user)

unfoldable pub get_unread_tenant_key : String → String → String
unfolding wrap_key
get_unread_tenant_key tenant user = wrap_key (colon3 key_unread_tenant_prefix tenant user)

unfoldable pub get_broadcast_total_key : String → String
unfolding wrap_key
get_broadcast_total_key tenant = wrap_key (colon2 key_broadcast_total_prefix tenant)

unfoldable pub get_broadcast_op_key : String → String → String
unfolding wrap_key
get_broadcast_op_key tenant user = wrap_key (colon3 key_broadcast_op_prefix tenant user)
