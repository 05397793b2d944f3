-- ===== src/Constant/Tests.antt =====
-- The Redis keys of internal/constant/app.go at concrete ids.
use bs_notify_hub.Prelude.{String, ◌≡◌, ◌↔◌, refl}
use bs_notify_hub.Constant.{get_unread_personal_key, get_unread_tenant_key, get_broadcast_op_key}
use bs_notify_hub.Constant.Keys.{unread_personal_key_collision, user_keys_injective}

abbrev tenant : String
tenant = "acme"

abbrev other : String
other = "umbrella"

abbrev user : String
user = "7"

personal_key : get_unread_personal_key "acme" "7" ≡ "bs-notify-hub:unread:personal:acme:7"
unfolding get_unread_personal_key
personal_key = refl

colliding_keys : get_unread_personal_key "a:b" "c" ≡ get_unread_personal_key "a" "b:c"
colliding_keys = unread_personal_key_collision "a" "b" "c"

user_keys_injective_example :
    ((get_unread_personal_key tenant user ≡ get_unread_personal_key other user)
      ↔ ((tenant ≡ other) × (user ≡ user)))
    × ((get_unread_tenant_key tenant user ≡ get_unread_tenant_key other user)
        ↔ ((tenant ≡ other) × (user ≡ user)))
    × ((get_broadcast_op_key tenant user ≡ get_broadcast_op_key other user)
        ↔ ((tenant ≡ other) × (user ≡ user)))
user_keys_injective_example = user_keys_injective tenant user other user refl refl
