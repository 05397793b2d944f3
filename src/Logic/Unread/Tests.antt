-- ===== src/Logic/Unread/Tests.antt =====
-- Unread counts of internal/logic/unread.go at a small cache.
use bs_notify_hub.Prelude.Map
use bs_notify_hub.Prelude.{
  String, ◌≡◌, true, false, refl, some, List, [], ◌∷◌, string_key, String-discrete,
}
use bs_notify_hub.Prelude.Int.{pos, ◌+ℤ◌}
use bs_notify_hub.Constant.{
  get_unread_personal_key, get_unread_tenant_key, get_broadcast_total_key, get_broadcast_op_key,
}
use bs_notify_hub.World.{World, ok, no_failure}
use bs_notify_hub.World.Samples.{quiet_env, empty_world}
use bs_notify_hub.Repository.UnreadCache.Sets.{NoRepeat}
use bs_notify_hub.Repository.UnreadCache
use bs_notify_hub.Repository.UnreadCache.{
  counter_at, set_at, diff_count, inter_card, set_add, set_add_all, is_member,
}
use bs_notify_hub.Logic.Unread.{
  FullUnread, get_personal_unread, get_tenant_unread, batch_get_full_unread,
  sync_tenant_broadcast_cache_to_op, mark_user_broadcast_op,
}
use bs_notify_hub.Logic.Unread.Counts.{
  get_tenant_unread-sync, get_tenant_unread-mark, get_tenant_unread-mark_again,
  batch_get_full_unread-get,
}

abbrev tenant : String
tenant = "acme"

abbrev user : String
user = "7"

abbrev broadcast : String
broadcast = "b"

-- One broadcast that the user has not read, and three personal notifications.
abbrev one_broadcast : World
one_broadcast = record empty_world {
  cache = record {
    counters = (get_unread_personal_key tenant user, pos 3) ∷ [];
    sets = (get_broadcast_total_key tenant, broadcast ∷ []) ∷ [];
  };
}

get_tenant_unread-sync_example :
    (get_tenant_unread
      (no_failure quiet_env)
      tenant
      user
      (sync_tenant_broadcast_cache_to_op (no_failure quiet_env) tenant user one_broadcast).1).0
    ≡ ok (counter_at (get_unread_tenant_key tenant user) one_broadcast.cache)
get_tenant_unread-sync_example = get_tenant_unread-sync quiet_env tenant user one_broadcast

once : NoRepeat (set_at (get_broadcast_total_key tenant) one_broadcast.cache)
unfolding get_broadcast_total_key Map.get is_member String-discrete
once = (refl, tt)

listed : is_member broadcast (set_at (get_broadcast_total_key tenant) one_broadcast.cache) ≡ true
unfolding get_broadcast_total_key Map.get is_member String-discrete
listed = refl

not_yet :
    is_member broadcast (set_at (get_broadcast_op_key tenant user) one_broadcast.cache) ≡ false
unfolding get_broadcast_total_key get_broadcast_op_key Map.get is_member String-discrete
not_yet = refl

marked_count :
    (get_tenant_unread
      (no_failure quiet_env)
      tenant
      user
      (mark_user_broadcast_op (no_failure quiet_env) tenant user broadcast one_broadcast).1).0
    ≡ ok (pos 0)
unfolding get_tenant_unread mark_user_broadcast_op UnreadCache.s_add UnreadCache.get
    UnreadCache.s_diff_count set_add diff_count ◌+ℤ◌ get_unread_tenant_key get_broadcast_total_key
    get_broadcast_op_key get_unread_personal_key Map.get Map.put Map.remove is_member
    String-discrete inter_card
marked_count = refl

get_tenant_unread-mark_example :
    (get_tenant_unread (no_failure quiet_env) tenant user one_broadcast).0 ≡ ok (pos 0 +ℤ pos 1)
get_tenant_unread-mark_example =
    get_tenant_unread-mark quiet_env tenant user broadcast one_broadcast (pos 0) once listed not_yet
      marked_count

-- A user who has read the broadcast.
abbrev one_read : World
one_read = record empty_world {
  cache = record {
    counters = [];
    sets =
        (get_broadcast_total_key tenant, broadcast ∷ [])
        ∷ (get_broadcast_op_key tenant user, broadcast ∷ [])
        ∷ [];
  };
}

read_already : is_member broadcast (set_at (get_broadcast_op_key tenant user) one_read.cache) ≡ true
unfolding get_broadcast_total_key get_broadcast_op_key Map.get is_member String-discrete
read_already = refl

get_tenant_unread-mark_again_example :
    (get_tenant_unread
      (no_failure quiet_env)
      tenant
      user
      (mark_user_broadcast_op (no_failure quiet_env) tenant user broadcast one_read).1).0
    ≡ (get_tenant_unread (no_failure quiet_env) tenant user one_read).0
get_tenant_unread-mark_again_example =
    get_tenant_unread-mark_again quiet_env tenant user broadcast one_read read_already

user_listed : is_member user (user ∷ []) ≡ true
unfolding is_member String-discrete
user_listed = refl

batch_get_full_unread-get_example :
    (m : List (String × FullUnread)) × (n : FullUnread) × ((batch_get_full_unread
        (no_failure quiet_env)
        tenant
        (user ∷ [])
        one_broadcast).0
      ≡ ok m)
    × (Map.get user m ≡ some n)
    × ((get_personal_unread (no_failure quiet_env) tenant user one_broadcast).0 ≡ ok n.personal)
    × ((get_tenant_unread (no_failure quiet_env) tenant user one_broadcast).0 ≡ ok n.tenant)
batch_get_full_unread-get_example =
    batch_get_full_unread-get quiet_env tenant user user [] one_broadcast user_listed
