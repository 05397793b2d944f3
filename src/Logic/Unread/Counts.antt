-- ===== src/Logic/Unread/Counts.antt =====
-- What a user's unread counts of internal/logic/unread.go are.
use bs_notify_hub.Prelude.Map
use bs_notify_hub.Prelude.{
  ◌≡◌, ◌⊎◌, refl, ap, ◌∙◌, true, false, some, List, [], ◌∷◌, String, same, string_key, same_iff,
  arith, Bool-cases, inl, inr,
}
use bs_notify_hub.Prelude.Int.{ℤ, pos, negsuc, ◌+ℤ◌}
use bs_notify_hub.Constant.{
  get_unread_personal_key, get_unread_tenant_key, get_broadcast_total_key, get_broadcast_op_key,
}
use bs_notify_hub.Constant.Keys.{keys_apart}
use bs_notify_hub.World.{World, Cache, Env, ok, no_failure}
use bs_notify_hub.Repository.UnreadCache
use bs_notify_hub.Repository.UnreadCache.{
  counter_at, set_at, set_add, set_add_all, diff_count, inter_card, decr_floor, unread_pairs,
  is_member,
}
use bs_notify_hub.Repository.UnreadCache.Sets.{NoRepeat, diff_count-set_add_all, diff_count-set_add}
use bs_notify_hub.Logic.Unread.{
  FullUnread, full_keys, full_results, get_personal_unread, get_tenant_unread,
  batch_get_full_unread, sync_tenant_broadcast_cache_to_op, mark_user_broadcast_op,
}

-- The tenant part of a user's count: the counter, and the broadcasts that the user has not operated on.
abbrev pub tenant_unread_of : String → String → Cache → ℤ
tenant_unread_of tenant user c =
    counter_at (get_unread_tenant_key tenant user) c
    +ℤ pos (
        diff_count (set_at (get_broadcast_total_key tenant) c)
          (set_at (get_broadcast_op_key tenant user) c))

get_tenant_unread_lem :
    (env : Env) (tenant user : String) (w : World)
    → (get_tenant_unread (no_failure env) tenant user w).0
      ≡ ok (tenant_unread_of tenant user w.cache)
unfolding get_tenant_unread UnreadCache.get UnreadCache.s_diff_count
get_tenant_unread_lem env tenant user w = refl

+ℤ-zero : (n : ℤ) → n +ℤ pos 0 ≡ n
unfolding ◌+ℤ◌
+ℤ-zero (pos n) = ground arith
+ℤ-zero (negsuc n) = ground arith

pub total-ne-op :
    (tenant t user : String)
    → same (get_broadcast_op_key tenant user) (get_broadcast_total_key t) ≡ false
total-ne-op tenant t user =
    let (a, b, c, d, e, f) = keys_apart tenant user t user in
    ground (arith, same_iff (get_broadcast_op_key tenant user) (get_broadcast_total_key t), f)

-- If no call fails: after the union of all the tenant's broadcasts into the user's set, the
-- broadcasts count nothing, and the tenant's count is the counter alone.
pub get_tenant_unread-sync :
    (env : Env) (tenant user : String) (w : World)
    → (get_tenant_unread
        (no_failure env)
        tenant
        user
        (sync_tenant_broadcast_cache_to_op (no_failure env) tenant user w).1).0
      ≡ ok (counter_at (get_unread_tenant_key tenant user) w.cache)
unfolding sync_tenant_broadcast_cache_to_op UnreadCache.sync_tenant_broadcast_to_op
    get_tenant_unread UnreadCache.get UnreadCache.s_diff_count
get_tenant_unread-sync env tenant user w =
    let t = get_broadcast_total_key tenant in
    let o = get_broadcast_op_key tenant user in
    let xs = set_add_all (set_at t w.cache) (set_at o w.cache) in
    ground (
      arith,
      Map.get-put o t xs w.cache.sets,
      Map.get-put o o xs w.cache.sets,
      total-ne-op tenant tenant user,
      same_iff o o,
      diff_count-set_add_all (set_at t w.cache) (set_at o w.cache),
      +ℤ-zero (counter_at (get_unread_tenant_key tenant user) w.cache),
    )

-- If no call fails: the first time a user reads or deletes a broadcast that the tenant's set
-- lists, the tenant's count falls by one.
pub get_tenant_unread-mark :
    (env : Env) (tenant user notify_id : String) (w : World) (n : ℤ)
    → NoRepeat (set_at (get_broadcast_total_key tenant) w.cache)
    → is_member notify_id (set_at (get_broadcast_total_key tenant) w.cache) ≡ true
    → is_member notify_id (set_at (get_broadcast_op_key tenant user) w.cache) ≡ false
    → (get_tenant_unread
        (no_failure env)
        tenant
        user
        (mark_user_broadcast_op (no_failure env) tenant user notify_id w).1).0
      ≡ ok n
    → (get_tenant_unread (no_failure env) tenant user w).0 ≡ ok (n +ℤ pos 1)
unfolding mark_user_broadcast_op UnreadCache.s_add get_tenant_unread UnreadCache.get
    UnreadCache.s_diff_count ◌+ℤ◌
get_tenant_unread-mark env tenant user id w n d h k e =
    let t = get_broadcast_total_key tenant in
    let o = get_broadcast_op_key tenant user in
    let xs = set_add id (set_at o w.cache) in
    ground (
      arith,
      Map.get-put o t xs w.cache.sets,
      Map.get-put o o xs w.cache.sets,
      total-ne-op tenant tenant user,
      same_iff o o,
      diff_count-set_add id (set_at t w.cache) (set_at o w.cache) d h k,
      e,
    )

-- If no call fails: marking a broadcast that the user has marked before leaves the tenant's
-- count as it is.
pub get_tenant_unread-mark_again :
    (env : Env) (tenant user notify_id : String) (w : World)
    → is_member notify_id (set_at (get_broadcast_op_key tenant user) w.cache) ≡ true
    → (get_tenant_unread
        (no_failure env)
        tenant
        user
        (mark_user_broadcast_op (no_failure env) tenant user notify_id w).1).0
      ≡ (get_tenant_unread (no_failure env) tenant user w).0
unfolding mark_user_broadcast_op UnreadCache.s_add get_tenant_unread UnreadCache.get
    UnreadCache.s_diff_count set_add
get_tenant_unread-mark_again env tenant user id w h =
    let t = get_broadcast_total_key tenant in
    let o = get_broadcast_op_key tenant user in
    let xs = set_add id (set_at o w.cache) in
    ground (
      arith,
      Map.get-put o t xs w.cache.sets,
      Map.get-put o o xs w.cache.sets,
      total-ne-op tenant tenant user,
      same_iff o o,
    )

abbrev unread_of : String → String → Cache → FullUnread
unread_of tenant user c = record {
  personal = counter_at (get_unread_personal_key tenant user) c;
  tenant = tenant_unread_of tenant user c;
}

unread_pairs_lem :
    (tenant user : String) (rest : List String) (c : Cache)
    → let total = set_at (get_broadcast_total_key tenant) c in
      unread_pairs total
        (get_unread_personal_key tenant user
          ∷ get_unread_tenant_key tenant user
          ∷ get_broadcast_op_key tenant user
          ∷ rest)
        c
      ≡ counter_at (get_unread_personal_key tenant user) c
        ∷ tenant_unread_of tenant user c
        ∷ unread_pairs total rest c
unfolding unread_pairs diff_count inter_card
unread_pairs_lem tenant user rest c = ground arith

batch-get :
    (tenant user : String) (uids : List String) (c : Cache) (m : List (String × FullUnread))
    → ((is_member user uids ≡ true) ⊎ (Map.get user m ≡ some (unread_of tenant user c)))
    → Map.get user (
        full_results uids
          (unread_pairs (set_at (get_broadcast_total_key tenant) c) (full_keys tenant uids) c)
          m)
      ≡ some (unread_of tenant user c)
unfolding full_results full_keys is_member
batch-get tenant user [] c m (inl h) = cc h
batch-get tenant user [] c m (inr h) = h
batch-get tenant user (u ∷ uids) c m h =
    rw (unread_pairs_lem tenant u (full_keys tenant uids) c, full_results)
      (batch-get tenant user uids c (Map.put u (unread_of tenant u c) m)
        (elim (Bool-cases (same u user)) [
          | inl e ↦
              let q = (same_iff u user).0 e in
              inr (
                Map.get-put u user (unread_of tenant u c) m
                ∙ rw e (ap (λ v. some (unread_of tenant v c)) q))
          | inr e ↦ elim h [
            | inl k ↦ inl (ground arith)
            | inr k ↦ inr (Map.get-put u user (unread_of tenant u c) m ∙ rw e k)
          ]
        ]))

-- If no call fails: what the script answers for each user of a batch is what the two single
-- reads answer.
pub batch_get_full_unread-get :
    (env : Env) (tenant user u : String) (uids : List String) (w : World)
    → is_member user (u ∷ uids) ≡ true
    → (m : List (String × FullUnread)) × (n : FullUnread) × ((batch_get_full_unread
          (no_failure env)
          tenant
          (u ∷ uids)
          w).0
        ≡ ok m)
      × (Map.get user m ≡ some n)
      × ((get_personal_unread (no_failure env) tenant user w).0 ≡ ok n.personal)
      × ((get_tenant_unread (no_failure env) tenant user w).0 ≡ ok n.tenant)
unfolding batch_get_full_unread UnreadCache.batch_get_unread_dual get_personal_unread
    get_tenant_unread UnreadCache.get UnreadCache.s_diff_count
batch_get_full_unread-get env tenant user u uids w h = (
  full_results (u ∷ uids)
      (unread_pairs (set_at (get_broadcast_total_key tenant) w.cache) (full_keys tenant (u ∷ uids))
        w.cache)
      [],
  unread_of tenant user w.cache,
  refl,
  batch-get tenant user (u ∷ uids) w.cache [] (inl h),
  refl,
  refl,
)
