-- ===== src/Logic/Unread.antt =====
-- internal/logic/unread.go. A singleflight group runs one call at a time here.
pub mod Counts
pub mod Tests
use bs_notify_hub.Prelude.Map
use bs_notify_hub.Prelude.{
  ℕ, String, Option, none, some, List, [], ◌∷◌, string_key, map, if◌then◌else◌, ◌==◌,
}
use bs_notify_hub.Prelude.Int.{ℤ, pos, ◌+ℤ◌}
use bs_notify_hub.Constant.{
  SenderType, is_sender_tenant, get_unread_personal_key, get_unread_tenant_key,
  get_broadcast_total_key, get_broadcast_op_key,
}
use bs_notify_hub.World.{Env, DbError, Result, ok, err, M, ◌>>=◌, ◌>>◌, pure}
use bs_notify_hub.Repository.UnreadDb
use bs_notify_hub.Repository.UnreadCache

abbrev pub key_of : SenderType → String → String → String
key_of by tenant user =
    if is_sender_tenant by
    then get_unread_tenant_key tenant user
    else get_unread_personal_key tenant user

-- counts[uid], 0 if it is missing
abbrev pub count_or_zero : Option ℕ → ℤ
count_or_zero none = pos 0
count_or_zero (some n) = pos n

-- the loop that fills `kv`
unfoldable pub counts_by_key :
    SenderType → String → List (String × ℕ) → List String → List (String × ℤ)
counts_by_key by tenant counts [] = []
counts_by_key by tenant counts (uid ∷ uids) =
    Map.put (key_of by tenant uid) (count_or_zero (Map.get uid counts))
      (counts_by_key by tenant counts uids)

pub record FullUnread : Type 0 where
  pub personal : ℤ
  pub tenant : ℤ

-- the loop that fills `allKeys`
unfoldable pub full_keys : String → List String → List String
full_keys tenant [] = []
full_keys tenant (uid ∷ uids) =
    get_unread_personal_key tenant uid
    ∷ get_unread_tenant_key tenant uid
    ∷ get_broadcast_op_key tenant uid
    ∷ full_keys tenant uids

-- the loop that reads flatRes[i*2] and flatRes[i*2+1]
unfoldable pub full_results :
    List String → List ℤ → List (String × FullUnread) → List (String × FullUnread)
full_results (uid ∷ uids) (p ∷ t ∷ flat) m =
    full_results uids flat (Map.put uid (record { personal = p; tenant = t }) m)
full_results _ _ m = m

module _ (env : Env) where
  unfoldable pub reconcile_personal_unread : String → String → M DbError (Unit {0})
  reconcile_personal_unread tenant user = do
    n ← UnreadDb.count_unread_user env tenant user
    UnreadCache.set env (get_unread_personal_key tenant user) (pos n)

  unfoldable pub reconcile_tenant_unread : String → String → M DbError (Unit {0})
  reconcile_tenant_unread tenant user = do
    op_ids ← UnreadDb.get_broadcast_op_ids env tenant user
    n ← UnreadDb.count_unread_tenant env tenant user
    UnreadCache.set env (get_unread_tenant_key tenant user) (pos n)
    UnreadCache.safe_replace_set env (get_broadcast_op_key tenant user) op_ids

  unfoldable pub reconcile_tenant_broadcast_total : String → M DbError (Unit {0})
  reconcile_tenant_broadcast_total tenant = do
    total_ids ← UnreadDb.count_broadcast_total_by_tenant env tenant
    UnreadCache.safe_replace_set env (get_broadcast_total_key tenant) total_ids

  abbrev pub batch_count_by : SenderType → String → List String → M DbError (List (String × ℕ))
  batch_count_by by tenant uids =
      if is_sender_tenant by
      then UnreadDb.batch_count_unread_tenant env tenant uids
      else UnreadDb.batch_count_unread_user env tenant uids

  unfoldable pub batch_reconcile_users : String → List String → SenderType → M DbError (Unit {0})
  unfolding counts_by_key
  batch_reconcile_users tenant [] by = pure tt
  batch_reconcile_users tenant (uid ∷ uids) by = do
    counts ← batch_count_by by tenant (uid ∷ uids)
    UnreadCache.batch_set_pipeline env (counts_by_key by tenant counts (uid ∷ uids))

  unfoldable pub incr_personal_unread : String → String → M DbError (Unit {0})
  incr_personal_unread tenant user = UnreadCache.incr env (get_unread_personal_key tenant user)

  unfoldable pub decr_personal_unread : String → String → M DbError ℤ
  decr_personal_unread tenant user =
      UnreadCache.decr_with_floor env (get_unread_personal_key tenant user)

  unfoldable pub sync_tenant_broadcast_cache_to_op : String → String → M DbError ℕ
  sync_tenant_broadcast_cache_to_op tenant user =
      UnreadCache.sync_tenant_broadcast_to_op env (get_broadcast_total_key tenant)
        (get_broadcast_op_key tenant user)

  unfoldable pub clear_person_unread : String → String → M DbError (Unit {0})
  clear_person_unread tenant user =
      UnreadCache.set env (get_unread_personal_key tenant user) (pos 0)

  unfoldable pub incr_tenant_unread : String → String → M DbError (Unit {0})
  incr_tenant_unread tenant user = UnreadCache.incr env (get_unread_tenant_key tenant user)

  unfoldable pub decr_tenant_unread : String → String → M DbError ℤ
  decr_tenant_unread tenant user =
      UnreadCache.decr_with_floor env (get_unread_tenant_key tenant user)

  -- The error of SCard is dropped, and its count is then 0.
  abbrev pub card_or_zero : Result DbError ℕ → ℕ
  card_or_zero (ok n) = n
  card_or_zero (err e) = 0

  abbrev pub s_card_or_zero : String → M DbError ℕ
  s_card_or_zero key w = let (r, w') = UnreadCache.s_card env key w in (ok (card_or_zero r), w')

  abbrev pub reconcile_if_first : String → ℕ → M DbError (Unit {0})
  reconcile_if_first tenant count =
      if count == 1 then reconcile_tenant_broadcast_total tenant else pure tt

  unfoldable pub tenant_broadcast_incr : String → String → M DbError ℕ
  unfolding reconcile_tenant_broadcast_total
  tenant_broadcast_incr tenant notify_id = do
    added ← UnreadCache.s_add env (get_broadcast_total_key tenant) notify_id
    count ← s_card_or_zero (get_broadcast_total_key tenant)
    reconcile_if_first tenant count
    pure count

  unfoldable pub mark_user_broadcast_op : String → String → String → M DbError ℕ
  mark_user_broadcast_op tenant user notify_id =
      UnreadCache.s_add env (get_broadcast_op_key tenant user) notify_id

  -- The keys that were missing are collected and not used: every user is counted anew.
  unfoldable pub batch_incr_user_unread : String → List String → SenderType → M DbError (Unit {0})
  unfolding batch_reconcile_users
  batch_incr_user_unread tenant [] by = pure tt
  batch_incr_user_unread tenant (uid ∷ uids) by = do
    results ← UnreadCache.batch_incr_if_exist env (map (key_of by tenant) (uid ∷ uids))
    batch_reconcile_users tenant (uid ∷ uids) by

  unfoldable pub get_personal_unread : String → String → M DbError ℤ
  get_personal_unread tenant user = UnreadCache.get env (get_unread_personal_key tenant user)

  unfoldable pub get_tenant_unread : String → String → M DbError ℤ
  get_tenant_unread tenant user = do
    n ← UnreadCache.get env (get_unread_tenant_key tenant user)
    b ←
        UnreadCache.s_diff_count env (get_broadcast_total_key tenant)
          (get_broadcast_op_key tenant user)
    pure (n +ℤ pos b)

  unfoldable pub batch_get_full_unread :
      String → List String → M DbError (List (String × FullUnread))
  unfolding full_keys full_results
  batch_get_full_unread tenant [] = pure []
  batch_get_full_unread tenant (uid ∷ uids) = do
    flat ←
        UnreadCache.batch_get_unread_dual env (get_broadcast_total_key tenant)
          (full_keys tenant (uid ∷ uids))
    pure (full_results (uid ∷ uids) flat [])

  abbrev pub full_or_zero : Option FullUnread → FullUnread
  full_or_zero none = record { personal = pos 0; tenant = pos 0 }
  full_or_zero (some u) = u

  unfoldable pub get_full_unread : String → String → M DbError FullUnread
  unfolding batch_get_full_unread
  get_full_unread tenant user = do
    res ← batch_get_full_unread tenant (user ∷ [])
    pure (full_or_zero (Map.get user res))
