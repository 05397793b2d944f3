-- ===== src/Repository/UnreadDb.antt =====
-- internal/repository/unread_db.go: the unread counts, from the tables.
use bs_notify_hub.Prelude.Map
use bs_notify_hub.Prelude.{
  ℕ, suc, String, Bool, true, false, not, ◌&&◌, ◌||◌, Option, none, some, List, [], ◌∷◌, ◌++◌, same,
  string_key, nat_key, where_, count_where, map, if◌then◌else◌,
}
use bs_notify_hub.Constant.{
  SenderType, is_sender_user, is_sender_tenant, is_unread, is_read, is_deleted,
}
use bs_notify_hub.Dispatch.Message.{is_broadcast}
use bs_notify_hub.Model.{NotifyRecord, NotifyStatus}
use bs_notify_hub.World.{
  Db, Env, DbError, scan_failed, Result, ok, err, M, call, pure, raise, read_db,
}
use bs_notify_hub.Repository.Query.{left_join}

-- WHERE status = unread, which a NULL status fails
abbrev pub has_unread : Option NotifyStatus → Bool
has_unread none = false
has_unread (some s) = is_unread s.status

abbrev pub is_unread_of : String → (SenderType → Bool) → NotifyRecord → Bool
is_unread_of tenant by r =
    same r.tenant_id tenant && by r.sender_type && not (is_broadcast r.target_type)

-- the query of CountUnreadUser and of CountUnreadTenant
unfoldable pub count_unread : (SenderType → Bool) → String → String → Db → ℕ
count_unread by tenant user db =
    count_where (λ j. is_unread_of tenant by j.0 && has_unread j.1)
      (left_join user db.records db.statuses)

-- notify_status JOIN notify_record, for one status row
abbrev pub matches_of : NotifyStatus → List NotifyRecord → List NotifyRecord
matches_of s rs = where_ (λ r. same r.notify_id s.notify_id) rs

abbrev pub is_operated : NotifyStatus → Bool
is_operated s = is_read s.status || is_deleted s.status

unfoldable pub broadcast_op_ids : String → String → List NotifyRecord → List NotifyStatus → List ℕ
broadcast_op_ids tenant user rs [] = []
broadcast_op_ids tenant user rs (s ∷ ss) =
    let rest = broadcast_op_ids tenant user rs ss in
    let found =
      where_ (λ r. same r.tenant_id tenant && is_broadcast r.target_type) (matches_of s rs) in
    if same s.target_user_id user && is_operated s
    then map (λ r. s.notify_id) found ++ rest
    else rest

unfoldable pub broadcast_ids : String → List NotifyRecord → List ℕ
broadcast_ids tenant rs =
    map (λ r. r.notify_id) (where_ (λ r. same r.tenant_id tenant && is_broadcast r.target_type) rs)

unfoldable pub is_among : String → List String → Bool
is_among a [] = false
is_among a (x ∷ xs) = if same x a then true else is_among a xs

-- notify_record JOIN notify_status of the batch counts: the user of each row that is counted
unfoldable pub counted_users_of : List String → NotifyRecord → List NotifyStatus → List String
counted_users_of users r [] = []
counted_users_of users r (s ∷ ss) =
    let rest = counted_users_of users r ss in
    if same s.notify_id r.notify_id && is_among s.target_user_id users && is_unread s.status
    then s.target_user_id ∷ rest
    else rest

unfoldable pub counted_users :
    (NotifyRecord → Bool) → List String → List NotifyRecord → List NotifyStatus → List String
unfolding counted_users_of is_among
counted_users test users [] ss = []
counted_users test users (r ∷ rs) ss =
    let rest = counted_users test users rs ss in
    if test r then counted_users_of users r ss ++ rest else rest

-- GROUP BY target_user_id, COUNT(*)
abbrev pub add_one : Option ℕ → ℕ
add_one none = 1
add_one (some n) = suc n

unfoldable pub group_count : List String → List (String × ℕ)
group_count [] = []
group_count (u ∷ us) = let m = group_count us in Map.put u (add_one (Map.get u m)) m

module _ (env : Env) where
  -- CountUnreadUser and CountUnreadTenant
  unfoldable pub count_unread_user : String → String → M DbError ℕ
  unfolding count_unread
  count_unread_user tenant user = call env (read_db (count_unread is_sender_user tenant user))

  unfoldable pub count_unread_tenant : String → String → M DbError ℕ
  unfolding count_unread
  count_unread_tenant tenant user = call env (read_db (count_unread is_sender_tenant tenant user))

  -- The ids are returned as their texts.
  unfoldable pub get_broadcast_op_ids : String → String → M DbError (List String)
  unfolding broadcast_op_ids
  get_broadcast_op_ids tenant user =
      call env
        (read_db λ db. map env.uuid_string (broadcast_op_ids tenant user db.records db.statuses))

  unfoldable pub count_broadcast_total_by_tenant : String → M DbError (List String)
  unfolding broadcast_ids
  count_broadcast_total_by_tenant tenant =
      call env (read_db λ db. map env.uuid_string (broadcast_ids tenant db.records))

  -- Scan puts the user id into the int64 field UserID, and the map's key is its decimal text.
  unfoldable pub scan_counts : List (String × ℕ) → Result DbError (List (String × ℕ))
  scan_counts [] = ok []
  scan_counts ((user, n) ∷ rest) =
      let r = scan_counts rest in
      elim (env.scan_int64 user) [
        | none ↦ err scan_failed
        | some i ↦ elim r [ ok m ↦ ok (Map.put (env.print_int64 i) n m) | err e ↦ err e ]
      ]

  abbrev pub of_result {ℓ} : {A : Type ℓ} → Result DbError A → M DbError A
  of_result (ok a) = pure a
  of_result (err e) = raise e

  unfoldable pub batch_count :
      (SenderType → Bool) → String → List String → M DbError (List (String × ℕ))
  unfolding counted_users group_count scan_counts
  batch_count by tenant users = call env λ w.
      of_result
        (scan_counts
          (group_count (counted_users (is_unread_of tenant by) users w.records w.statuses)))
        w

  unfoldable pub batch_count_unread_user : String → List String → M DbError (List (String × ℕ))
  unfolding batch_count
  batch_count_unread_user = batch_count is_sender_user

  unfoldable pub batch_count_unread_tenant : String → List String → M DbError (List (String × ℕ))
  unfolding batch_count
  batch_count_unread_tenant = batch_count is_sender_tenant
