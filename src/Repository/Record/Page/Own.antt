-- ===== src/Repository/Record/Page/Own.antt =====
-- Whose notifications an inbox of internal/repository/record.go shows.
use bs_notify_hub.Prelude.{
  ℕ, ◌≡◌, ◌<◌, inl, inr, String, Bool, true, false, none, some, List, [], ◌∷◌, ◌++◌, map, where_,
  string_key, nat_key, same_iff, arith, Bool-cases,
}
use bs_notify_hub.Constant.{sender_user, sender_tenant, is_deleted}
use bs_notify_hub.Dispatch.Message.{target_broadcast}
use bs_notify_hub.Model.{NotifyRecord, NotifyStatus}
use bs_notify_hub.World.{Db}
use bs_notify_hub.Repository.Query.{Joined, joins, or_null, left_join}
use bs_notify_hub.Repository.Record.Page.{
  in_personal_inbox, personal_rows, in_tenant_inbox, tenant_rows,
}

module _ {ℓ κ} {A : Type ℓ} (P : A → Type κ) where
  -- Every entry has the property.
  abbrev pub All : List A → Type κ
  All [] = Unit
  All (x ∷ xs) = P x × All xs

  pub All-append : (xs ys : List A) → All xs → All ys → All (xs ++ ys)
  All-append [] ys h k = k
  All-append (x ∷ xs) ys h k = (h.0, All-append xs ys h.1 k)

-- What passed the test, and had the one property, has the other.
pub All-where_ :
    {A : Type 0} (P Q : A → Type 0) (test : A → Bool) (xs : List A)
    → ((x : A) → test x ≡ true → P x → Q x)
    → All P xs
    → All Q (where_ test xs)
All-where_ P Q test [] f h = tt
All-where_ P Q test (x ∷ xs) f h = elim (Bool-cases (test x)) [
  | inl e ↦ rw e (f x e h.0, All-where_ P Q test xs f h.1)
  | inr e ↦ rw e (All-where_ P Q test xs f h.1)
]

-- The status row of a joined row is the user's for that record, if there is one.
abbrev IsJoined : String → Joined → Type 0
IsJoined user (r, none) = Unit
IsJoined user (r, some s) = (s.notify_id ≡ r.notify_id) × (s.target_user_id ≡ user)

matched-IsJoined :
    (user : String) (r : NotifyRecord) (ss : List NotifyStatus)
    → All (λ s. (s.notify_id ≡ r.notify_id) × (s.target_user_id ≡ user)) ss
    → All (IsJoined user) (or_null r ss)
matched-IsJoined user r [] h = (tt, tt)
matched-IsJoined user r (s ∷ ss) h = (h.0, rest ss h.1)
  where
    rest :
        (ts : List NotifyStatus)
        → All (λ s. (s.notify_id ≡ r.notify_id) × (s.target_user_id ≡ user)) ts
        → All (IsJoined user) (map (λ x. (r, some x)) ts)
    rest [] k = tt
    rest (t ∷ ts) k = (k.0, rest ts k.1)

All-units : {A : Type 0} (xs : List A) → All (λ x. Unit {0}) xs
All-units [] = tt
All-units (x ∷ xs) = (tt, All-units xs)

left_join-IsJoined :
    (user : String) (rs : List NotifyRecord) (ss : List NotifyStatus)
    → All (IsJoined user) (left_join user rs ss)
unfolding left_join
left_join-IsJoined user [] ss = tt
left_join-IsJoined user (r ∷ rs) ss =
    All-append (IsJoined user) _ _
      (matched-IsJoined user r _ (
        All-where_ _ _ (joins user r) ss
          (λ s e t. (
            ground (arith, same_iff s.notify_id r.notify_id),
            ground (arith, same_iff s.target_user_id user),
          ))
          (All-units ss)))
      (left_join-IsJoined user rs ss)

-- The notification is a broadcast that the user has no row for, or the user's row for it is not
-- deleted.
abbrev pub IsFor : String → Joined → Type 0
IsFor user (r, none) = r.target_type ≡ target_broadcast
IsFor user (r, some s) =
    (s.notify_id ≡ r.notify_id) × (s.target_user_id ≡ user) × (is_deleted s.status ≡ false)

abbrev pub IsPersonal : String → String → Joined → Type 0
IsPersonal tenant user j = (j.0.tenant_id ≡ tenant) × (j.0.sender_type ≡ sender_user) × IsFor user j

-- Every notification of a personal inbox is of the user's tenant and from a user, and is addressed
-- to this user: a broadcast, or one with a status row of this user that is not deleted.
pub personal_rows-own :
    (tenant user : String) (db : Db) → All (IsPersonal tenant user) (personal_rows tenant user db)
unfolding personal_rows
personal_rows-own tenant user db =
    All-where_ (IsJoined user) _ (in_personal_inbox tenant) _ keep
      (left_join-IsJoined user db.records db.statuses)
  where
    keep :
        (j : Joined)
        → in_personal_inbox tenant j ≡ true
        → IsJoined user j
        → IsPersonal tenant user j
    keep (r, none) e k = (ground (arith, same_iff r.tenant_id tenant), ground arith, ground arith)
    keep (r, some s) e k =
        (ground (arith, same_iff r.tenant_id tenant), ground arith, (k.0, k.1, ground arith))

abbrev pub IsOfTenant : String → String → ℕ → Joined → Type 0
IsOfTenant tenant user clear_at j =
    (j.0.tenant_id ≡ tenant)
    × (j.0.sender_type ≡ sender_tenant)
    × (clear_at < j.0.created_at)
    × IsFor user j

-- Every notification of a tenant inbox is of the user's tenant and from a tenant, is newer than the
-- time at which the user cleared the inbox, and is addressed to this user.
pub tenant_rows-own :
    (tenant user : String) (clear_at : ℕ) (db : Db)
    → All (IsOfTenant tenant user clear_at) (tenant_rows tenant user clear_at db)
unfolding tenant_rows
tenant_rows-own tenant user clear_at db =
    All-where_ (IsJoined user) _ (in_tenant_inbox tenant clear_at) _ keep
      (left_join-IsJoined user db.records db.statuses)
  where
    keep :
        (j : Joined)
        → in_tenant_inbox tenant clear_at j ≡ true
        → IsJoined user j
        → IsOfTenant tenant user clear_at j
    keep (r, none) e k =
        (ground (arith, same_iff r.tenant_id tenant), ground arith, ground arith, ground arith)
    keep (r, some s) e k = (
      ground (arith, same_iff r.tenant_id tenant),
      ground arith,
      ground arith,
      (k.0, k.1, ground arith),
    )
