-- ===== src/Tasks/Rounds.antt =====
-- A round of RunOnce in internal/tasks/notify_cleanup.go and the tables.
use bs_notify_hub.Prelude.{
  ℕ, zero, suc, ◌<◌, ◌≤◌, ◌≡◌, refl, ◌∙◌, String, Bool, false, not, List, [], ◌∷◌, same_iff,
  nat_key, string_key, length, where_, take, arith, if_induction,
}
use bs_notify_hub.Prelude.Int.{ℤ}
use bs_notify_hub.Constant.{
  SenderType, sender_user, sender_tenant, is_sender_tenant, is_sender_user, get_broadcast_total_key,
}
use bs_notify_hub.Model.{NotifyRecord}
use bs_notify_hub.World.{World, Env, DbError, call_failed, Result, ok, err, M, ◌>>=◌, ◌>>◌, call}
use bs_notify_hub.World.Rules.{tick, next}
use bs_notify_hub.Repository.Query.{is_in}
use bs_notify_hub.Repository.Record.{ExpiredNotifyInfo, expired_records}
use bs_notify_hub.Repository.Record.Page.Own.{All, All-where_}
use bs_notify_hub.Repository.Record.Page.Ties.{All-order_asc}
use bs_notify_hub.Repository.UnreadDb
use bs_notify_hub.Repository.UnreadCache
use bs_notify_hub.Logic.Unread
use bs_notify_hub.Logic.Unread.{counts_by_key}
use bs_notify_hub.Tasks.{
  Targets, reconcile_targets, reconcile_broadcasts, sync_unread_snapshot, keys_of, affected_by,
}

-- The action leaves the tables as they are.
abbrev pub KeepsDb {ℓ κ} : {E : Type ℓ} {A : Type κ} → M E A → Type 0
KeepsDb m = (w : World) → (m w).1.db ≡ w.db

bind-KeepsDb :
    {E A B : Type 0} (m : M E A) (f : A → M E B)
    → KeepsDb m
    → ((a : A) → KeepsDb (f a))
    → KeepsDb (m >>= f)
bind-KeepsDb m f h k w = by_result (m w) (h w)
  where
    by_result : (x : Result _ _ × World) → x.1.db ≡ w.db → (next f x).1.db ≡ w.db
    by_result (ok a, w') e = k a w' ∙ e
    by_result (err e', w') e = e

call-KeepsDb : {A : Type 0} (env : Env) (m : M DbError A) → KeepsDb m → KeepsDb (call env m)
call-KeepsDb env m h w =
    if_induction (λ (x : Result DbError _ × World). x.1.db ≡ w.db) (env.fails w.calls)
      (err call_failed, tick w) (m (tick w)) refl (h (tick w))

module _ (env : Env) where
  of_result-KeepsDb : {A : Type 0} (r : Result DbError A) → KeepsDb (UnreadDb.of_result env r)
  of_result-KeepsDb (ok a) w = refl
  of_result-KeepsDb (err e) w = refl

  set_pipeline-KeepsDb : (kv : List (String × ℤ)) → KeepsDb (UnreadCache.batch_set_pipeline env kv)
  unfolding UnreadCache.batch_set_pipeline
  set_pipeline-KeepsDb [] w = refl
  set_pipeline-KeepsDb (e ∷ kv) w = ground arith

  replace_set-KeepsDb :
      (key : String) (ids : List String) → KeepsDb (UnreadCache.safe_replace_set env key ids)
  unfolding UnreadCache.safe_replace_set
  replace_set-KeepsDb key [] w = ground arith
  replace_set-KeepsDb key (i ∷ is) w = ground arith

  batch_count-KeepsDb :
      (by : SenderType → Bool) (tenant : String) (uids : List String)
      → KeepsDb (UnreadDb.batch_count env by tenant uids)
  unfolding UnreadDb.batch_count
  batch_count-KeepsDb by tenant uids =
      call-KeepsDb env
        (λ w.
          UnreadDb.of_result env
            (UnreadDb.scan_counts env (
              UnreadDb.group_count (
                UnreadDb.counted_users (UnreadDb.is_unread_of tenant by) uids w.records
                  w.statuses)))
            w)
        (λ w.
          of_result-KeepsDb
            (UnreadDb.scan_counts env (
              UnreadDb.group_count (
                UnreadDb.counted_users (UnreadDb.is_unread_of tenant by) uids w.records
                  w.statuses)))
            w)

  count_by-KeepsDb :
      (by : SenderType) (tenant : String) (uids : List String)
      → KeepsDb (Unread.batch_count_by env by tenant uids)
  unfolding UnreadDb.batch_count_unread_tenant UnreadDb.batch_count_unread_user
  count_by-KeepsDb by tenant uids =
      if_induction (λ (m : M DbError (List (String × ℕ))). KeepsDb m) (is_sender_tenant by)
        (UnreadDb.batch_count env is_sender_tenant tenant uids)
        (UnreadDb.batch_count env is_sender_user tenant uids)
        (batch_count-KeepsDb is_sender_tenant tenant uids)
        (batch_count-KeepsDb is_sender_user tenant uids)

  reconcile_users-KeepsDb :
      (tenant : String) (uids : List String) (by : SenderType)
      → KeepsDb (Unread.batch_reconcile_users env tenant uids by)
  unfolding Unread.batch_reconcile_users
  reconcile_users-KeepsDb tenant [] by w = refl
  reconcile_users-KeepsDb tenant (u ∷ us) by w =
      bind-KeepsDb (Unread.batch_count_by env by tenant (u ∷ us))
        (λ counts. UnreadCache.batch_set_pipeline env (counts_by_key by tenant counts (u ∷ us)))
        (count_by-KeepsDb by tenant (u ∷ us))
        (λ m. set_pipeline-KeepsDb (counts_by_key by tenant m (u ∷ us))) w

  reconcile_total-KeepsDb :
      (tenant : String) → KeepsDb (Unread.reconcile_tenant_broadcast_total env tenant)
  unfolding Unread.reconcile_tenant_broadcast_total UnreadDb.count_broadcast_total_by_tenant
  reconcile_total-KeepsDb tenant =
      bind-KeepsDb (UnreadDb.count_broadcast_total_by_tenant env tenant)
        (λ ids. UnreadCache.safe_replace_set env (get_broadcast_total_key tenant) ids)
        (λ w. ground arith) (λ ids. replace_set-KeepsDb (get_broadcast_total_key tenant) ids)

  targets-KeepsDb : (by : SenderType) (ts : Targets) → KeepsDb (reconcile_targets env by ts)
  unfolding reconcile_targets
  targets-KeepsDb by [] w = refl
  targets-KeepsDb by ((t, us) ∷ ts) w =
      targets-KeepsDb by ts _ ∙ reconcile_users-KeepsDb t (keys_of us) by w

  broadcasts-KeepsDb : (ts : List (String × Unit {0})) → KeepsDb (reconcile_broadcasts env ts)
  unfolding reconcile_broadcasts
  broadcasts-KeepsDb [] w = refl
  broadcasts-KeepsDb ((t, x) ∷ ts) w = broadcasts-KeepsDb ts _ ∙ reconcile_total-KeepsDb t w

  pub sync-KeepsDb : (infos : List ExpiredNotifyInfo) → KeepsDb (sync_unread_snapshot env infos)
  unfolding sync_unread_snapshot
  sync-KeepsDb infos w =
      let a =
        affected_by infos
          (record { personal_targets = []; tenant_targets = []; broadcast_tenants = [] }) in
      bind-KeepsDb
        (reconcile_targets env sender_user a.personal_targets
          >> reconcile_targets env sender_tenant a.tenant_targets)
        (λ (x : Unit {0}). reconcile_broadcasts env a.broadcast_tenants)
        (bind-KeepsDb (reconcile_targets env sender_user a.personal_targets)
          (λ (x : Unit {0}). reconcile_targets env sender_tenant a.tenant_targets)
          (targets-KeepsDb sender_user a.personal_targets)
          (λ x. targets-KeepsDb sender_tenant a.tenant_targets))
        (λ x. broadcasts-KeepsDb a.broadcast_tenants) w

module _ {A : Type 0} (q : A → Bool) where
  where_-le : (xs : List A) → length (where_ q xs) ≤ length xs
  where_-le [] = omega arith
  where_-le (x ∷ xs) = ground (arith, where_-le xs)

  -- An entry that is not kept makes the list shorter.
  where_-lt : (xs : List A) → All (λ x. q x ≡ false → length (where_ q xs) < length xs) xs
  where_-lt [] = tt
  where_-lt (x ∷ xs) = (λ e. ground (arith, where_-le xs), weaken xs (where_-lt xs))
    where
      weaken :
          (ys : List A)
          → All (λ y. q y ≡ false → length (where_ q xs) < length xs) ys
          → All (λ y. q y ≡ false → length (where_ q (x ∷ xs)) < length (x ∷ xs)) ys
      weaken [] h = tt
      weaken (y ∷ ys) h = (λ e. ground (arith, h.0 e), weaken ys h.1)

All-take : {A : Type 0} (P : A → Type 0) (n : ℕ) (xs : List A) → All P xs → All P (take n xs)
All-take P zero xs h = tt
All-take P (suc n) [] h = tt
All-take P (suc n) (x ∷ xs) h = (h.0, All-take P n xs h.1)

-- Deleting the records that a round found makes the table smaller.
pub deleted_lt :
    (before limit : ℕ) (rs : List NotifyRecord) (r : NotifyRecord) (found : List NotifyRecord)
    → expired_records before limit rs ≡ r ∷ found
    → (ids : List ℕ)
    → length (where_ (λ x. not (is_in x.notify_id (r.notify_id ∷ ids))) rs) < length rs
unfolding expired_records is_in
deleted_lt before limit rs r found e ids =
    let q : NotifyRecord → Bool = λ x. not (is_in x.notify_id (r.notify_id ∷ ids)) in
    let P : NotifyRecord → Type 0 = λ x. q x ≡ false → length (where_ q rs) < length rs in
    let all : All P (expired_records before limit rs) =
      All-take P limit _
        (All-order_asc P _ _ (All-where_ P P _ rs (λ x t p. p) (where_-lt q rs))) in
    (rw e at all).0 (ground (arith, same_iff r.notify_id r.notify_id))
