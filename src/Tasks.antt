-- ===== src/Tasks.antt =====
-- internal/tasks/notify_cleanup.go: the daily cleanup of expired notifications.
pub mod Batch
pub mod Rounds
pub mod Clean
pub mod Daily
pub mod Kept
pub mod Safe
pub mod End
pub mod Tests
use bs_notify_hub.Prelude.Map
use bs_notify_hub.Prelude.{
  ℕ, zero, suc, ◌+◌, ◌-◌, ◌*◌, ◌%◌, String, Bool, true, false, Option, none, some, List, [], ◌∷◌,
  same, string_key, length, ltb, map, if◌then◌else◌,
}
use bs_notify_hub.Constant.{SenderType, sender_user, sender_tenant, is_sender_tenant}
use bs_notify_hub.Dispatch.Message.{is_broadcast}
use bs_notify_hub.World.{
  World, Env, DbError, Result, ok, err, M, ◌>>=◌, ◌>>◌, pure, ignore, transaction_beside,
}
use bs_notify_hub.Repository.Record
use bs_notify_hub.Repository.Record.{ExpiredNotifyInfo}
use bs_notify_hub.Repository.Status
use bs_notify_hub.Logic.Unread

abbrev pub notify_cleanup_batch_size : ℕ
notify_cleanup_batch_size = 500

-- map[string]map[string]struct{}: the users of each tenant
abbrev pub Targets : Type 0
Targets = List (String × List (String × Unit {0}))

abbrev pub bucket_of : Option (List (String × Unit {0})) → List (String × Unit {0})
bucket_of none = []
bucket_of (some users) = users

-- the loop over `info.TargetIDs`, which leaves out empty ids
unfoldable pub add_targets : List String → List (String × Unit {0}) → List (String × Unit {0})
add_targets [] users = users
add_targets (u ∷ us) users =
    if same u "" then add_targets us users else add_targets us (Map.put u tt users)

unfoldable pub add_info : ExpiredNotifyInfo → Targets → Targets
unfolding add_targets
add_info info ts =
    Map.put info.tenant_id (add_targets info.target_ids (bucket_of (Map.get info.tenant_id ts))) ts

-- personalTargets, tenantTargets and affectedTenantsForBroadcast
pub record Affected : Type 0 where
  pub personal_targets : Targets
  pub tenant_targets : Targets
  pub broadcast_tenants : List (String × Unit {0})

unfoldable pub affect : ExpiredNotifyInfo → Affected → Affected
unfolding add_info
affect info a =
    if is_broadcast info.target_type
    then record a { broadcast_tenants = Map.put info.tenant_id tt a.broadcast_tenants }
    else if is_sender_tenant info.sender_type
    then record a { tenant_targets = add_info info a.tenant_targets }
    else record a { personal_targets = add_info info a.personal_targets }

unfoldable pub affected_by : List ExpiredNotifyInfo → Affected → Affected
unfolding affect
affected_by [] a = a
affected_by (info ∷ infos) a = affected_by infos (affect info a)

abbrev pub keys_of {ℓ} : {A : Type ℓ} → List (String × A) → List String
keys_of [] = []
keys_of ((k, v) ∷ m) = k ∷ keys_of m

module _ (env : Env) where
  -- BatchReconcileUsers makes no call for no users, as the `continue` before it.
  unfoldable pub reconcile_targets : SenderType → Targets → M DbError (Unit {0})
  reconcile_targets by [] = pure tt
  reconcile_targets by ((tenant, users) ∷ ts) =
      ignore (Unread.batch_reconcile_users env tenant (keys_of users) by) >> reconcile_targets by ts

  unfoldable pub reconcile_broadcasts : List (String × Unit {0}) → M DbError (Unit {0})
  reconcile_broadcasts [] = pure tt
  reconcile_broadcasts ((tenant, t) ∷ ts) =
      ignore (Unread.reconcile_tenant_broadcast_total env tenant) >> reconcile_broadcasts ts

  unfoldable pub sync_unread_snapshot : List ExpiredNotifyInfo → M DbError (Unit {0})
  unfolding affected_by reconcile_targets reconcile_broadcasts
  sync_unread_snapshot infos =
      let a =
        affected_by infos
          (record { personal_targets = []; tenant_targets = []; broadcast_tenants = [] }) in
      reconcile_targets sender_user a.personal_targets
      >> reconcile_targets sender_tenant a.tenant_targets
      >> reconcile_broadcasts a.broadcast_tenants

-- The error of RunOnce: that of the context, or of the database.
pub data CleanupError : Type 0 where
  context_done : CleanupError
  db_failed : DbError → CleanupError

-- One round of the loop ends it, with the count and the error, or goes on.
pub data Round : Type 0 where
  ends : ℕ → Option CleanupError → World → Round
  goes_on : ℕ → World → Round

-- `done` says of each round whether the context is cancelled when it begins.
module _ (env : Env) (done : ℕ → Bool) where
  abbrev pub ids_of : List ExpiredNotifyInfo → List ℕ
  ids_of infos = map (λ i. i.notify_id) infos

  -- The repositories of the body are not bound to `tx`.
  unfoldable pub delete_all : List ℕ → M DbError (Unit {0})
  delete_all ids =
      transaction_beside env
        (Status.delete_by_notify_ids env ids >> Record.delete_by_notify_ids env ids)

  abbrev pub after_delete : ℕ → List ExpiredNotifyInfo → Result DbError (Unit {0}) × World → Round
  after_delete total infos (err e, w) = ends total (some (db_failed e)) w
  after_delete total infos (ok t, w) =
      let w' = (sync_unread_snapshot env infos w).1 in
      let n = length infos in
      if ltb n notify_cleanup_batch_size then ends (total + n) none w' else goes_on (total + n) w'

  abbrev pub after_list : ℕ → Result DbError (List ExpiredNotifyInfo) × World → Round
  after_list total (err e, w) = ends total (some (db_failed e)) w
  after_list total (ok [], w) = ends total none w
  after_list total (ok (i ∷ is), w) = after_delete total (i ∷ is) (delete_all (ids_of (i ∷ is)) w)

  unfoldable pub cleanup_round : ℕ → ℕ → World → Round
  unfolding delete_all sync_unread_snapshot
  cleanup_round i total w =
      if done i
      then ends total (some context_done) w
      else after_list total
          (Record.list_expired_notify_infos env env.now notify_cleanup_batch_size w)

  -- The loop of RunOnce, at most `fuel` rounds of it.
  unfoldable pub run_rounds : ℕ → ℕ → ℕ → World → Option ((ℕ × Option CleanupError) × World)
  unfolding cleanup_round
  run_rounds zero i total w = none
  run_rounds (suc fuel) i total w = elim (cleanup_round i total w) [
    | ends n e w' ↦ some ((n, e), w')
    | goes_on n w' ↦ run_rounds fuel (suc i) n w'
  ]

  -- RunOnce, with one round more than there are records as the bound.
  unfoldable pub run_once : World → Option ((ℕ × Option CleanupError) × World)
  unfolding run_rounds
  run_once w = run_rounds (suc (length w.records)) 0 0 w
