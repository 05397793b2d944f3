-- ===== src/Repository/Status.antt =====
-- internal/repository/status.go
use bs_notify_hub.Prelude.{
  ℕ, suc, String, Bool, true, false, not, ◌&&◌, Option, none, some, List, [], ◌∷◌, ◌++◌, same,
  string_key, nat_key, where_, if◌then◌else◌,
}
use bs_notify_hub.Constant.{is_sender_tenant, Status, read, deleted}
use bs_notify_hub.Dispatch.Message.{is_broadcast}
use bs_notify_hub.Model.{NotifyRecord, NotifyStatus}
use bs_notify_hub.World.{
  Db, Env, DbError, record_not_found, call_failed, scan_failed, Result, ok, err, M, pure, raise,
  call, write_db,
}
use bs_notify_hub.Repository.Query.{first, update_where, is_in}

-- the columns that a caller fills in
pub record NewStatus : Type 0 where
  pub notify_id : ℕ
  pub target_user_id : String
  pub status : Status

module _ (env : Env) where
  -- the row with a new id, as BeforeCreate and the auto times fill it in
  abbrev pub new_row : ℕ → NewStatus → NotifyStatus
  new_row id s = record {
    status_notify_id = id;
    notify_id = s.notify_id;
    target_user_id = s.target_user_id;
    status = s.status;
    create_time = env.now;
    update_time = env.now;
  }

  unfoldable pub new_rows : ℕ → List NewStatus → List NotifyStatus
  new_rows id [] = []
  new_rows id (s ∷ ss) = new_row id s ∷ new_rows (suc id) ss

  abbrev pub ids_after : ℕ → List NewStatus → ℕ
  ids_after id [] = id
  ids_after id (s ∷ ss) = ids_after (suc id) ss

  -- CreateBulk; Create is the case of one row. One INSERT statement.
  unfoldable pub create_bulk : List NewStatus → M DbError (Unit {0})
  unfolding new_rows
  create_bulk ss = call env λ w. (
    ok tt,
    record w {
      db = record w.db { statuses = w.statuses ++ new_rows w.next_id ss };
      next_id = ids_after w.next_id ss;
    },
  )

  abbrev pub or_not_found {ℓ} : {A : Type ℓ} → Option A → M DbError A
  or_not_found none = raise record_not_found
  or_not_found (some a) = pure a

  abbrev pub is_of : String → ℕ → NotifyStatus → Bool
  is_of user notify s = same s.target_user_id user && same s.notify_id notify

  unfoldable pub find_by_user_and_notify : String → ℕ → M DbError NotifyStatus
  find_by_user_and_notify user notify =
      call env λ w. or_not_found (first (where_ (is_of user notify) w.statuses)) w

  -- Update: `Save` writes every column of the row with that id.
  unfoldable pub update : NotifyStatus → M DbError (Unit {0})
  update row = call env (
      write_db λ db. record db {
        statuses =
            update_where (λ s. same s.status_notify_id row.status_notify_id)
              (λ s. record row { update_time = env.now }) db.statuses;
      })

  -- The error cases of UpsertByUserAndNotify.
  abbrev pub upsert_found : String → ℕ → Status → Result DbError NotifyStatus → M DbError (Unit {0})
  upsert_found user notify next (ok row) = update (record row { status = next })
  upsert_found user notify next (err record_not_found) =
      create_bulk (record { notify_id = notify; target_user_id = user; status = next } ∷ [])
  upsert_found user notify next (err call_failed) = raise call_failed
  upsert_found user notify next (err scan_failed) = raise scan_failed

  unfoldable pub upsert_by_user_and_notify : String → ℕ → Status → M DbError (Unit {0})
  unfolding find_by_user_and_notify update create_bulk
  upsert_by_user_and_notify user notify next w =
      let (r, w') = find_by_user_and_notify user notify w in upsert_found user notify next r w'

  -- UPDATE notify_status SET status = … WHERE target_user_id = … AND notify_id IN (SELECT …)
  abbrev pub selected : (NotifyRecord → Bool) → List NotifyRecord → ℕ → Bool
  selected test [] id = false
  selected test (r ∷ rs) id =
      let rest = selected test rs id in if test r && same r.notify_id id then true else rest

  abbrev pub in_selection : String → (NotifyRecord → Bool) → Db → NotifyStatus → Bool
  in_selection user test db s = same s.target_user_id user && selected test db.records s.notify_id

  abbrev pub mark : String → (NotifyRecord → Bool) → Status → Db → Db
  mark user test next db = record db {
    statuses =
        update_where (in_selection user test db)
          (λ s. record s { status = next; update_time = env.now }) db.statuses;
  }

  unfoldable pub batch_mark_read_by_user : String → String → M DbError (Unit {0})
  batch_mark_read_by_user user tenant =
      call env (write_db (mark user (λ r. same r.tenant_id tenant) read))

  abbrev pub is_tenant_non_broadcast : String → NotifyRecord → Bool
  is_tenant_non_broadcast tenant r =
      same r.tenant_id tenant && not (is_broadcast r.target_type) && is_sender_tenant r.sender_type

  unfoldable pub batch_mark_tenant_non_broadcast_read_by_user :
      String → String → M DbError (Unit {0})
  batch_mark_tenant_non_broadcast_read_by_user user tenant =
      call env (write_db (mark user (is_tenant_non_broadcast tenant) read))

  unfoldable pub batch_mark_delete_user_notify_by_user : String → String → M DbError (Unit {0})
  batch_mark_delete_user_notify_by_user user tenant =
      call env (write_db (mark user (λ r. same r.tenant_id tenant) deleted))

  -- Written with the numbers 2 and 1; no service calls it.
  unfoldable pub batch_delete_tenant_notify_by_user : String → String → M DbError (Unit {0})
  batch_delete_tenant_notify_by_user user tenant =
      call env (write_db (mark user (is_tenant_non_broadcast tenant) deleted))

  -- DeleteByNotifyIDs makes no call for no ids.
  unfoldable pub delete_by_notify_ids : List ℕ → M DbError (Unit {0})
  delete_by_notify_ids [] = pure tt
  delete_by_notify_ids (id ∷ ids) = call env (
      write_db
        λ db. record db { statuses = where_ (λ s. not (is_in s.notify_id (id ∷ ids))) db.statuses })
