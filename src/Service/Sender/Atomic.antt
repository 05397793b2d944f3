-- ===== src/Service/Sender/Atomic.antt =====
-- transmit of internal/service/sender.go: its transaction and its ends.
use bs_notify_hub.Prelude.{
  suc, ◌≡◌, refl, Option, none, some, List, [], ◌∷◌, ◌++◌, if◌then◌else◌, arith, append-nil, String,
}
use bs_notify_hub.Prelude.Int.{ℤ}
use bs_notify_hub.Dispatch.Message.{
  TargetType, is_broadcast, target_broadcast, target_single, target_multiple,
}
use bs_notify_hub.Model.{NotifyRecord}
use bs_notify_hub.Response.{CodeError, internal_error, new_code_error}
use bs_notify_hub.World.{
  ◌>>◌, pure, or_raise, Db, World, ◌>>=◌, Env, DbError, Result, ok, err, start, send_notify,
}
use bs_notify_hub.World.Rules.{IsQuiet, call_then, transaction_cases, next, tick}
use bs_notify_hub.Repository.Record
use bs_notify_hub.Repository.Status
use bs_notify_hub.Repository.Status.{new_rows, ids_after}
use bs_notify_hub.Service.Sender.{
  SendNotifyProp, SendResult, validate_send_prop, resolve_ttl_seconds, record_of, status_rows,
  store, store_statuses, store_and_start, resolve_expire_time, check, of_result, transmit,
}

-- The row of the record that is written.
abbrev pub row_of : Env → World → SendNotifyProp → NotifyRecord
row_of env w prop = record (record_of env prop) { notify_id = w.next_id; created_at = env.now }

-- The ids of the users who get a status row: those that the caller named, and none of a broadcast.
abbrev pub status_users : SendNotifyProp → List String
status_users prop = if is_broadcast prop.target_type then [] else prop.target_ids

abbrev pub stored : Env → World → SendNotifyProp → Db
stored env w prop = record w.db {
  records = w.records ++ row_of env w prop ∷ [];
  statuses =
      w.statuses ++ new_rows env (suc w.next_id) (status_rows env w.next_id (status_users prop));
}

-- What `store` may do: write the record with its statuses, or fail.
abbrev StoreOutcome : Env → SendNotifyProp → World → Result DbError NotifyRecord × World → Type 0
StoreOutcome env prop w (ok r, w') =
    (r ≡ row_of env w prop) × (w'.db ≡ stored env w prop) × IsQuiet w w'
StoreOutcome env prop w (err e, w') = IsQuiet w w'

-- The world in the transaction after the record is written.
abbrev created : Env → SendNotifyProp → World → World
created env prop w = record (tick w) {
  db = record w.db { records = w.records ++ row_of env w prop ∷ [] };
  next_id = suc w.next_id;
}

store-outcome :
    (env : Env) (prop : SendNotifyProp) (w : World) → StoreOutcome env prop w (store env prop w)
unfolding store store_statuses Record.create Status.create_bulk new_rows
store-outcome env prop w = by_target prop.target_type prop.target_ids
  where
    by_target :
        (t : TargetType) (ids : List String)
        → let p = record prop { target_type = t; target_ids = ids } in
          StoreOutcome env p w (store env p w)
    by_target target_broadcast ids =
        let p = record prop { target_type = target_broadcast; target_ids = ids } in
        call_then (StoreOutcome env p w) (store_statuses env p) env w _ (refl, refl, refl)
          (ground (arith, append-nil w.statuses))
    by_target target_single [] =
        let p = record prop { target_type = target_single; target_ids = [] } in
        call_then (StoreOutcome env p w) (store_statuses env p) env w _ (refl, refl, refl)
          (ground (arith, append-nil w.statuses))
    by_target target_single (u ∷ us) =
        let p = record prop { target_type = target_single; target_ids = u ∷ us } in
        call_then (StoreOutcome env p w) (store_statuses env p) env w
          (ok (row_of env w p), created env p w) (refl, refl, refl)
          (call_then (StoreOutcome env p w) (λ (t : Unit {0}) v. (ok (row_of env w p), v)) env
            (created env p w) _ (refl, refl, refl) (refl, refl, (refl, refl, refl)))
    by_target target_multiple [] =
        let p = record prop { target_type = target_multiple; target_ids = [] } in
        call_then (StoreOutcome env p w) (store_statuses env p) env w _ (refl, refl, refl)
          (ground (arith, append-nil w.statuses))
    by_target target_multiple (u ∷ us) =
        let p = record prop { target_type = target_multiple; target_ids = u ∷ us } in
        call_then (StoreOutcome env p w) (store_statuses env p) env w
          (ok (row_of env w p), created env p w) (refl, refl, refl)
          (call_then (StoreOutcome env p w) (λ (t : Unit {0}) v. (ok (row_of env w p), v)) env
            (created env p w) _ (refl, refl, refl) (refl, refl, (refl, refl, refl)))

-- The two ends of transmit.
abbrev pub TransmitOutcome :
    Env → SendNotifyProp → World → Result CodeError SendResult × World → Type 0
TransmitOutcome env prop w (ok res, w') =
    (validate_send_prop prop ≡ none)
    × (resolve_ttl_seconds env prop ≡ ok res.ttl_seconds)
    × (res.notify_id ≡ env.uuid_string w.next_id)
    × (w'.db ≡ stored env w prop)
    × (w'.tasks ≡ w.tasks ++ send_notify (row_of env w prop) ∷ [])
    × (w'.cache ≡ w.cache)
    × (w'.broker ≡ w.broker)
TransmitOutcome env prop w (err e, w') = (w'.db ≡ w.db) × IsQuiet w w'

-- The whole outcome of transmit. If it succeeds, the request was valid, the record is stored with
-- one unread status for each user who is named (none for a broadcast), nothing else of the database
-- changes, and one goroutine is started, for that record. If it fails, wherever that is, the
-- database, the cache, the broker and the goroutines are as they were.
pub transmit-outcome :
    (env : Env) (prop : SendNotifyProp) (w : World)
    → TransmitOutcome env prop w (transmit env prop w)
unfolding transmit
transmit-outcome env prop w =
    by_checks (validate_send_prop prop) (resolve_ttl_seconds env prop) refl refl
  where
    by_checks :
        (o : Option CodeError) (r : Result CodeError ℤ)
        → validate_send_prop prop ≡ o
        → resolve_ttl_seconds env prop ≡ r
        → TransmitOutcome env prop w (check env o (of_result env r >>= store_and_start env prop) w)
    by_checks (some e) r h k = (refl, (refl, refl, refl))
    by_checks none (err e) h k = (refl, (refl, refl, refl))
    by_checks none (ok ttl) h k =
        transaction_cases
          (λ x. TransmitOutcome env prop w (
            next
              (λ row.
                start (send_notify row)
                >> pure (record {
                  notify_id = env.uuid_string row.notify_id;
                  expire_time = resolve_expire_time env ttl;
                  ttl_seconds = ttl;
                }))
              (or_raise (new_code_error internal_error "发送的通知新增记录和状态失败") (λ v. x) w)))
          (StoreOutcome env prop (tick w)) env (store env prop) w (store-outcome env prop (tick w))
          (refl, (refl, refl, refl)) (λ e w' q. (refl, q)) (λ a w' q. (refl, q.2))
          (λ a w' q. ground arith)
