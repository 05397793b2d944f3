-- ===== src/Service/Sender/Valid.antt =====
-- The validation of internal/service/sender.go.
use bs_notify_hub.Prelude.{
  ◌≡◌, ◌≢◌, ◌↔◌, refl, false, none, List, [], ◌∷◌, ◌++◌, String, string_key, same_iff, arith,
}
use bs_notify_hub.Prelude.Int.{ℤ}
use bs_notify_hub.Constant.{other_sender}
use bs_notify_hub.Dispatch.Message.{TargetType, target_single, target_multiple, target_broadcast}
use bs_notify_hub.Response.{CodeError}
use bs_notify_hub.World.{World, Env, Result, ok, err, no_failure, send_notify}
use bs_notify_hub.Service.Sender.Atomic.{TransmitOutcome, transmit-outcome, stored, row_of}
use bs_notify_hub.Repository.Record
use bs_notify_hub.Repository.Status
use bs_notify_hub.Service.Sender.{
  SendNotifyProp, SendResult, validate_sender_type, validate_send_prop, resolve_ttl_seconds,
  is_negative, resolve_expire_time, store_and_start, store, store_statuses, transmit, target_error,
}

-- One named user, at least one user, or none at all.
abbrev pub IsTargeted : TargetType → List String → Type 0
IsTargeted target_single ids = (u : String) × (ids ≡ u ∷ []) × (u ≢ "")
IsTargeted target_multiple ids = (u : String) × (us : List String) × (ids ≡ u ∷ us)
IsTargeted target_broadcast ids = ids ≡ []

pub record IsValid (prop : SendNotifyProp) : Type 0 where
  pub named : prop.tenant_id ≢ ""
  pub known : prop.sender_type ≢ other_sender
  pub lasting : is_negative prop.ttl_seconds ≡ false
  pub targeted : IsTargeted prop.target_type prop.target_ids

target_error-none :
    (t : TargetType) (ids : List String) → (target_error t ids ≡ none) ↔ IsTargeted t ids
target_error-none target_single [] = (λ h. cc h, λ (u, h, k). cc h)
target_error-none target_single (u ∷ []) =
    (λ h. (u, refl, ground (arith, same_iff u "")), λ (v, h, k). ground (arith, same_iff u ""))
target_error-none target_single (u ∷ v ∷ us) = (λ h. cc h, λ (u, h, k). cc h)
target_error-none target_multiple [] = (λ h. cc h, λ (u, us, h). cc h)
target_error-none target_multiple (u ∷ us) = (λ h. (u, us, refl), λ k. ground arith)
target_error-none target_broadcast [] = (λ h. refl, λ k. refl)
target_error-none target_broadcast (u ∷ us) = (λ h. ground arith, λ k. cc k)

-- A request is accepted exactly if it names its tenant, comes from a user or a tenant, asks for no
-- negative lifetime, and names one user, at least one, or none, as its kind demands.
pub validate_send_prop-none :
    (prop : SendNotifyProp) → (validate_send_prop prop ≡ none) ↔ IsValid prop
unfolding validate_send_prop validate_sender_type
validate_send_prop-none prop = (
  λ h. record {
    named = λ e. ground (arith, same_iff prop.tenant_id "");
    known = λ e. ground arith;
    lasting = ground arith;
    targeted = (target_error-none prop.target_type prop.target_ids).0 (ground arith);
  },
  λ v.
      let t = (target_error-none prop.target_type prop.target_ids).1 v.targeted in
      ground (arith, same_iff prop.tenant_id "", v.named, v.known, v.lasting, t),
)

transmit-ok :
    (env : Env) (prop : SendNotifyProp) (ttl : ℤ) (w : World)
    → validate_send_prop prop ≡ none
    → resolve_ttl_seconds env prop ≡ ok ttl
    → (transmit (no_failure env) prop w).0
      ≡ ok (record {
        notify_id = env.uuid_string w.next_id;
        expire_time = resolve_expire_time env ttl;
        ttl_seconds = ttl;
      })
unfolding transmit store_and_start store store_statuses Record.create Status.create_bulk
    resolve_ttl_seconds resolve_expire_time
transmit-ok env prop ttl w h k =
    rw (h, transmit) (rw k (by_target prop.target_type prop.target_ids))
  where
    by_target :
        (t : TargetType) (ids : List String)
        → (store_and_start
            (no_failure env)
            (record prop { target_type = t; target_ids = ids })
            ttl
            w).0
          ≡ ok (record {
            notify_id = env.uuid_string w.next_id;
            expire_time = resolve_expire_time env ttl;
            ttl_seconds = ttl;
          })
    by_target target_broadcast ids = refl
    by_target target_single [] = refl
    by_target target_single (u ∷ us) = refl
    by_target target_multiple [] = refl
    by_target target_multiple (u ∷ us) = refl

-- What a success of transmit leaves behind.
stored_by :
    (env : Env) (prop : SendNotifyProp) (w : World) (res : SendResult)
    (x : Result CodeError SendResult × World)
    → TransmitOutcome env prop w x
    → x.0 ≡ ok res
    → (x.1.db ≡ stored env w prop) × (x.1.tasks ≡ w.tasks ++ send_notify (row_of env w prop) ∷ [])
stored_by env prop w res (err e, w') o h = cc h
stored_by env prop w res (ok r, w') (v, t, n, d, ts, c, b) h = (d, ts)

-- If no call fails, a valid request whose lifetime is known succeeds, with the id of the new record
-- and its expiry as the result; the record is then stored with its statuses, and the goroutine
-- that tells the users is started for it.
pub transmit-valid :
    (env : Env) (prop : SendNotifyProp) (ttl : ℤ) (w : World)
    → validate_send_prop prop ≡ none
    → resolve_ttl_seconds env prop ≡ ok ttl
    → let x = transmit (no_failure env) prop w in
      (x.0
        ≡ ok (record {
          notify_id = env.uuid_string w.next_id;
          expire_time = resolve_expire_time env ttl;
          ttl_seconds = ttl;
        }))
      × (x.1.db ≡ stored (no_failure env) w prop)
      × (x.1.tasks ≡ w.tasks ++ send_notify (row_of (no_failure env) w prop) ∷ [])
transmit-valid env prop ttl w h k =
    let e = transmit-ok env prop ttl w h k in
    let (db, task) =
      stored_by (no_failure env) prop w _ (transmit (no_failure env) prop w)
        (transmit-outcome (no_failure env) prop w) e in
    (e, db, task)
