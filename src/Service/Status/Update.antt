-- ===== src/Service/Status/Update.antt =====
-- MarkRead and DeleteNotify of internal/service/status.go.
use bs_notify_hub.Prelude.{
  ℕ, suc, ◌||◌, ◌≡◌, ◌≢◌, refl, ap, subst, ◌∙◌, Bool, true, false, Option, none, some, List, [],
  ◌∷◌, ◌++◌, String, same, string_key, nat_key, same_iff, arith, where_, Bool-cases, inl, inr,
  if_induction,
}
use bs_notify_hub.Constant.{Status}
use bs_notify_hub.Model.{NotifyRecord, NotifyStatus}
use bs_notify_hub.Response.{CodeError, new_code_error, internal_error}
use bs_notify_hub.World.{
  no_failure, World, Env, DbError, call_failed, Result, ok, err, or_raise, start, once_op,
}
use bs_notify_hub.World.Rules.{tick, next, IsQuiet, call_last}
use bs_notify_hub.Repository.Query.{first, update_where}
use bs_notify_hub.Repository.Record
use bs_notify_hub.Repository.Status
use bs_notify_hub.Repository.Status.{NewStatus, upsert_by_user_and_notify, upsert_found, new_rows}
use bs_notify_hub.Service.Status.{
  validate_notify_access, exec_status_update, update_found, allowed, has_uuid, find_record,
}
use bs_notify_hub.Service.Status.Access.{
  IsRecord, MayOperate, AccessOutcome, may_operate_iff, validate_notify_access-outcome,
}

abbrev status_or : Option NotifyStatus → Option Status
status_or none = none
status_or (some s) = some s.status

-- The status that a user's first row for a notification holds.
abbrev pub status_of : Env → String → ℕ → List NotifyStatus → Option Status
status_of env user n ss = status_or (first (where_ (Status.is_of env user n) ss))

module _ {ℓ} {A : Type ℓ} (p q : A → Bool) (row x : A) where
  first-update_where :
      (ss : List A)
      → p x ≡ true
      → q row ≡ true
      → first (where_ p ss) ≡ some row
      → first (where_ p (update_where q (λ s. x) ss)) ≡ some x
  unfolding update_where
  first-update_where [] h i g = cc g
  first-update_where (s ∷ ss) h i g = elim (Bool-cases (q s)) [
    | inl k ↦ rw (k, update_where) (rw h refl)
    | inr k ↦ elim (Bool-cases (p s)) [
      | inl l ↦ let e = rw l at g in ground arith
      | inr l ↦ rw (k, update_where) (rw l (first-update_where ss h i (rw l at g)))
    ]
  ]

first-append {ℓ} :
    {A : Type ℓ} (p : A → Bool) (x : A) (ss : List A)
    → p x ≡ true
    → first (where_ p ss) ≡ none
    → first (where_ p (ss ++ x ∷ [])) ≡ some x
first-append p x [] h g = rw h refl
first-append p x (s ∷ ss) h g = elim (Bool-cases (p s)) [
  | inl l ↦ cc (rw l at g)
  | inr l ↦ rw l (first-append p x ss h (rw l at g))
]

first-where_ :
    {A : Type 0} (p : A → Bool) (x : A) (ss : List A) → first (where_ p ss) ≡ some x → p x ≡ true
first-where_ p x [] g = cc g
first-where_ p x (s ∷ ss) g = elim (Bool-cases (p s)) [
  | inl l ↦ cc (rw l at g, l)
  | inr l ↦ first-where_ p x ss (rw l at g)
]

abbrev with_statuses : List NotifyStatus → World → World
with_statuses ss w = record (tick w) { db = record w.db { statuses = ss } }

-- The two ends of UpsertByUserAndNotify.
abbrev UpsertOutcome :
    Env → String → ℕ → Status → World → Result DbError (Unit {0}) × World → Type 0
UpsertOutcome env user n st w (ok t, w') =
    (status_of env user n w'.statuses ≡ some st)
    × (w'.records ≡ w.records)
    × (w'.watermarks ≡ w.watermarks)
    × IsQuiet w w'
UpsertOutcome env user n st w (err e, w') = (w'.db ≡ w.db) × IsQuiet w w'

upsert-outcome :
    (env : Env) (user : String) (n : ℕ) (st : Status) (w : World)
    → UpsertOutcome env user n st w (upsert_by_user_and_notify env user n st w)
unfolding upsert_by_user_and_notify Status.find_by_user_and_notify Status.update Status.create_bulk
    new_rows
upsert-outcome env user n st w =
    if_induction
      (λ (x : Result DbError NotifyStatus × World).
        UpsertOutcome env user n st w (upsert_found env user n st x.0 x.1))
      (env.fails w.calls) (err call_failed, tick w) _ (refl, (refl, refl, refl))
      (by_row (first (where_ (Status.is_of env user n) w.statuses)) refl)
  where
    by_row :
        (o : Option NotifyStatus)
        → first (where_ (Status.is_of env user n) w.statuses) ≡ o
        → UpsertOutcome env user n st w
            (let (r, w') = Status.or_not_found env o (tick w) in upsert_found env user n st r w')
    by_row none h =
        let x =
          new_rows env w.next_id
            (record { notify_id = n; target_user_id = user; status = st } ∷ []) in
        call_last (UpsertOutcome env user n st w) env (tick w)
          (ok tt, with_statuses (w.statuses ++ x) (record (tick w) { next_id = suc w.next_id }))
          (refl, (refl, refl, refl))
          (
            ap status_or (
                first-append (Status.is_of env user n) _ w.statuses
                  (ground (arith, same_iff user user, same_iff n n)) h),
            refl,
            refl,
            (refl, refl, refl),
          )
    by_row (some row) h =
        let x = record row { status = st; update_time = env.now } in
        let same_row : NotifyStatus → Bool = λ s. same s.status_notify_id row.status_notify_id in
        call_last (UpsertOutcome env user n st w) env (tick w)
          (ok tt, with_statuses (update_where same_row (λ s. x) w.statuses) (tick w))
          (refl, (refl, refl, refl))
          (
            ap status_or (
                first-update_where (Status.is_of env user n) same_row row x w.statuses
                  (first-where_ (Status.is_of env user n) row w.statuses h)
                  (ground (arith, same_iff row.status_notify_id row.status_notify_id)) h),
            refl,
            refl,
            (refl, refl, refl),
          )

-- The two ends of MarkRead and of DeleteNotify.
abbrev pub UpdateOutcome :
    Env → String → String → String → Status → World → Result CodeError (Unit {0}) × World → Type 0
UpdateOutcome env id user tenant st w (ok t, w') =
    (r : NotifyRecord) × IsRecord env w id r
    × MayOperate r user tenant
    × (status_of env user r.notify_id w'.statuses ≡ some st)
    × (w'.records ≡ w.records)
    × (w'.watermarks ≡ w.watermarks)
    × (w'.tasks ≡ w.tasks ++ once_op r user ∷ [])
    × (w'.cache ≡ w.cache)
    × (w'.broker ≡ w.broker)
UpdateOutcome env id user tenant st w (err e, w') = (w'.db ≡ w.db) × IsQuiet w w'

-- Marking a notification as read, or deleting it, succeeds only if the record with that id exists,
-- belongs to the caller's tenant, and is a broadcast or names the user. The user's status for it is
-- then the new one, no record and no watermark is changed, and one goroutine is started. If it
-- fails, wherever that is, nothing has changed.
pub exec_status_update-outcome :
    (env : Env) (id user tenant : String) (st : Status) (w : World)
    → UpdateOutcome env id user tenant st w (exec_status_update env id user tenant st w)
unfolding exec_status_update
exec_status_update-outcome env id user tenant st w =
    by_access (validate_notify_access env id user tenant w)
      (validate_notify_access-outcome env id user tenant w)
  where
    by_end :
        (r : NotifyRecord) (x : Result DbError (Unit {0}) × World)
        → IsRecord env w id r
        → MayOperate r user tenant
        → UpsertOutcome env user r.notify_id st (tick w) x
        → UpdateOutcome env id user tenant st w (
            next
              (λ t. start (once_op r user))
              (or_raise (new_code_error internal_error "更新通知状态失败") (λ v. x) w))
    by_end r (ok t, w') i m (s, q, k, (c, b, ts)) =
        (r, i, m, s, q, k, ap (λ l. l ++ once_op r user ∷ []) ts, c, b)
    by_end r (err e, w') i m o = o

    by_access :
        (x : Result CodeError NotifyRecord × World)
        → AccessOutcome env id user tenant w x
        → UpdateOutcome env id user tenant st w (next (update_found env user st) x)
    by_access (err e, w') o = o
    by_access (ok r, w') (i, m, e) = rw e (
        by_end r (upsert_by_user_and_notify env user r.notify_id st (tick w)) i m
          (upsert-outcome env user r.notify_id st (tick w)))

exec_status_update-ok :
    (env : Env) (id user tenant : String) (st : Status) (w : World) (r : NotifyRecord)
    → id ≢ ""
    → user ≢ ""
    → tenant ≢ ""
    → IsRecord env w id r
    → MayOperate r user tenant
    → (exec_status_update (no_failure env) id user tenant st w).0 ≡ ok tt
unfolding exec_status_update update_found validate_notify_access allowed Record.find_by_id
    upsert_by_user_and_notify Status.find_by_user_and_notify Status.update Status.create_bulk
exec_status_update-ok env id user tenant st w r i u t (n, h, g) m =
    let a = (may_operate_iff r user tenant).1 m in
    let named : (same id "" || same user "" || same tenant "") ≡ false =
      ground (arith, same_iff id "", same_iff user "", same_iff tenant "") in
    let at : find_record (no_failure env) id w ≡ (ok r, tick w) =
      rw (h, find_record, Record.find_by_id) (rw (g, Record.or_not_found) refl) in
    let may : allowed (no_failure env) user tenant r (tick w) ≡ (ok r, tick w) =
      rw (a, allowed) refl in
    let access : validate_notify_access (no_failure env) id user tenant w ≡ (ok r, tick w) =
      rw (named, validate_notify_access)
        (rw (h, has_uuid) (ap (next (allowed (no_failure env) user tenant)) at ∙ may)) in
    ap (λ x. (next (update_found (no_failure env) user st) x).0) access
    ∙ by_row (first (where_ (Status.is_of env user r.notify_id) w.statuses))
  where
    by_row :
        (o : Option NotifyStatus)
        → (next
            (λ (t : Unit {0}). start (once_op r user))
            (or_raise
              (new_code_error internal_error "更新通知状态失败")
              (λ v.
                let (x, w') = Status.or_not_found env o (tick (tick w)) in
                upsert_found (no_failure env) user r.notify_id st x w')
              w)).0
          ≡ ok tt
    by_row none = refl
    by_row (some row) = refl

-- If MarkRead or DeleteNotify succeeds, it has done so to the record with that id.
done_to :
    (env : Env) (id user tenant : String) (st : Status) (w : World) (r : NotifyRecord)
    (x : Result CodeError (Unit {0}) × World)
    → IsRecord env w id r
    → UpdateOutcome env id user tenant st w x
    → x.0 ≡ ok tt
    → (status_of env user r.notify_id x.1.statuses ≡ some st)
      × (x.1.tasks ≡ w.tasks ++ once_op r user ∷ [])
done_to env id user tenant st w r (err e, w') i o h = cc h
done_to env id user tenant st w r (ok t, w') (n, p, g) (r', (n', p', g'), m, s, q, k, ts, c, b) h =
    let same_id : n' ≡ n = cc (p, p') in
    let e : r' ≡ r = cc (rw same_id at g', g) in
    subst
      (λ (x : NotifyRecord).
        (status_of env user x.notify_id w'.statuses ≡ some st)
        × (w'.tasks ≡ w.tasks ++ once_op x user ∷ []))
      e (s, ts)

-- If no call fails, a user who may operate on the record with that id does so: the operation
-- succeeds, the user's status for that record is then the new one, and the goroutine that brings
-- the unread counts up to date is started for it.
pub exec_status_update-allowed :
    (env : Env) (id user tenant : String) (st : Status) (w : World) (r : NotifyRecord)
    → id ≢ ""
    → user ≢ ""
    → tenant ≢ ""
    → IsRecord env w id r
    → MayOperate r user tenant
    → let x = exec_status_update (no_failure env) id user tenant st w in
      (x.0 ≡ ok tt)
      × (status_of (no_failure env) user r.notify_id x.1.statuses ≡ some st)
      × (x.1.tasks ≡ w.tasks ++ once_op r user ∷ [])
exec_status_update-allowed env id user tenant st w r i u t h m =
    let e = exec_status_update-ok env id user tenant st w r i u t h m in
    let (status, task) =
      done_to (no_failure env) id user tenant st w r
        (exec_status_update (no_failure env) id user tenant st w) h
        (exec_status_update-outcome (no_failure env) id user tenant st w) e in
    (e, status, task)
