-- ===== src/Service/Status/Batch.antt =====
-- TenantBatchMarkRead of internal/service/status.go and the statistics that follow it.
use bs_notify_hub.Prelude.{
  ℕ, ◌≤◌, ◌≡◌, refl, ap, ◌∙◌, Option, some, List, [], ◌∷◌, String, string_key, nat_key, same_iff,
  arith, where_, count_where, length, map,
}
use bs_notify_hub.Constant.{read, category_tenant}
use bs_notify_hub.Model.{NotifyRecord, NotifyStatus, NotifyWatermark}
use bs_notify_hub.Response.{CodeError, new_code_error, internal_error}
use bs_notify_hub.World.{
  World, Env, DbError, Result, ok, err, M, or_raise, start, batch_op, no_failure, ◌>>◌,
}
use bs_notify_hub.World.Rules.{tick, next, IsQuiet, call_then, call_last, transaction_cases}
use bs_notify_hub.Repository.Query.{first, Joined, or_null, left_join, joins}
use bs_notify_hub.Repository.Record.Page.{
  tenant_rows, in_tenant_inbox, tenant_counts_as_unread, read_at_of, clear_at_of,
}
use bs_notify_hub.Repository.Record.Page
use bs_notify_hub.Repository.Record.Page.Own.{All, All-append, All-where_}
use bs_notify_hub.Repository.Status
use bs_notify_hub.Repository.Watermark
use bs_notify_hub.Service.Status.{tenant_batch_mark_read}
use bs_notify_hub.Service.Inbox

-- The user's watermark, as FindByTenantAndUser finds it.
abbrev mark_in : String → String → List NotifyWatermark → Option NotifyWatermark
mark_in tenant user ms = first (where_ (Watermark.is_of tenant user) ms)

mark_in-upsert :
    (tenant user : String) (now : ℕ) (ms : List NotifyWatermark)
    → read_at_of (
        mark_in tenant user
          (Watermark.upsert tenant user (λ m. record m { tenant_read_at = now }) ms))
      ≡ now
unfolding Watermark.upsert
mark_in-upsert tenant user now [] = ground (arith, same_iff tenant tenant, same_iff user user)
mark_in-upsert tenant user now (m ∷ ms) = ground (arith, mark_in-upsert tenant user now ms)

abbrev IsPast : ℕ → Joined → Type 0
IsPast now j = j.0.created_at ≤ now

row-IsPast :
    (now : ℕ) (r : NotifyRecord) (ss : List NotifyStatus)
    → r.created_at ≤ now
    → All (IsPast now) (or_null r ss)
row-IsPast now r [] h = (h, tt)
row-IsPast now r (s ∷ ss) h = (h, rest ss)
  where
    rest : (ts : List NotifyStatus) → All (IsPast now) (map (λ x. (r, some x)) ts)
    rest [] = tt
    rest (t ∷ ts) = (h, rest ts)

left_join-IsPast :
    (now : ℕ) (user : String) (rs : List NotifyRecord) (ss : List NotifyStatus)
    → All (λ r. r.created_at ≤ now) rs
    → All (IsPast now) (left_join user rs ss)
unfolding left_join
left_join-IsPast now user [] ss h = tt
left_join-IsPast now user (r ∷ rs) ss h =
    All-append (IsPast now) _ _ (row-IsPast now r (where_ (joins user r) ss) h.0)
      (left_join-IsPast now user rs ss h.1)

count_past :
    (now : ℕ) (js : List Joined)
    → All (IsPast now) js
    → count_where (tenant_counts_as_unread now) js ≡ 0
count_past now [] h = refl
count_past now (j ∷ js) h = ground (arith, h.0, count_past now js h.1)

abbrev BodyOutcome : Env → String → String → World → Result DbError (Unit {0}) × World → Type 0
BodyOutcome env user tenant w (ok t, w') =
    (w'.records ≡ w.records)
    × (read_at_of (mark_in tenant user w'.watermarks) ≡ env.now)
    × IsQuiet w w'
BodyOutcome env user tenant w (err e, w') = IsQuiet w w'

abbrev body : Env → String → String → M DbError (Unit {0})
body env user tenant =
    Watermark.upsert_tenant_read_at env tenant user env.now
    >> Status.batch_mark_tenant_non_broadcast_read_by_user env user tenant

body-outcome :
    (env : Env) (user tenant : String) (w : World)
    → BodyOutcome env user tenant w (body env user tenant w)
unfolding Watermark.upsert_tenant_read_at Status.batch_mark_tenant_non_broadcast_read_by_user
body-outcome env user tenant w =
    let ms =
      Watermark.upsert tenant user (λ m. record m { tenant_read_at = env.now }) w.watermarks in
    let w1 = record (tick w) { db = record w.db { watermarks = ms } } in
    let mark = Status.mark env user (Status.is_tenant_non_broadcast env tenant) read in
    call_then (BodyOutcome env user tenant w)
      (λ (t : Unit {0}). Status.batch_mark_tenant_non_broadcast_read_by_user env user tenant) env w
      (ok tt, w1) (refl, refl, refl)
      (call_last (BodyOutcome env user tenant w) env w1
        (ok tt, record (tick w1) { db = mark w1.db }) (refl, refl, refl)
        (refl, mark_in-upsert tenant user env.now w.watermarks, (refl, refl, refl)))

-- The two ends of TenantBatchMarkRead: nothing counts as unread, or nothing has changed.
abbrev pub ReadOutcome :
    Env → String → String → World → Result CodeError (Unit {0}) × World → Type 0
ReadOutcome env user tenant w (ok t, w') =
    (n : ℕ) × ((Inbox.get_tenant_stats (no_failure env) tenant user w').0 ≡ ok (n, 0))
ReadOutcome env user tenant w (err e, w') = (w'.db ≡ w.db) × IsQuiet w w'

stats_after :
    (env : Env) (user tenant : String) (w : World) (now : ℕ)
    → All (λ r. r.created_at ≤ now) w.records
    → read_at_of (mark_in tenant user w.watermarks) ≡ now
    → (n : ℕ) × ((Inbox.get_tenant_stats (no_failure env) tenant user w).0 ≡ ok (n, 0))
unfolding Inbox.get_tenant_stats Watermark.find_by_tenant_and_user Page.get_tenant_stats tenant_rows
stats_after env user tenant w now past e =
    let mark = mark_in tenant user w.watermarks in
    let rows = tenant_rows tenant user (clear_at_of mark) w.db in
    let zero_ : count_where (tenant_counts_as_unread now) rows ≡ 0 = count_past now rows (
      All-where_ (IsPast now) (IsPast now) (in_tenant_inbox tenant (clear_at_of mark)) _
        (λ j x p. p) (left_join-IsPast now user w.records w.statuses past)) in
    (
      length rows,
      ap (λ t. ok (length rows, count_where (tenant_counts_as_unread t) rows)) e
          ∙ ap (λ k. ok (length rows, k)) zero_,
    )

-- When a user has marked all of a tenant's notifications as read, and none of the records lies
-- in the future, the statistics of the tenant inbox show no unread one, if the calls that read
-- them do not fail. If the operation fails, nothing has changed.
pub tenant_batch_mark_read-outcome :
    (env : Env) (user tenant : String) (w : World)
    → All (λ r. r.created_at ≤ env.now) w.records
    → ReadOutcome env user tenant w (tenant_batch_mark_read env user tenant w)
unfolding tenant_batch_mark_read
tenant_batch_mark_read-outcome env user tenant w past =
    transaction_cases
      (λ x. ReadOutcome env user tenant w (
        next (λ (t : Unit {0}). start (batch_op user tenant category_tenant))
          (or_raise (new_code_error internal_error "更新用户通知已读状态和水位线失败") (λ v. x) w)))
      (BodyOutcome env user tenant (tick w)) env (body env user tenant) w
      (body-outcome env user tenant (tick w)) (refl, (refl, refl, refl)) (λ e w' q. (refl, q))
      (λ t w' q. (refl, q.2)) (λ t w' q. stats_after env user tenant _ env.now (rw q.0 past) q.1)
