-- ===== src/Service/Status/Access.antt =====
-- validateNotifyAccess of internal/service/status.go.
use bs_notify_hub.Prelude.{
  ℕ, ◌≡◌, ◌↔◌, ◌⊎◌, inl, inr, refl, true, Option, none, some, List, [], ◌∷◌, String, same,
  string_key, nat_key, same_iff, arith, where_, Bool-cases, if_induction, if_cases_at, ◌||◌,
  if◌then◌else◌,
}
use bs_notify_hub.Dispatch.Message.{
  TargetType, is_broadcast, target_single, target_multiple, target_broadcast,
}
use bs_notify_hub.Model.{NotifyRecord}
use bs_notify_hub.Response.{CodeError, new_code_error, bad_request}
use bs_notify_hub.World.{World, Env, DbError, call_failed, Result, ok, err, M, ◌>>=◌, raise}
use bs_notify_hub.World.Rules.{tick, next, IsQuiet}
use bs_notify_hub.Repository.Query.{first}
use bs_notify_hub.Repository.Record
use bs_notify_hub.Service.Status.{
  contains_user, may_operate, find_record, has_uuid, found, allowed, validate_notify_access,
}

-- The user is one of the list.
abbrev pub IsIn : String → List String → Type 0
IsIn u [] = ⊥
IsIn u (x ∷ xs) = (x ≡ u) ⊎ IsIn u xs

-- The record is the tenant's, and is for every user or for this one.
abbrev pub MayOperate : NotifyRecord → String → String → Type 0
MayOperate r user tenant =
    (r.tenant_id ≡ tenant) × ((r.target_type ≡ target_broadcast) ⊎ IsIn user r.target_ids)

contains_user_iff : (us : List String) (u : String) → (contains_user us u ≡ true) ↔ IsIn u us
unfolding contains_user
contains_user_iff [] u = (λ h. cc h, λ h. elim h [ ])
contains_user_iff (x ∷ us) u =
    let ih = contains_user_iff us u in
    elim (Bool-cases (same x u)) [
      | inl h ↦ rw h (λ k. inl ((same_iff x u).0 h), λ k. refl)
      | inr h ↦
          rw h (
            λ k. inr (ih.0 k),
            λ k. elim k [ inl e ↦ ground (arith, same_iff x u) | inr m ↦ ih.1 m ],
          )
    ]

is_broadcast_iff : (t : TargetType) → (is_broadcast t ≡ true) ↔ (t ≡ target_broadcast)
is_broadcast_iff target_single = (λ h. cc h, λ h. cc h)
is_broadcast_iff target_multiple = (λ h. cc h, λ h. cc h)
is_broadcast_iff target_broadcast = (λ h. refl, λ h. refl)

-- The service lets a user operate on a record exactly if the record is the tenant's, and is a
-- broadcast or names the user.
pub may_operate_iff :
    (r : NotifyRecord) (user tenant : String)
    → (may_operate r user tenant ≡ true) ↔ MayOperate r user tenant
unfolding may_operate
may_operate_iff r user tenant =
    let b = is_broadcast_iff r.target_type in
    let c = contains_user_iff r.target_ids user in
    let e = same_iff r.tenant_id tenant in
    elim (Bool-cases (same r.tenant_id tenant)) [
      | inr h ↦ (λ k. ground arith, λ (t, m). ground (arith, e))
      | inl h ↦ elim (Bool-cases (is_broadcast r.target_type)) [
        | inl g ↦ (λ k. (e.0 h, inl (b.0 g)), λ (t, m). ground arith)
        | inr g ↦ (
          λ k. (e.0 h, inr (c.0 (ground arith))),
          λ (t, m). elim m [ inl q ↦ ground (arith, b) | inr q ↦ ground (arith, c.1 q) ],
        )
      ]
    ]

-- The record with an id: the text read as a UUID, the first row with that number.
abbrev pub IsRecord : Env → World → String → NotifyRecord → Type 0
IsRecord env w id r =
    (n : ℕ) × (env.uuid_parse id ≡ some n)
    × (first (where_ (λ x. same x.notify_id n) w.records) ≡ some r)

-- The two ends of validateNotifyAccess.
abbrev pub AccessOutcome :
    Env → String → String → String → World → Result CodeError NotifyRecord × World → Type 0
AccessOutcome env id user tenant w (ok r, w') =
    IsRecord env w id r × MayOperate r user tenant × (w' ≡ tick w)
AccessOutcome env id user tenant w (err e, w') = (w'.db ≡ w.db) × IsQuiet w w'

pub validate_notify_access-outcome :
    (env : Env) (id user tenant : String) (w : World)
    → AccessOutcome env id user tenant w (validate_notify_access env id user tenant w)
unfolding validate_notify_access Record.find_by_id
validate_notify_access-outcome env id user tenant w =
    if_induction (λ (m : M CodeError NotifyRecord). AccessOutcome env id user tenant w (m w))
      (same id "" || same user "" || same tenant "") _ _ (refl, (refl, refl, refl))
      (by_id (env.uuid_parse id) refl)
  where
    by_row :
        (n : ℕ) (o : Option NotifyRecord)
        → env.uuid_parse id ≡ some n
        → first (where_ (λ x. same x.notify_id n) w.records) ≡ o
        → AccessOutcome env id user tenant w (
            next
              (allowed env user tenant)
              (let (r, w') = Record.or_not_found env o (tick w) in found env r w'))
    by_row n none h g = (refl, (refl, refl, refl))
    by_row n (some r) h g =
        if_cases_at
          (λ (m : M CodeError NotifyRecord). AccessOutcome env id user tenant w (m (tick w)))
          (may_operate r user tenant) _ _
          (λ yes_. ((n, h, g), (may_operate_iff r user tenant).0 yes_, refl))
          (λ no_. (refl, (refl, refl, refl)))

    by_id :
        (o : Option ℕ)
        → env.uuid_parse id ≡ o
        → AccessOutcome env id user tenant w (
            (if has_uuid env o
                then (find_record env id >>= allowed env user tenant)
                else raise (new_code_error bad_request "notifyId 格式不正确"))
              w)
    by_id none h = (refl, (refl, refl, refl))
    by_id (some n) h =
        if_induction
          (λ (x : Result DbError NotifyRecord × World).
            AccessOutcome env id user tenant w (next (allowed env user tenant) (found env x.0 x.1)))
          (env.fails w.calls) (err call_failed, tick w) _ (refl, (refl, refl, refl))
          (rw h (by_row n (first (where_ (λ x. same x.notify_id n) w.records)) h refl))
