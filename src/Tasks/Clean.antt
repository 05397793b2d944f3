-- ===== src/Tasks/Clean.antt =====
-- What RunOnce of internal/tasks/notify_cleanup.go leaves in the table of records.
use bs_notify_hub.Prelude.{
  ℕ, zero, suc, ◌<◌, ◌≡◌, refl, sym, ap, subst, ◌∙◌, Bool, not, Option, none, some, List, [], ◌∷◌,
  length, where_, map, arith, if_induction, if_cases_at, ltb,
}
use bs_notify_hub.Model.{NotifyRecord}
use bs_notify_hub.World.{World, Env, DbError, call_failed, Result, ok, err}
use bs_notify_hub.World.Rules.{tick}
use bs_notify_hub.Repository.Query.{is_in}
use bs_notify_hub.Repository.Record
use bs_notify_hub.Repository.Record.{ExpiredNotifyInfo, info_of, expired_records, expires_by}
use bs_notify_hub.Tasks.{
  CleanupError, Round, ends, goes_on, cleanup_round, after_list, after_delete, delete_all,
  run_rounds, run_once, notify_cleanup_batch_size,
}
use bs_notify_hub.Tasks.Rounds.{sync-KeepsDb}
use bs_notify_hub.Tasks.Batch.{batch_ids, short_batch}
use bs_notify_hub.Tasks.End.{DeleteOutcome, delete_all-outcome, run_once-ends}

-- The records that have expired by `now`.
abbrev pub expired_at : ℕ → List NotifyRecord → List NotifyRecord
expired_at now rs = where_ (λ r. expires_by now r.expire_at) rs

abbrev RoundClean : ℕ → Round → Type 0
RoundClean now (ends n none w) = expired_at now w.records ≡ []
RoundClean now (ends n (some e) w) = Unit
RoundClean now (goes_on n w) = Unit

-- The loop has an end, and if there is no error at the end, no record is left that had expired.
abbrev pub EndsClean : ℕ → Option ((ℕ × Option CleanupError) × World) → Type 0
EndsClean now none = ⊥
EndsClean now (some ((n, none), w)) = expired_at now w.records ≡ []
EndsClean now (some ((n, some e), w)) = Unit

length-map_info : (rows : List NotifyRecord) → length (map info_of rows) ≡ length rows
length-map_info [] = refl
length-map_info (r ∷ rs) = ap suc (length-map_info rs)

where_-kept : (rs : List NotifyRecord) → where_ (λ r. not (is_in r.notify_id [])) rs ≡ rs
unfolding is_in
where_-kept [] = refl
where_-kept (r ∷ rs) = ap (λ t. r ∷ t) (where_-kept rs)

module _ (env : Env) (done : ℕ → Bool) where
  after_delete-RoundClean :
      (total : ℕ) (infos : List ExpiredNotifyInfo) (w : World) (ids : List ℕ)
      (x : Result DbError (Unit {0}) × World)
      → DeleteOutcome ids w x
      → (length infos < 500
          → expired_at env.now (where_ (λ r. not (is_in r.notify_id ids)) w.records) ≡ [])
      → RoundClean env.now (after_delete env done total infos x)
  after_delete-RoundClean total infos w ids (err e, w') o h = tt
  after_delete-RoundClean total infos w ids (ok t, w') o h =
      if_cases_at (RoundClean env.now) (ltb (length infos) notify_cleanup_batch_size) _ _
        (λ e.
          ap (λ d. expired_at env.now d.records) (sync-KeepsDb env infos w')
          ∙ (ap (expired_at env.now) o ∙ h (ground (arith, e))))
        (λ e. tt)

  batch_cleared :
      (rs rows : List NotifyRecord)
      → expired_records env.now notify_cleanup_batch_size rs ≡ rows
      → length rows < notify_cleanup_batch_size
      → expired_at env.now (where_ (λ r. not (is_in r.notify_id (batch_ids rows))) rs) ≡ []
  batch_cleared rs rows e =
      subst
        (λ (b : List NotifyRecord).
          length b < notify_cleanup_batch_size
          → expired_at env.now (where_ (λ r. not (is_in r.notify_id (batch_ids b))) rs) ≡ [])
        e (short_batch env.now notify_cleanup_batch_size rs)

  cleanup_round-RoundClean :
      (i total : ℕ) (w : World) → RoundClean env.now (cleanup_round env done i total w)
  unfolding cleanup_round Record.list_expired_notify_infos
  cleanup_round-RoundClean i total w = if_induction (RoundClean env.now) (done i) _ _ tt (
      if_induction
        (λ (x : Result DbError (List ExpiredNotifyInfo) × World).
          RoundClean env.now (after_list env done total x))
        (env.fails w.calls) (err call_failed, tick w) _ tt
        (by_rows (expired_records env.now notify_cleanup_batch_size w.records) refl))
    where
      by_rows :
          (rows : List NotifyRecord)
          → expired_records env.now notify_cleanup_batch_size w.records ≡ rows
          → RoundClean env.now (after_list env done total (ok (map info_of rows), tick w))
      by_rows [] e =
          sym (ap (expired_at env.now) (where_-kept w.records))
          ∙ batch_cleared w.records [] e (omega arith)
      by_rows (r ∷ rs) e =
          let ids = batch_ids (r ∷ rs) in
          after_delete-RoundClean total (map info_of (r ∷ rs)) (tick w) ids
            (delete_all env done ids (tick w))
            (delete_all-outcome env done r.notify_id (batch_ids rs) (tick w))
            (λ h. batch_cleared w.records (r ∷ rs) e (omega (arith, h, length-map_info (r ∷ rs))))

  run_rounds-EndsClean :
      (fuel i total : ℕ) (w : World) (res : (ℕ × Option CleanupError) × World)
      → run_rounds env done fuel i total w ≡ some res
      → EndsClean env.now (some res)
  unfolding run_rounds
  run_rounds-EndsClean zero i total w res e = cc e
  run_rounds-EndsClean (suc fuel) i total w res e =
      by_round (cleanup_round env done i total w) (cleanup_round-RoundClean i total w)
        (λ n w' k. run_rounds-EndsClean fuel (suc i) n w' res k) e
    where
      by_round :
          (x : Round)
          → RoundClean env.now x
          → ((n : ℕ) (w' : World)
              → run_rounds env done fuel (suc i) n w' ≡ some res
              → EndsClean env.now (some res))
          → elim x [
            | ends n e w' ↦ some ((n, e), w')
            | goes_on n w' ↦ run_rounds env done fuel (suc i) n w'
          ]
            ≡ some res
          → EndsClean env.now (some res)
      by_round (ends n none w') c rest k = subst (EndsClean env.now) k c
      by_round (ends n (some x) w') c rest k = subst (EndsClean env.now) k tt
      by_round (goes_on n w') c rest k = rest n w' k

  -- The cleanup comes to an end within one round more than there are records, whichever calls fail
  -- and whenever the context is cancelled, and if it reports no error, no record is left that had
  -- expired when it began.
  pub run_once-EndsClean : (w : World) → EndsClean env.now (run_once env done w)
  unfolding run_once
  run_once-EndsClean w =
      let (res, e) = run_once-ends env done w in
      subst (EndsClean env.now) (sym e) (run_rounds-EndsClean (suc (length w.records)) 0 0 w res e)
