-- ===== src/Tasks/Safe.antt =====
-- RunOnce of internal/tasks/notify_cleanup.go and the records that have not expired.
use bs_notify_hub.Prelude.{
  ℕ, zero, suc, ◌≡◌, refl, sym, ap, subst, ◌∙◌, inl, inr, Bool, not, Option, none, some, List, [],
  ◌∷◌, length, where_, map, if_induction, ltb,
}
use bs_notify_hub.Model.{NotifyRecord}
use bs_notify_hub.World.{World, Env, DbError, call_failed, Result, ok, err}
use bs_notify_hub.World.Rules.{tick}
use bs_notify_hub.Repository.Query.{is_in}
use bs_notify_hub.Repository.Record
use bs_notify_hub.Repository.Record.{ExpiredNotifyInfo, info_of, expired_records}
use bs_notify_hub.Tasks.{
  CleanupError, Round, ends, goes_on, cleanup_round, after_list, after_delete, delete_all,
  run_rounds, run_once, notify_cleanup_batch_size,
}
use bs_notify_hub.Tasks.Rounds.{sync-KeepsDb}
use bs_notify_hub.Tasks.Batch.{batch_ids}
use bs_notify_hub.Tasks.Kept.{DistinctIds, live_at, where_-DistinctIds, batch-live_at}
use bs_notify_hub.Tasks.End.{DeleteOutcome, delete_all-outcome, run_once-ends}

-- A round leaves the records `live`, and if it goes on, the ids distinct.
abbrev RoundSafe : ℕ → List NotifyRecord → Round → Type 0
RoundSafe now live (ends n e w) = live_at now w.records ≡ live
RoundSafe now live (goes_on n w) = (live_at now w.records ≡ live) × DistinctIds w.records

-- The loop has an end, and leaves the records `live`.
abbrev pub EndsSafe : ℕ → List NotifyRecord → Option ((ℕ × Option CleanupError) × World) → Type 0
EndsSafe now live none = ⊥
EndsSafe now live (some (r, w)) = live_at now w.records ≡ live

module _ (env : Env) (done : ℕ → Bool) where
  after_delete-RoundSafe :
      (total : ℕ) (infos : List ExpiredNotifyInfo) (w : World) (ids : List ℕ)
      (x : Result DbError (Unit {0}) × World)
      → DeleteOutcome ids w x
      → DistinctIds w.records
      → live_at env.now (where_ (λ r. not (is_in r.notify_id ids)) w.records)
        ≡ live_at env.now w.records
      → RoundSafe env.now (live_at env.now w.records) (after_delete env done total infos x)
  after_delete-RoundSafe total infos w ids (err e, w') (inl o) d h = ap (live_at env.now) o
  after_delete-RoundSafe total infos w ids (err e, w') (inr o) d h = ap (live_at env.now) o ∙ h
  after_delete-RoundSafe total infos w ids (ok t, w') o d h =
      let same_rows = ap (λ d. d.records) (sync-KeepsDb env infos w') ∙ o in
      let live = ap (live_at env.now) same_rows ∙ h in
      if_induction (RoundSafe env.now (live_at env.now w.records))
        (ltb (length infos) notify_cleanup_batch_size) _ _ live
        (
          live,
          subst DistinctIds (sym same_rows)
              (where_-DistinctIds (λ r. not (is_in r.notify_id ids)) w.records d),
        )

  cleanup_round-RoundSafe :
      (i total : ℕ) (w : World)
      → DistinctIds w.records
      → RoundSafe env.now (live_at env.now w.records) (cleanup_round env done i total w)
  unfolding cleanup_round Record.list_expired_notify_infos
  cleanup_round-RoundSafe i total w d =
      let Safe = RoundSafe env.now (live_at env.now w.records) in
      if_induction Safe (done i) _ _ refl (
        if_induction
          (λ (x : Result DbError (List ExpiredNotifyInfo) × World).
            Safe (after_list env done total x))
          (env.fails w.calls) (err call_failed, tick w) _ refl
          (by_rows (expired_records env.now notify_cleanup_batch_size w.records) refl))
    where
      by_rows :
          (rows : List NotifyRecord)
          → expired_records env.now notify_cleanup_batch_size w.records ≡ rows
          → RoundSafe env.now
              (live_at env.now w.records)
              (after_list env done total (ok (map info_of rows), tick w))
      by_rows [] e = refl
      by_rows (r ∷ rs) e =
          let ids = batch_ids (r ∷ rs) in
          after_delete-RoundSafe total (map info_of (r ∷ rs)) (tick w) ids
            (delete_all env done ids (tick w))
            (delete_all-outcome env done r.notify_id (batch_ids rs) (tick w)) d
            (subst
              (λ (b : List NotifyRecord).
                live_at env.now (where_ (λ x. not (is_in x.notify_id (batch_ids b))) w.records)
                ≡ live_at env.now w.records)
              e (batch-live_at env.now notify_cleanup_batch_size w.records d))

  run_rounds-EndsSafe :
      (fuel i total : ℕ) (w : World) (res : (ℕ × Option CleanupError) × World)
      → DistinctIds w.records
      → run_rounds env done fuel i total w ≡ some res
      → EndsSafe env.now (live_at env.now w.records) (some res)
  unfolding run_rounds
  run_rounds-EndsSafe zero i total w res d e = cc e
  run_rounds-EndsSafe (suc fuel) i total w res d e =
      by_round (cleanup_round env done i total w) (cleanup_round-RoundSafe i total w d)
        (λ n w' d' k. run_rounds-EndsSafe fuel (suc i) n w' res d' k) e
    where
      by_round :
          (x : Round)
          → RoundSafe env.now (live_at env.now w.records) x
          → ((n : ℕ) (w' : World)
              → DistinctIds w'.records
              → run_rounds env done fuel (suc i) n w' ≡ some res
              → EndsSafe env.now (live_at env.now w'.records) (some res))
          → elim x [
            | ends n e w' ↦ some ((n, e), w')
            | goes_on n w' ↦ run_rounds env done fuel (suc i) n w'
          ]
            ≡ some res
          → EndsSafe env.now (live_at env.now w.records) (some res)
      by_round (ends n x w') c rest k = subst (EndsSafe env.now (live_at env.now w.records)) k c
      by_round (goes_on n w') (c, d') rest k = rest n w' d' k ∙ c

  -- If no two records have one id, the cleanup ends with all the records that have not expired when
  -- it begins, in their order, whichever calls fail, a commit included, and whenever it is cancelled.
  pub run_once-EndsSafe :
      (w : World)
      → DistinctIds w.records
      → EndsSafe env.now (live_at env.now w.records) (run_once env done w)
  unfolding run_once
  run_once-EndsSafe w d =
      let (res, e) = run_once-ends env done w in
      subst (EndsSafe env.now (live_at env.now w.records)) (sym e)
        (run_rounds-EndsSafe (suc (length w.records)) 0 0 w res d e)
