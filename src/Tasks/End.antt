-- ===== src/Tasks/End.antt =====
-- The end of RunOnce in internal/tasks/notify_cleanup.go.
use bs_notify_hub.Prelude.{
  ℕ, zero, suc, ◌<◌, ◌≡◌, refl, ap, ◌∙◌, ◌⊎◌, inl, inr, Bool, not, Option, some, List, [], ◌∷◌,
  length, where_, map, arith, if_induction, ltb,
}
use bs_notify_hub.Model.{NotifyRecord}
use bs_notify_hub.World.{World, Env, DbError, call_failed, Result, ok, err, commit_or_back}
use bs_notify_hub.World.Rules.{tick, call_then, call_last}
use bs_notify_hub.Repository.Query.{is_in}
use bs_notify_hub.Repository.Record
use bs_notify_hub.Repository.Record.{ExpiredNotifyInfo, info_of, expired_records}
use bs_notify_hub.Repository.Status
use bs_notify_hub.Tasks.{
  CleanupError, Round, ends, goes_on, cleanup_round, after_list, after_delete, delete_all, ids_of,
  run_rounds, run_once, notify_cleanup_batch_size,
}
use bs_notify_hub.Tasks.Rounds.{deleted_lt, sync-KeepsDb}

-- A round that goes on leaves fewer records.
abbrev Shrinks : World → Round → Type 0
Shrinks w (ends n e w') = Unit
Shrinks w (goes_on n w') = length w'.records < length w.records

-- The records with those ids are gone if the deletion succeeds, and all or none of them if it fails:
-- the body of the transaction writes beside it.
abbrev pub DeleteOutcome : List ℕ → World → Result DbError (Unit {0}) × World → Type 0
DeleteOutcome ids w (ok t, w') = w'.records ≡ where_ (λ r. not (is_in r.notify_id ids)) w.records
DeleteOutcome ids w (err e, w') =
    (w'.records ≡ w.records) ⊎ (w'.records ≡ where_ (λ r. not (is_in r.notify_id ids)) w.records)

module _ (env : Env) (done : ℕ → Bool) where
  pub delete_all-outcome :
      (i : ℕ) (is : List ℕ) (w : World) → DeleteOutcome (i ∷ is) w (delete_all env done (i ∷ is) w)
  unfolding delete_all Status.delete_by_notify_ids Record.delete_by_notify_ids
  delete_all-outcome i is w =
      let ids = i ∷ is in
      let D = DeleteOutcome ids w in
      let w1 = record (tick (tick w)) {
        db = record w.db { statuses = where_ (λ s. not (is_in s.notify_id ids)) w.statuses };
      } in
      let w2 = record (tick w1) {
        db = record w1.db { records = where_ (λ r. not (is_in r.notify_id ids)) w.records };
      } in
      if_induction D (env.fails w.calls) _ _ (inl refl) (
        call_then (λ x. D (commit_or_back env x.1.db x.0 x.1))
          (λ (t : Unit {0}). Record.delete_by_notify_ids env ids) env (tick w) (ok tt, w1)
          (inl refl)
          (call_last (λ x. D (commit_or_back env x.1.db x.0 x.1)) env w1 (ok tt, w2) (inl refl)
            (if_induction D (env.fails w2.calls) _ _ (inr refl) refl)))

  after_delete-Shrinks :
      (total : ℕ) (infos : List ExpiredNotifyInfo) (w : World) (ids : List ℕ)
      (x : Result DbError (Unit {0}) × World)
      → DeleteOutcome ids w x
      → length (where_ (λ r. not (is_in r.notify_id ids)) w.records) < length w.records
      → Shrinks w (after_delete env done total infos x)
  after_delete-Shrinks total infos w ids (err e, w') o h = tt
  after_delete-Shrinks total infos w ids (ok t, w') o h =
      if_induction (Shrinks w) (ltb (length infos) notify_cleanup_batch_size) _ _ tt
        (ground (arith, ap (λ d. length d.records) (sync-KeepsDb env infos w'), ap length o, h))

  cleanup_round-Shrinks : (i total : ℕ) (w : World) → Shrinks w (cleanup_round env done i total w)
  unfolding cleanup_round Record.list_expired_notify_infos
  cleanup_round-Shrinks i total w = if_induction (Shrinks w) (done i) _ _ tt (
      if_induction
        (λ (x : Result DbError (List ExpiredNotifyInfo) × World).
          Shrinks w (after_list env done total x))
        (env.fails w.calls) (err call_failed, tick w) _ tt
        (by_rows (expired_records env.now notify_cleanup_batch_size w.records) refl))
    where
      by_rows :
          (rows : List NotifyRecord)
          → expired_records env.now notify_cleanup_batch_size w.records ≡ rows
          → Shrinks w (after_list env done total (ok (map info_of rows), tick w))
      by_rows [] e = tt
      by_rows (r ∷ rs) e =
          let ids = ids_of env done (map info_of (r ∷ rs)) in
          after_delete-Shrinks total (map info_of (r ∷ rs)) w ids (delete_all env done ids (tick w))
            (delete_all-outcome r.notify_id (ids_of env done (map info_of rs)) (tick w))
            (deleted_lt env.now notify_cleanup_batch_size w.records r rs e
              (ids_of env done (map info_of rs)))

  -- One round, and the rest of the loop.
  unfoldable next_round : ℕ → ℕ → Round → Option ((ℕ × Option CleanupError) × World)
  next_round fuel i (ends n e w') = some ((n, e), w')
  next_round fuel i (goes_on n w') = run_rounds env done fuel (suc i) n w'

  next_round-ends :
      (fuel i : ℕ) (w : World) (x : Round)
      → length w.records < suc fuel
      → Shrinks w x
      → ((n : ℕ) (w' : World)
          → length w'.records < fuel
          → (res : (ℕ × Option CleanupError) × World) × (run_rounds env done fuel (suc i) n w'
              ≡ some res))
      → (res : (ℕ × Option CleanupError) × World) × (next_round fuel i x ≡ some res)
  unfolding next_round
  next_round-ends fuel i w (ends n e w') h s rest = (((n, e), w'), refl)
  next_round-ends fuel i w (goes_on n w') h s rest = rest n w' (omega (arith, s, h))

  run_rounds-ends :
      (fuel i total : ℕ) (w : World)
      → length w.records < fuel
      → (res : (ℕ × Option CleanupError) × World) × (run_rounds env done fuel i total w ≡ some res)
  unfolding run_rounds next_round
  run_rounds-ends zero i total w h = ground (arith, h)
  run_rounds-ends (suc fuel) i total w h =
      let (res, e) =
        next_round-ends fuel i w (cleanup_round env done i total w) h
          (cleanup_round-Shrinks i total w) (λ n w' k. run_rounds-ends fuel (suc i) n w' k) in
      (res, by_round (cleanup_round env done i total w) ∙ e)
    where
      by_round :
          (x : Round)
          → elim x [
            | ends n e w' ↦ some ((n, e), w')
            | goes_on n w' ↦ run_rounds env done fuel (suc i) n w'
          ]
            ≡ next_round fuel i x
      by_round (ends n e w') = refl
      by_round (goes_on n w') = refl

  -- The cleanup comes to an end within one round more than there are records, whichever calls fail
  -- and whenever the context is cancelled.
  pub run_once-ends :
      (w : World) → (res : (ℕ × Option CleanupError) × World) × (run_once env done w ≡ some res)
  unfolding run_once
  run_once-ends w = run_rounds-ends (suc (length w.records)) 0 0 w (omega arith)
