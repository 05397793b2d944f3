-- ===== src/World/Rules.antt =====
-- Rules for reasoning about a sequence of calls, one call at a time.
use bs_notify_hub.Prelude.{◌≡◌, suc, if◌then◌else◌, if_induction}
use bs_notify_hub.World.{
  World, Env, DbError, call_failed, Result, ok, err, M, commit_or_back, transaction,
}

-- The world after a call that did nothing.
abbrev pub tick : World → World
tick w = record w { calls = suc w.calls }

-- An action leaves the cache, the broker and the goroutines as they are.
abbrev pub IsQuiet : World → World → Type 0
IsQuiet w w' = (w'.cache ≡ w.cache) × (w'.broker ≡ w.broker) × (w'.tasks ≡ w.tasks)

-- What follows a result.
abbrev pub next {ℓ κ μ} :
    {E : Type ℓ} {A : Type κ} {B : Type μ} → (A → M E B) → Result E A × World → Result E B × World
next f x = elim x.0 [ ok a ↦ f a x.1 | err e ↦ (err e, x.1) ]

-- A call fails with nothing changed, or goes through with the result `x`.
pub call_then {ℓ κ μ} :
    {A : Type ℓ} {B : Type κ} (P : Result DbError B × World → Type μ) (f : A → M DbError B)
    (env : Env) (w : World) (x : Result DbError A × World)
    → P (err call_failed, tick w)
    → P (next f x)
    → P (next f (if env.fails w.calls then (err call_failed, tick w) else x))
call_then P f env w x failed done =
    if_induction (λ y. P (next f y)) (env.fails w.calls) (err call_failed, tick w) x failed done

-- The last call of an action.
pub call_last {ℓ μ} :
    {A : Type ℓ} (P : Result DbError A × World → Type μ) (env : Env) (w : World)
    (x : Result DbError A × World)
    → P (err call_failed, tick w)
    → P x
    → P (if env.fails w.calls then (err call_failed, tick w) else x)
call_last P env w x failed done = if_induction P (env.fails w.calls) _ _ failed done

-- A transaction: what its body is known to do, and its five ends.
pub transaction_cases {ℓ μ} :
    {A : Type ℓ} (P Q : Result DbError A × World → Type μ) (env : Env) (body : M DbError A)
    (w : World)
    → Q (body (tick w))
    → P (err call_failed, tick w)
    → ((e : DbError) (w' : World) → Q (err e, w') → P (err e, record w' { db = w.db }))
    → ((a : A) (w' : World) → Q (ok a, w') → P (err call_failed, record (tick w') { db = w.db }))
    → ((a : A) (w' : World) → Q (ok a, w') → P (ok a, tick w'))
    → P (transaction env body w)
transaction_cases P Q env body w q failed rolled uncommitted done =
    if_induction P (env.fails w.calls) _ _ failed (by_end (body (tick w)) q)
  where
    by_end : (x : Result DbError _ × World) → Q x → P (commit_or_back env w.db x.0 x.1)
    by_end (err e, w') q' = rolled e w' q'
    by_end (ok a, w') q' =
        if_induction P (env.fails w'.calls) _ _ (uncommitted a w' q') (done a w' q')
