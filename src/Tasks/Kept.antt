-- ===== src/Tasks/Kept.antt =====
-- The records that RunOnce of internal/tasks/notify_cleanup.go must not touch.
use bs_notify_hub.Prelude.{
  ℕ, zero, suc, ◌≡◌, refl, sym, ◌∙◌, Bool, true, false, not, List, [], ◌∷◌, nat_key, same_iff,
  where_, take, arith, if_induction,
}
use bs_notify_hub.Model.{NotifyRecord}
use bs_notify_hub.Repository.Query.{is_in}
use bs_notify_hub.Repository.Record.{expired_records, expires_by}
use bs_notify_hub.Tasks.Batch.{batch_ids, is_in-order_asc}

-- notify_id is the primary key.
abbrev pub DistinctIds : List NotifyRecord → Type 0
DistinctIds [] = Unit
DistinctIds (r ∷ rs) = (is_in r.notify_id (batch_ids rs) ≡ false) × DistinctIds rs

-- The records that have not expired by `now`.
abbrev pub live_at : ℕ → List NotifyRecord → List NotifyRecord
live_at now rs = where_ (λ r. not (expires_by now r.expire_at)) rs

is_in-where_ :
    (q : NotifyRecord → Bool) (id : ℕ) (rs : List NotifyRecord)
    → is_in id (batch_ids (where_ q rs)) ≡ true
    → is_in id (batch_ids rs) ≡ true
unfolding is_in
is_in-where_ q id [] h = h
is_in-where_ q id (x ∷ xs) h = ground (arith, h, is_in-where_ q id xs)

is_in-take :
    (id n : ℕ) (rs : List NotifyRecord)
    → is_in id (batch_ids (take n rs)) ≡ true
    → is_in id (batch_ids rs) ≡ true
unfolding is_in
is_in-take id zero rs h = cc h
is_in-take id (suc n) [] h = h
is_in-take id (suc n) (x ∷ xs) h = ground (arith, h, is_in-take id n xs)

pub where_-DistinctIds :
    (q : NotifyRecord → Bool) (rs : List NotifyRecord) → DistinctIds rs → DistinctIds (where_ q rs)
where_-DistinctIds q [] d = tt
where_-DistinctIds q (x ∷ xs) (a, d) =
    let rest = where_-DistinctIds q xs d in
    if_induction DistinctIds (q x) (x ∷ where_ q xs) (where_ q xs)
      (ground (arith, a, is_in-where_ q x.notify_id xs), rest) rest

-- A row stays if every id of `ids` that a row has is that of a row which `chosen` chooses.
others_left :
    (chosen : NotifyRecord → Bool) (ids : List ℕ) (rs : List NotifyRecord)
    → DistinctIds rs
    → ((id : ℕ)
        → is_in id ids ≡ true
        → is_in id (batch_ids rs) ≡ true
        → is_in id (batch_ids (where_ chosen rs)) ≡ true)
    → where_ (λ r. not (chosen r)) (where_ (λ r. not (is_in r.notify_id ids)) rs)
      ≡ where_ (λ r. not (chosen r)) rs
unfolding is_in
others_left chosen ids [] d h = refl
others_left chosen ids (x ∷ xs) (a, d) h =
    let rest =
      others_left chosen ids xs d
        (λ id k l. ground (arith, k, l, h id, a, same_iff x.notify_id id)) in
    ground (
      arith,
      rest,
      h x.notify_id,
      a,
      same_iff x.notify_id x.notify_id,
      is_in-where_ chosen x.notify_id xs,
    )

pub batch-live_at :
    (now limit : ℕ) (rs : List NotifyRecord)
    → DistinctIds rs
    → live_at now
        (where_ (λ r. not (is_in r.notify_id (batch_ids (expired_records now limit rs)))) rs)
      ≡ live_at now rs
unfolding expired_records
batch-live_at now limit rs d =
    others_left (λ r. expires_by now r.expire_at) _ rs d
      (λ id h k. sym (is_in-order_asc _ id _) ∙ is_in-take id limit _ h)
