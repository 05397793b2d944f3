-- ===== src/Tasks/Batch.antt =====
-- The query of a round of RunOnce in internal/tasks/notify_cleanup.go, when it is the last one.
use bs_notify_hub.Prelude.{
  ℕ, zero, suc, ◌<◌, ◌≡◌, refl, ap, ◌∙◌, Bool, true, not, List, [], ◌∷◌, nat_key, same_iff, length,
  where_, take, map, arith,
}
use bs_notify_hub.Model.{NotifyRecord}
use bs_notify_hub.Repository.Query.{is_in, insert_asc, order_asc}
use bs_notify_hub.Repository.Record.{info_of, expired_records, expires_by}

take_short : {A : Type 0} (n : ℕ) (xs : List A) → length (take n xs) < n → take n xs ≡ xs
take_short zero xs h = ground (arith, h)
take_short (suc n) [] h = refl
take_short (suc n) (x ∷ xs) h = ap (λ t. x ∷ t) (take_short n xs (omega (arith, h)))

-- The ids of a batch.
abbrev pub batch_ids : List NotifyRecord → List ℕ
batch_ids rows = map (λ i. i.notify_id) (map info_of rows)

module _ (key : NotifyRecord → ℕ) (id : ℕ) where
  is_in-insert_asc :
      (x : NotifyRecord) (ys : List NotifyRecord)
      → is_in id (batch_ids (insert_asc key x ys)) ≡ is_in id (batch_ids (x ∷ ys))
  unfolding insert_asc is_in
  is_in-insert_asc x [] = refl
  is_in-insert_asc x (y ∷ ys) = ground (arith, is_in-insert_asc x ys)

  pub is_in-order_asc :
      (xs : List NotifyRecord) → is_in id (batch_ids (order_asc key xs)) ≡ is_in id (batch_ids xs)
  unfolding order_asc is_in
  is_in-order_asc [] = refl
  is_in-order_asc (x ∷ xs) =
      ground (arith, is_in-insert_asc x (order_asc key xs), is_in-order_asc xs)

-- No row is left that `chosen` chooses, if all these are deleted.
none_left :
    (chosen : NotifyRecord → Bool) (ids : List ℕ) (rs : List NotifyRecord)
    → ((id : ℕ) → is_in id (batch_ids (where_ chosen rs)) ≡ true → is_in id ids ≡ true)
    → where_ chosen (where_ (λ r. not (is_in r.notify_id ids)) rs) ≡ []
unfolding is_in
none_left chosen ids [] h = refl
none_left chosen ids (x ∷ xs) h =
    let rest = none_left chosen ids xs (λ id e. h id (ground (arith, e))) in
    ground (arith, rest, h x.notify_id, same_iff x.notify_id x.notify_id)

-- After a batch that is not full, no record is left that has expired.
pub short_batch :
    (before limit : ℕ) (rs : List NotifyRecord)
    → length (expired_records before limit rs) < limit
    → where_
        (λ r. expires_by before r.expire_at)
        (where_ (λ r. not (is_in r.notify_id (batch_ids (expired_records before limit rs)))) rs)
      ≡ []
unfolding expired_records
short_batch before limit rs h =
    none_left (λ r. expires_by before r.expire_at) _ rs
      (λ id e.
        ap (λ xs. is_in id (batch_ids xs)) (take_short limit _ h) ∙ (is_in-order_asc _ id _ ∙ e))
