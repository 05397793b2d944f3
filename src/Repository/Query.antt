-- ===== src/Repository/Query.antt =====
-- The parts of SQL that the repositories use.
use bs_notify_hub.Prelude.{
  ℕ, String, Bool, true, false, ◌&&◌, Option, none, some, List, [], ◌∷◌, ◌++◌, map, same,
  string_key, nat_key, where_, ltb, leb, if◌then◌else◌,
}
use bs_notify_hub.Model.{NotifyRecord, NotifyStatus}

-- First(&row): the first row, if there is one
abbrev pub first {ℓ} : {A : Type ℓ} → List A → Option A
first [] = none
first (x ∷ xs) = some x

-- UPDATE … SET … WHERE test
unfoldable pub update_where {ℓ} : {A : Type ℓ} → (A → Bool) → (A → A) → List A → List A
update_where test f [] = []
update_where test f (x ∷ xs) = (if test x then f x else x) ∷ update_where test f xs

-- id IN (ids)
unfoldable pub is_in : ℕ → List ℕ → Bool
is_in a [] = false
is_in a (x ∷ xs) = if same x a then true else is_in a xs

-- IS NOT NULL of the column
abbrev pub has_row {ℓ} : {A : Type ℓ} → Option A → Bool
has_row none = false
has_row (some a) = true

-- A row of `notify_record LEFT JOIN notify_status`, with NULL for no status.
abbrev pub Joined : Type 0
Joined = NotifyRecord × Option NotifyStatus

-- the JOIN's ON clause
abbrev pub joins : String → NotifyRecord → NotifyStatus → Bool
joins user r s = same s.notify_id r.notify_id && same s.target_user_id user

abbrev pub or_null : NotifyRecord → List NotifyStatus → List Joined
or_null r [] = (r, none) ∷ []
or_null r (s ∷ ss) = map (λ x. (r, some x)) (s ∷ ss)

unfoldable pub left_join : String → List NotifyRecord → List NotifyStatus → List Joined
left_join user [] ss = []
left_join user (r ∷ rs) ss = or_null r (where_ (joins user r) ss) ++ left_join user rs ss

-- ORDER BY … DESC, by insertion; rows that tie stay in their order
unfoldable pub insert_desc {ℓ} : {A : Type ℓ} → (A → ℕ) → A → List A → List A
insert_desc key x [] = x ∷ []
insert_desc key x (y ∷ ys) = if ltb (key x) (key y) then y ∷ insert_desc key x ys else x ∷ y ∷ ys

unfoldable pub order_desc {ℓ} : {A : Type ℓ} → (A → ℕ) → List A → List A
unfolding insert_desc
order_desc key [] = []
order_desc key (x ∷ xs) = insert_desc key x (order_desc key xs)

unfoldable pub insert_asc {ℓ} : {A : Type ℓ} → (A → ℕ) → A → List A → List A
insert_asc key x [] = x ∷ []
insert_asc key x (y ∷ ys) = if leb (key x) (key y) then x ∷ y ∷ ys else y ∷ insert_asc key x ys

unfoldable pub order_asc {ℓ} : {A : Type ℓ} → (A → ℕ) → List A → List A
unfolding insert_asc
order_asc key [] = []
order_asc key (x ∷ xs) = insert_asc key x (order_asc key xs)

-- ORDER BY created_at DESC, with the ranks of the rows that tie
abbrev pub newest_first {ℓ} : {A : Type ℓ} → (A → NotifyRecord) → (ℕ → ℕ) → List A → List A
newest_first row rank xs =
    order_desc (λ x. (row x).created_at) (order_asc (λ x. rank (row x).notify_id) xs)
