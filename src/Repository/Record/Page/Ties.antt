-- ===== src/Repository/Record/Page/Ties.antt =====
-- ORDER BY created_at of internal/repository/record.go when no two rows are of one time.
use bs_notify_hub.Prelude.{ℕ, ◌≡◌, ◌≢◌, refl, ap, sym, ◌∙◌, List, [], ◌∷◌, arith, if_induction, leb}
use bs_notify_hub.Repository.Query.{insert_asc, order_asc, insert_desc, order_desc}
use bs_notify_hub.Repository.Record.Page.Own.{All}

module _ {A : Type 0} (P : A → Type 0) (key : A → ℕ) where
  All-insert_asc : (x : A) (xs : List A) → P x → All P xs → All P (insert_asc key x xs)
  unfolding insert_asc
  All-insert_asc x [] h k = (h, tt)
  All-insert_asc x (y ∷ ys) h k =
      if_induction (All P) (leb (key x) (key y)) (x ∷ y ∷ ys) (y ∷ insert_asc key x ys) (h, k)
        (k.0, All-insert_asc x ys h k.1)

  pub All-order_asc : (xs : List A) → All P xs → All P (order_asc key xs)
  unfolding order_asc
  All-order_asc [] h = tt
  All-order_asc (x ∷ xs) h = All-insert_asc x (order_asc key xs) h.0 (All-order_asc xs h.1)

-- No two entries have one key.
abbrev pub DistinctKeys : {A : Type 0} → (A → ℕ) → List A → Type 0
DistinctKeys key [] = Unit
DistinctKeys key (x ∷ xs) = All (λ y. key x ≢ key y) xs × DistinctKeys key xs

module _ {A : Type 0} (key rank : A → ℕ) where
  insert_desc_swap :
      (x y : A) (zs : List A)
      → key x ≢ key y
      → insert_desc key x (insert_desc key y zs) ≡ insert_desc key y (insert_desc key x zs)
  unfolding insert_desc
  insert_desc_swap x y [] h = ground arith
  insert_desc_swap x y (z ∷ zs) h = ground (arith, insert_desc_swap x y zs h)

  order_desc-insert_asc :
      (x : A) (ys : List A)
      → All (λ y. key x ≢ key y) ys
      → order_desc key (insert_asc rank x ys) ≡ insert_desc key x (order_desc key ys)
  unfolding order_desc insert_asc
  order_desc-insert_asc x [] h = refl
  order_desc-insert_asc x (y ∷ ys) h =
      if_induction (λ (l : List A). order_desc key l ≡ insert_desc key x (order_desc key (y ∷ ys)))
        (leb (rank x) (rank y)) (x ∷ y ∷ ys) (y ∷ insert_asc rank x ys) refl
        (ap (insert_desc key y) (order_desc-insert_asc x ys h.1)
          ∙ insert_desc_swap y x (order_desc key ys) (λ e. h.0 (sym e)))

  -- Then the order does not depend on the ranks.
  pub order_desc-order_asc :
      (xs : List A) → DistinctKeys key xs → order_desc key (order_asc rank xs) ≡ order_desc key xs
  unfolding order_desc order_asc
  order_desc-order_asc [] d = refl
  order_desc-order_asc (x ∷ xs) d =
      order_desc-insert_asc x (order_asc rank xs) (All-order_asc (λ y. key x ≢ key y) rank xs d.0)
      ∙ ap (insert_desc key x) (order_desc-order_asc xs d.1)
