-- ===== src/Repository/Record/Page/Pages.antt =====
-- The pages of an inbox of internal/repository/record.go, one after another.
use Prim.Native.Nat.{zero}
use native.Mathlib.Nat.{mod-lt, div-add-mod', suc-mul}
use bs_notify_hub.Prelude.{
  ℕ, suc, ◌+◌, ◌-◌, ◌*◌, ◌≤◌, ◌<◌, ◌≡◌, refl, ap, sym, ◌∙◌, String, Bool, Option, List, [], ◌∷◌,
  ◌++◌, map, take, drop, length, ltb, if◌then◌else◌, ◌/◌, arith,
}
use bs_notify_hub.Prelude.Int.{ℤ, pos, pos_part, wrap64, wrap64_in_range, int64_half}
use bs_notify_hub.Constant.{Status}
use bs_notify_hub.Model.{NotifyWatermark}
use bs_notify_hub.World.{Db, World, Env, DbError, Result, ok, err, no_failure}
use bs_notify_hub.Repository.Query.{Joined, insert_desc, order_desc, newest_first}
use bs_notify_hub.Repository.Record.Page.Ties.{DistinctKeys, order_desc-order_asc}
use bs_notify_hub.Repository.Record.Page.{
  RecordHasStatus, RecordPageQueryRes, div_trunc, at_least, page_of, pages_total_of, query_page,
  by_created_at, item_of, scanned_status, personal_rows, tenant_rows, counts_as_unread,
  tenant_counts_as_unread, tenant_status, read_at_of, clear_at_of, get_tenant_page,
  get_personal_page, list_of,
}

module _ {ℓ} {A : Type ℓ} where
  take_all : (n : ℕ) (xs : List A) → length xs ≤ n → take n xs ≡ xs
  take_all zero [] h = refl
  take_all zero (x ∷ xs) h = ground (arith, h)
  take_all (suc n) [] h = refl
  take_all (suc n) (x ∷ xs) h = ap (λ t. x ∷ t) (take_all n xs (omega (arith, h)))

  take_nil : (n : ℕ) → take {A = A} n [] ≡ []
  take_nil zero = refl
  take_nil (suc n) = refl

  take_add : (m n : ℕ) (xs : List A) → take (m + n) xs ≡ take m xs ++ take n (drop m xs)
  take_add zero n xs = ap (λ k. take k xs) (omega arith)
  take_add (suc m) n [] = take_nil (suc m + n) ∙ sym (take_nil n)
  take_add (suc m) n (x ∷ xs) =
      let e : suc m + n ≡ suc (m + n) = omega arith in
      ap (λ k. take k (x ∷ xs)) e ∙ ap (λ t. x ∷ t) (take_add m n xs)

  length-insert_desc :
      (key : A → ℕ) (x : A) (xs : List A) → length (insert_desc key x xs) ≡ suc (length xs)
  unfolding insert_desc
  length-insert_desc key x [] = refl
  length-insert_desc key x (y ∷ ys) = ground (arith, length-insert_desc key x ys)

  pub length-order_desc : (key : A → ℕ) (xs : List A) → length (order_desc key xs) ≡ length xs
  unfolding order_desc
  length-order_desc key [] = refl
  length-order_desc key (x ∷ xs) =
      ground (arith, length-insert_desc key x (order_desc key xs), length-order_desc key xs)

map-append : {A B : Type 0} (f : A → B) (xs ys : List A) → map f (xs ++ ys) ≡ map f xs ++ map f ys
map-append f [] ys = refl
map-append f (x ∷ xs) ys = ap (λ t. f x ∷ t) (map-append f xs ys)

-- The number of the pages, when nothing overflows.
abbrev page_count : ℕ → ℕ → ℕ
page_count total size = if ltb 0 total then (total + size - 1) / size else 0

pages_total_of_lem :
    (total size : ℕ)
    → total + size < int64_half
    → pages_total_of total size ≡ pos (page_count total size)
unfolding pages_total_of
pages_total_of_lem total size h =
    ground
      (arith, ap (λ n. div_trunc n size) (wrap64_in_range (total + size - 1) (omega (arith, h))))

page_count_enough :
    (total size : ℕ)
    → 0 < size
    → (total ≤ page_count total size * size) × (page_count total size * size ≤ total + size)
page_count_enough total size h =
    let n = total + size - 1 in
    (
      ground (arith, mod-lt n h, div-add-mod' n size),
      ground (arith, mod-lt n h, div-add-mod' n size),
    )

at_least-suc : (d n : ℕ) → at_least d (pos (suc n)) ≡ suc n
at_least-suc d n = ground arith

at_least-positive : (n : ℤ) → 0 < at_least 10 n
at_least-positive n = ground arith

-- A page whose offset fits, of rows of different times.
list_of_lem :
    (rank : ℕ → ℕ) (n size : ℕ) (status : Joined → Status) (rows : List Joined)
    → DistinctKeys by_created_at rows
    → n * size < int64_half
    → list_of rank (at_least 1 (pos (suc n))) size status rows
      ≡ map (item_of status) (take size (drop (n * size) (order_desc by_created_at rows)))
unfolding page_of
list_of_lem rank n size status rows d h =
    let ranked = newest_first (λ (j : Joined). j.0) rank rows in
    let shown = λ (k : ℕ) (xs : List Joined). map (item_of status) (take size (drop k xs)) in
    let before : at_least 1 (pos (suc n)) - 1 ≡ n = omega (arith, at_least-suc 1 n) in
    ap (λ k. shown (pos_part (wrap64 (pos (k * size)))) ranked) before
    ∙ ap (λ z. shown (pos_part z) ranked) (wrap64_in_range (n * size) h)
    ∙ ap (shown (n * size))
        (order_desc-order_asc by_created_at (λ (j : Joined). rank j.0.notify_id) rows d)

-- The items of the first pages that a client fetches.
unfoldable pub first_pages :
    (ℕ → Result DbError (RecordPageQueryRes × ℕ)) → ℕ → List RecordHasStatus
first_pages fetch zero = []
first_pages fetch (suc n) = first_pages fetch n ++ items (fetch n)
  where
    items : Result DbError (RecordPageQueryRes × ℕ) → List RecordHasStatus
    items (ok (page, unread)) = page.list
    items (err e) = []

-- The answers to a client that asks for one page after another; `at` tells the number of the call of
-- the database at which each request begins.
abbrev pub fetched :
    (ℤ → World → Result DbError (RecordPageQueryRes × ℕ) × World)
    → (ℕ → ℕ)
    → World
    → ℕ
    → Result DbError (RecordPageQueryRes × ℕ)
fetched get at w i = (get (pos (suc i)) (record w { calls = at i })).0

module _ (env : Env) (size : ℕ) (rows : Db → List Joined) (is_unread_row : Joined → Bool)
    (status : Joined → Status) (at : ℕ → ℕ) (w : World) where
  abbrev asked : ℕ → Result DbError (RecordPageQueryRes × ℕ)
  asked =
      fetched (λ n. query_page (no_failure env) (at_least 1 n) size rows is_unread_row status) at w

  first_pages_lem :
      (n : ℕ)
      → DistinctKeys by_created_at (rows w.db)
      → n * size < int64_half
      → first_pages asked n
        ≡ map (item_of status) (take (n * size) (order_desc by_created_at (rows w.db)))
  unfolding first_pages
  first_pages_lem zero d h =
      let e : 0 * size ≡ 0 = omega arith in
      ap (λ k. map (item_of status) (take k (order_desc by_created_at (rows w.db)))) (sym e)
  first_pages_lem (suc n) d h =
      let sorted = order_desc by_created_at (rows w.db) in
      let up : n * size + size ≡ suc n * size = omega (arith, suc-mul n size) in
      let fits : n * size < int64_half = omega (arith, up, h) in
      let rank = env.tie_rank (suc (suc (at n))) in
      ap (λ l. l ++ list_of rank (at_least 1 (pos (suc n))) size status (rows w.db))
        (first_pages_lem n d fits)
      ∙ ap (λ l. map (item_of status) (take (n * size) sorted) ++ l)
          (list_of_lem rank n size status (rows w.db) d fits)
      ∙ sym (
          map-append (item_of status) (take (n * size) sorted) (take size (drop (n * size) sorted)))
      ∙ ap (map (item_of status)) (sym (take_add (n * size) size sorted))
      ∙ ap (λ k. map (item_of status) (take k sorted)) up

  first_pages_all :
      0 < size
      → DistinctKeys by_created_at (rows w.db)
      → length (rows w.db) + size < int64_half
      → first_pages asked (pos_part (pages_total_of (length (rows w.db)) size))
        ≡ map (item_of status) (order_desc by_created_at (rows w.db))
  first_pages_all p d h =
      let sorted = order_desc by_created_at (rows w.db) in
      let total = length (rows w.db) in
      let n = page_count total size in
      let (enough, few) = page_count_enough total size p in
      ap (λ z. first_pages asked (pos_part z)) (pages_total_of_lem total size h)
      ∙ first_pages_lem n d (omega (arith, few, h))
      ∙ ap (map (item_of status)) (
          take_all (n * size) sorted
            (omega (arith, length-order_desc by_created_at (rows w.db), enough)))

abbrev total_in : Result DbError (RecordPageQueryRes × ℕ) → ℕ
total_in (ok r) = r.0.total
total_in (err e) = 0

abbrev pages_in : Result DbError (RecordPageQueryRes × ℕ) → ℕ
pages_in (ok r) = pos_part r.0.pages_total
pages_in (err e) = 0

-- If no call fails, no two notifications of a user's personal inbox are of one time, and their
-- number and the page size together fit into 64 bits, then a client that fetches the pages one
-- after another, as many as the first one tells, gets the rows of the inbox, newest first, each
-- once, whatever order PostgreSQL would give to rows that tie; the total is their number.
pub get_personal_page-pages :
    (env : Env) (tenant user : String) (size : ℤ) (at : ℕ → ℕ) (w : World)
    (r : RecordPageQueryRes × ℕ)
    → DistinctKeys by_created_at (personal_rows tenant user w.db)
    → length (personal_rows tenant user w.db) + at_least 10 size < int64_half
    → (get_personal_page (no_failure env) tenant user (pos 1) size w).0 ≡ ok r
    → (r.0.total ≡ length (personal_rows tenant user w.db))
      × (first_pages
            (fetched (λ n. get_personal_page (no_failure env) tenant user n size) at w)
            (pos_part r.0.pages_total)
          ≡ map
              (item_of (λ j. scanned_status j.1))
              (order_desc by_created_at (personal_rows tenant user w.db)))
unfolding get_personal_page
get_personal_page-pages env tenant user size at w r d f h = (
  sym (ap total_in h),
  ap (first_pages (fetched (λ n. get_personal_page (no_failure env) tenant user n size) at w))
        (sym (ap pages_in h))
      ∙ first_pages_all env (at_least 10 size) (personal_rows tenant user)
          (λ j. counts_as_unread j.1) (λ j. scanned_status j.1) at w (at_least-positive size) d f,
)

-- If no call fails, no two notifications of a tenant inbox are of one time, and their number and
-- the page size together fit into 64 bits, then a client that fetches the pages one after another,
-- as many as the first one tells, gets the rows after the watermark, newest first, each once,
-- whatever order PostgreSQL would give to rows that tie; the total is their number.
pub get_tenant_page-pages :
    (env : Env) (tenant user : String) (size : ℤ) (mark : Option NotifyWatermark) (at : ℕ → ℕ)
    (w : World) (r : RecordPageQueryRes × ℕ)
    → DistinctKeys by_created_at (tenant_rows tenant user (clear_at_of mark) w.db)
    → length (tenant_rows tenant user (clear_at_of mark) w.db) + at_least 10 size < int64_half
    → (get_tenant_page (no_failure env) tenant user (pos 1) size mark w).0 ≡ ok r
    → (r.0.total ≡ length (tenant_rows tenant user (clear_at_of mark) w.db))
      × (first_pages
            (fetched (λ n. get_tenant_page (no_failure env) tenant user n size mark) at w)
            (pos_part r.0.pages_total)
          ≡ map
              (item_of (tenant_status (read_at_of mark)))
              (order_desc by_created_at (tenant_rows tenant user (clear_at_of mark) w.db)))
unfolding get_tenant_page
get_tenant_page-pages env tenant user size mark at w r d f h = (
  sym (ap total_in h),
  ap (first_pages (fetched (λ n. get_tenant_page (no_failure env) tenant user n size mark) at w))
        (sym (ap pages_in h))
      ∙ first_pages_all env (at_least 10 size) (tenant_rows tenant user (clear_at_of mark))
          (tenant_counts_as_unread (read_at_of mark)) (tenant_status (read_at_of mark)) at w
          (at_least-positive size) d f,
)
