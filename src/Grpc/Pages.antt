-- ===== src/Grpc/Pages.antt =====
-- The inboxes over gRPC, of internal/service/grpc.go: the numbers of a page.
use bs_notify_hub.Prelude.{
  ℕ, zero, suc, ◌*◌, ◌-◌, ◌≤◌, ◌<◌, ◌^◌, ◌≡◌, refl, String, Bool, List, [], ◌∷◌, map, take, drop,
  length, where_, if_induction, arith, Option,
}
use bs_notify_hub.Prelude.Int.{ℤ, pos, pos_part, neg_part, wrap32, wrap64}
use bs_notify_hub.Constant.{Status}
use bs_notify_hub.Model.{NotifyWatermark}
use bs_notify_hub.Response.{CodeError}
use bs_notify_hub.World.{World, Db, Env, DbError, Result, ok, err, ◌>>=◌, pure, or_raise, call}
use bs_notify_hub.World.Rules.{IsQuiet, next, tick}
use bs_notify_hub.Repository.Query.{Joined, newest_first, first}
use bs_notify_hub.Repository.Record.Page
use bs_notify_hub.Repository.Record.Page.{
  RecordPageQueryRes, at_least, page_of, query_page, list_of, page_res, counts_of, item_of,
  by_created_at,
}
use bs_notify_hub.Repository.Watermark
use bs_notify_hub.Service.Inbox
use bs_notify_hub.Service.Inbox.{InboxPageReq, query_failed}
use bs_notify_hub.Grpc.{GetInboxRes, to_proto_inbox_res, get_personal_inbox, get_tenant_inbox}

-- The fields of a protobuf message are int32.
abbrev pub IsInt32 : ℤ → Type 0
IsInt32 n = (pos_part n < 2 ^ 31) × (neg_part n ≤ 2 ^ 31)

-- Reading changes nothing.
abbrev IsRead : World → World → Type 0
IsRead w w' = (w'.db ≡ w.db) × IsQuiet w w'

length-take-le {ℓ} : {A : Type ℓ} (n : ℕ) (xs : List A) → length (take n xs) ≤ n
length-take-le zero xs = omega arith
length-take-le (suc n) [] = omega arith
length-take-le (suc n) (x ∷ xs) = omega (arith, length-take-le n xs)

length-map {ℓ κ} :
    {A : Type ℓ} {B : Type κ} (f : A → B) (xs : List A) → length (map f xs) ≡ length xs
length-map f [] = refl
length-map f (x ∷ xs) = omega (arith, length-map f xs)

length-list_of-le :
    (rank : ℕ → ℕ) (index size : ℕ) (status : Joined → Status) (rows : List Joined)
    → length (list_of rank index size status rows) ≤ size
unfolding page_of
length-list_of-le rank index size status rows =
    let rest =
      drop (pos_part (wrap64 (pos ((index - 1) * size)))) (newest_first (λ j. j.0) rank rows) in
    rw (length-map (item_of status) (take size rest)) (length-take-le size rest)

abbrev QueryOutcome : ℕ → ℕ → World → Result DbError (RecordPageQueryRes × ℕ) × World → Type 0
QueryOutcome index size w (ok (p, n), w') =
    (p.page_index ≡ index) × (p.page_size ≡ size) × (length p.list ≤ size) × IsRead w w'
QueryOutcome index size w (err e, w') = IsRead w w'

query_page-outcome :
    (env : Env) (index size : ℕ) (rows : Db → List Joined) (is_unread_row : Joined → Bool)
    (status : Joined → Status) (w : World)
    → QueryOutcome index size w (query_page env index size rows is_unread_row status w)
query_page-outcome env index size rows is_unread_row status w =
    if_induction
      (λ x. QueryOutcome index size w (
        next
          (λ (counts : ℕ × ℕ).
            call env (λ v. (ok (list_of (env.tie_rank v.calls) index size status (rows v.db)), v))
            >>= λ items. pure (page_res counts.0 index size items, counts.1))
          x))
      (env.fails w.calls) _ _ (refl, (refl, refl, refl))
      (if_induction
        (λ x. QueryOutcome index size w (
          next
            (λ items. pure (
              page_res (counts_of is_unread_row (rows w.db)).0 index size items,
              (counts_of is_unread_row (rows w.db)).1,
            ))
            x))
        (env.fails (suc w.calls)) _ _ (refl, (refl, refl, refl))
        (
          refl,
          refl,
          length-list_of-le (env.tie_rank (suc (suc w.calls))) index size status (rows w.db),
          (refl, (refl, refl, refl)),
        ))

-- What a call for a page may come to.
abbrev pub InboxOutcome : InboxPageReq → World → Result CodeError GetInboxRes × World → Type 0
InboxOutcome req w (ok res, w') =
    (res.page_index ≡ pos (at_least 1 req.page_index))
    × (res.page_size ≡ pos (at_least 10 req.page_size))
    × (length res.list ≤ at_least 10 req.page_size)
    × IsRead w w'
InboxOutcome req w (err e, w') = IsRead w w'

wrap32-at_least :
    (default : ℕ) (n : ℤ)
    → default ≤ 10
    → IsInt32 n
    → wrap32 (pos (at_least default n)) ≡ pos (at_least default n)
wrap32-at_least default n d h = ground arith

abbrev mark_of : InboxPageReq → World → Option NotifyWatermark
mark_of req w = first (where_ (Watermark.is_of req.tenant_id req.user_id) w.watermarks)

module _ (env : Env) (format : ℤ → String) where
  answer_outcome :
      (req : InboxPageReq) (w : World) (x : Result DbError (RecordPageQueryRes × ℕ) × World)
      → IsInt32 req.page_index
      → IsInt32 req.page_size
      → QueryOutcome (at_least 1 req.page_index) (at_least 10 req.page_size) w x
      → InboxOutcome req w (
          next
            (λ page. pure (to_proto_inbox_res env format page))
            (or_raise (query_failed env) (λ v. x) w))
  unfolding to_proto_inbox_res
  answer_outcome req w (err e, w') i s q = q
  answer_outcome req w (ok (p, n), w') i s q = (
    rw (q.0) (wrap32-at_least 1 req.page_index (omega arith) i),
    rw (q.1) (wrap32-at_least 10 req.page_size (omega arith) s),
    rw (length-map _ p.list) (q.2),
    q.3,
  )

  personal_inbox-outcome :
      (req : InboxPageReq) (w : World)
      → IsInt32 req.page_index
      → IsInt32 req.page_size
      → InboxOutcome req w (get_personal_inbox env format req w)
  unfolding get_personal_inbox Inbox.get_personal_page_rpc Page.get_personal_page
  personal_inbox-outcome req w i s = answer_outcome req w _ i s (
      query_page-outcome env (at_least 1 req.page_index) (at_least 10 req.page_size)
        (Page.personal_rows req.tenant_id req.user_id) (λ j. Page.counts_as_unread j.1)
        (λ j. Page.scanned_status j.1) w)

  tenant_inbox-outcome :
      (req : InboxPageReq) (w : World)
      → IsInt32 req.page_index
      → IsInt32 req.page_size
      → InboxOutcome req w (get_tenant_inbox env format req w)
  unfolding get_tenant_inbox Inbox.get_tenant_page_rpc Page.get_tenant_page
      Watermark.find_by_tenant_and_user
  tenant_inbox-outcome req w i s =
      if_induction
        (λ (x : Result DbError (Option NotifyWatermark) × World). InboxOutcome req w (
          next (λ page. pure (to_proto_inbox_res env format page))
            (next
              (λ (mark : Option NotifyWatermark). or_raise (query_failed env) (
                Page.get_tenant_page env req.tenant_id req.user_id req.page_index req.page_size
                  mark))
              (or_raise (query_failed env) (λ v. x) w))))
        (env.fails w.calls) _ _ (refl, (refl, refl, refl))
        (answer_outcome req w _ i s (
          query_page-outcome env (at_least 1 req.page_index) (at_least 10 req.page_size)
            (Page.tenant_rows req.tenant_id req.user_id (Page.clear_at_of (mark_of req w)))
            (Page.tenant_counts_as_unread (Page.read_at_of (mark_of req w)))
            (Page.tenant_status (Page.read_at_of (mark_of req w))) (tick w)))

  -- A page of a personal or a tenant inbox over gRPC has the page number and the size that were
  -- asked for, or 1 and 10 for numbers below 1, with nothing lost in the conversion to 32 bits, and
  -- it holds at most that many notifications. Asking changes nothing.
  pub inbox-outcome :
      (req : InboxPageReq) (w : World)
      → IsInt32 req.page_index
      → IsInt32 req.page_size
      → InboxOutcome req w (get_personal_inbox env format req w)
        × InboxOutcome req w (get_tenant_inbox env format req w)
  inbox-outcome req w i s = (personal_inbox-outcome req w i s, tenant_inbox-outcome req w i s)
