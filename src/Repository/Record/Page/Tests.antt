-- ===== src/Repository/Record/Page/Tests.antt =====
-- A small inbox of internal/repository/record.go.
use bs_notify_hub.Prelude.{
  ℕ, ◌+◌, ◌*◌, ◌<◌, arith, String-discrete, ℕ_discrete, ◌≡◌, refl, Option, none, some, [], ◌∷◌, map,
  length, count_where,
}
use bs_notify_hub.Prelude.Int.{pos, pos_part, int64_half}
use bs_notify_hub.Constant.{sender_user, sender_tenant, read}
use bs_notify_hub.Dispatch.Message.{target_broadcast, target_multiple}
use bs_notify_hub.Model.{NotifyRecord, NotifyStatus, NotifyWatermark}
use bs_notify_hub.World.{World, ok, no_failure}
use bs_notify_hub.World.Samples.{quiet_env, empty_world}
use bs_notify_hub.Repository.Query.{left_join, order_desc}
use bs_notify_hub.Repository.Record.Page.Ties.{DistinctKeys}
use bs_notify_hub.Repository.Record.Page.{
  RecordPageQueryRes, at_least, get_personal_page, get_tenant_page, page_res, list_of,
  counts_as_unread, tenant_counts_as_unread, item_of, scanned_status, by_created_at, personal_rows,
  tenant_rows, tenant_status,
}
use bs_notify_hub.Repository.Record.Page.Pages.{
  first_pages, fetched, get_personal_page-pages, get_tenant_page-pages,
}
use bs_notify_hub.Repository.Record.Page.Own.{
  All, IsPersonal, IsOfTenant, personal_rows-own, tenant_rows-own,
}

abbrev greeting : NotifyRecord
greeting = record {
  notify_id = 5;
  title = "hello";
  content = "";
  target_type = target_multiple;
  sender_type = sender_user;
  sender_id = "8";
  event_type = "chat";
  tenant_id = "acme";
  target_ids = "7" ∷ [];
  expire_at = none;
  created_at = 900;
}

abbrev news : NotifyRecord
news = record greeting {
  notify_id = 6;
  target_type = target_broadcast;
  sender_type = sender_tenant;
  target_ids = [];
}

abbrev reply : NotifyRecord
reply = record greeting { notify_id = 7; target_type = target_broadcast; created_at = 950 }

abbrev seen : NotifyStatus
seen = record {
  status_notify_id = 1;
  notify_id = 5;
  target_user_id = "7";
  status = read;
  create_time = 900;
  update_time = 950;
}

abbrev inbox : World
inbox = record empty_world {
  db = record { records = greeting ∷ news ∷ reply ∷ []; statuses = seen ∷ []; watermarks = [] };
}

abbrev mark : Option NotifyWatermark
mark =
    some (record { tenant_id = "acme"; user_id = "7"; tenant_read_at = 950; tenant_clear_at = 100 })

personal_rows-own_example : All (IsPersonal "acme" "7") (personal_rows "acme" "7" inbox.db)
personal_rows-own_example = personal_rows-own "acme" "7" inbox.db

tenant_rows-own_example : All (IsOfTenant "acme" "7" 100) (tenant_rows "acme" "7" 100 inbox.db)
tenant_rows-own_example = tenant_rows-own "acme" "7" 100 inbox.db

abbrev personal_page : RecordPageQueryRes × ℕ
personal_page = (
  page_res (length (personal_rows "acme" "7" inbox.db)) 1 1 (
      list_of (quiet_env.tie_rank 2) 1 1 (λ j. scanned_status j.1)
        (personal_rows "acme" "7" inbox.db)),
  count_where (λ j. counts_as_unread j.1) (personal_rows "acme" "7" inbox.db),
)

fetched_personal :
    (get_personal_page (no_failure quiet_env) "acme" "7" (pos 1) (pos 1) inbox).0 ≡ ok personal_page
unfolding get_personal_page
fetched_personal = refl

two_times : DistinctKeys by_created_at (personal_rows "acme" "7" inbox.db)
unfolding personal_rows left_join String-discrete ℕ_discrete
two_times = ((λ e. omega (arith, e), tt), (tt, tt))

two_rows : length (personal_rows "acme" "7" inbox.db) + at_least 10 (pos 1) < int64_half
unfolding personal_rows left_join String-discrete ℕ_discrete
two_rows = omega arith

get_personal_page-pages_example :
    (personal_page.0.total ≡ length (personal_rows "acme" "7" inbox.db))
    × (first_pages
          (fetched
            (λ n. get_personal_page (no_failure quiet_env) "acme" "7" n (pos 1))
            (λ i. 2 * i)
            inbox)
          (pos_part personal_page.0.pages_total)
        ≡ map
            (item_of (λ j. scanned_status j.1))
            (order_desc by_created_at (personal_rows "acme" "7" inbox.db)))
get_personal_page-pages_example =
    get_personal_page-pages quiet_env "acme" "7" (pos 1) (λ i. 2 * i) inbox personal_page two_times
      two_rows fetched_personal

abbrev tenant_page : RecordPageQueryRes × ℕ
tenant_page = (
  page_res (length (tenant_rows "acme" "7" 100 inbox.db)) 1 5 (
      list_of (quiet_env.tie_rank 2) 1 5 (tenant_status 950) (tenant_rows "acme" "7" 100 inbox.db)),
  count_where (tenant_counts_as_unread 950) (tenant_rows "acme" "7" 100 inbox.db),
)

fetched_tenant :
    (get_tenant_page (no_failure quiet_env) "acme" "7" (pos 1) (pos 5) mark inbox).0
    ≡ ok tenant_page
unfolding get_tenant_page
fetched_tenant = refl

one_time : DistinctKeys by_created_at (tenant_rows "acme" "7" 100 inbox.db)
unfolding tenant_rows left_join String-discrete ℕ_discrete
one_time = (tt, tt)

one_row : length (tenant_rows "acme" "7" 100 inbox.db) + at_least 10 (pos 5) < int64_half
unfolding tenant_rows left_join String-discrete ℕ_discrete
one_row = omega arith

get_tenant_page-pages_example :
    (tenant_page.0.total ≡ length (tenant_rows "acme" "7" 100 inbox.db))
    × (first_pages
          (fetched
            (λ n. get_tenant_page (no_failure quiet_env) "acme" "7" n (pos 5) mark)
            (λ i. 2 * i)
            inbox)
          (pos_part tenant_page.0.pages_total)
        ≡ map
            (item_of (tenant_status 950))
            (order_desc by_created_at (tenant_rows "acme" "7" 100 inbox.db)))
get_tenant_page-pages_example =
    get_tenant_page-pages quiet_env "acme" "7" (pos 5) mark (λ i. 2 * i) inbox tenant_page one_time
      one_row fetched_tenant
