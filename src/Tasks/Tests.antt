-- ===== src/Tasks/Tests.antt =====
-- A run of the cleanup of internal/tasks/notify_cleanup.go.
use bs_notify_hub.Prelude.{
  ℕ, ◌*◌, arith, ◌≡◌, refl, Bool, false, Option, none, some, List, [], ◌∷◌, nat_key, ℕ_discrete,
  String-discrete,
}
use bs_notify_hub.Dispatch.Message.{target_multiple}
use bs_notify_hub.Constant.{sender_user}
use bs_notify_hub.Model.{NotifyRecord}
use bs_notify_hub.World.{World}
use bs_notify_hub.World.Samples.{shaky, quiet_env, empty_world}
use bs_notify_hub.Repository.Query.{is_in, order_asc}
use bs_notify_hub.Repository.Record
use bs_notify_hub.Repository.Status
use bs_notify_hub.Repository.UnreadDb
use bs_notify_hub.Repository.UnreadCache
use bs_notify_hub.Logic.Unread
use bs_notify_hub.Prelude.Map
use bs_notify_hub.Tasks.{CleanupError, run_once}
use bs_notify_hub.Prelude.Int.{second}
use bs_notify_hub.Tasks.Daily.{until_next_run, InADay, until_next_run-InADay}
use bs_notify_hub.Tasks.Kept.{DistinctIds}
use bs_notify_hub.Tasks.Clean.{EndsClean, run_once-EndsClean}
use bs_notify_hub.Tasks.Safe.{EndsSafe, run_once-EndsSafe}

abbrev never : ℕ → Bool
never i = false

abbrev expired : NotifyRecord
expired = record {
  notify_id = 5;
  tenant_id = "acme";
  event_type = "news";
  sender_id = "1";
  sender_type = sender_user;
  target_type = target_multiple;
  target_ids = "7" ∷ [];
  title = "t";
  content = "c";
  created_at = 10;
  expire_at = some 900;
}

abbrev alive : NotifyRecord
alive = record expired { notify_id = 6; expire_at = some 5000 }

abbrev two_records : World
two_records = record empty_world {
  db = record { records = expired ∷ alive ∷ []; statuses = []; watermarks = [] };
}

two_records-DistinctIds : DistinctIds two_records.records
unfolding is_in ℕ_discrete
two_records-DistinctIds = (refl, (refl, tt))

run_once-EndsClean_example : EndsClean 1000 (run_once quiet_env never two_records)
run_once-EndsClean_example = run_once-EndsClean quiet_env never two_records

run_once-EndsSafe_example : EndsSafe 1000 (alive ∷ []) (run_once shaky never two_records)
run_once-EndsSafe_example = run_once-EndsSafe shaky never two_records two_records-DistinctIds

-- Of the two records one is left, and one is counted.
count_and_left : Option ((ℕ × Option CleanupError) × World) → Option (ℕ × List NotifyRecord)
count_and_left none = none
count_and_left (some ((n, e), w)) = some (n, w.records)

one_left : count_and_left (run_once quiet_env never two_records) ≡ some (1, alive ∷ [])
unfolding run_once count_and_left ℕ_discrete String-discrete is_in order_asc
    Record.list_expired_notify_infos Record.delete_by_notify_ids Status.delete_by_notify_ids Map.put
    Unread.batch_reconcile_users UnreadDb.batch_count_unread_user UnreadCache.batch_set_pipeline
one_left = refl

-- At five o'clock the next run is in 22 hours.
abbrev three_o_clock : ℕ → ℕ
three_o_clock now = 3 * (3600 * second)

until_next_run-InADay_example : InADay (until_next_run three_o_clock (5 * (3600 * second)))
until_next_run-InADay_example =
    until_next_run-InADay three_o_clock (5 * (3600 * second)) (omega arith) (omega arith)
