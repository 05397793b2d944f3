-- ===== src/Dashboard.antt =====
-- internal/service/internal.go: the numbers that the console's dashboard shows. The uptime and the
-- figures of the Go runtime are left out.
pub mod Tests
use bs_notify_hub.Prelude.{
  ℕ, ◌+◌, String, Bool, true, false, Option, none, some, List, [], ◌∷◌, map, same, string_key,
  length, take, if◌then◌else◌,
}
use bs_notify_hub.Constant.{SenderType}
use bs_notify_hub.Dispatch.Dispatcher.{
  connection_count, online_group_count, online_user_count, online_group_stats,
}
use bs_notify_hub.Dispatch.Message.{TargetType}
use bs_notify_hub.Model.{NotifyRecord, NotifyStatus}
use bs_notify_hub.Pool.Manager.{Manager, GroupStat}
use bs_notify_hub.Repository.Query.{order_desc, order_asc, newest_first}
use bs_notify_hub.World.{World, Env, DbError, Result, ok, err, M, call, read_db, pure}

pub record RecentMsg : Type 0 where
  pub notify_id : String
  pub title : String
  pub tenant_id : String
  pub sender_type : SenderType
  pub target_type : TargetType
  pub created_at : ℕ

-- The fields of DashboardStats that are not the runtime's. `recent_msgs` is `none` for nil.
pub record DashboardStats : Type 0 where
  pub db_healthy : Bool
  pub redis_healthy : Bool
  pub tenant_count : ℕ
  pub user_count : ℕ
  pub online_tenants : ℕ
  pub online_users : ℕ
  pub connections : ℕ
  pub group_stats : List (String × GroupStat)
  pub recent_msgs : Option (List RecentMsg)

-- COUNT(DISTINCT column)
unfoldable pub is_among : String → List String → Bool
is_among a [] = false
is_among a (b ∷ bs) = let rest = is_among a bs in if same b a then true else rest

unfoldable pub count_distinct : List String → ℕ
unfolding is_among
count_distinct [] = 0
count_distinct (a ∷ rest) = (if is_among a rest then 0 else 1) + count_distinct rest

-- The dispatcher's pool, which may be nil, as the calls of onlineStats find it: each of the four takes
-- the lock for itself, and the pool may change between two of them.
abbrev pub Pools : Type 0
Pools = ℕ → Option Manager

-- The online tenants, users and connections, and the statistics by tenant. The dispatcher may be nil.
unfoldable pub online_stats : Option Pools → ℕ × ℕ × ℕ × List (String × GroupStat)
unfolding connection_count online_group_count online_user_count online_group_stats
online_stats none = (0, 0, 0, [])
online_stats (some pools) = (
  online_group_count (pools 0),
  online_user_count (pools 1),
  connection_count (pools 2),
  online_group_stats (pools 3),
)

module _ (env : Env) where
  abbrev pub answered : Result DbError (Unit {0}) → Bool
  answered (err e) = false
  answered (ok t) = true

  -- pingDB and pingRedis: a call that answers.
  unfoldable pub ping : World → Bool × World
  ping w = let (r, w') = call env (pure tt) w in (answered r, w')

  -- A count whose query fails is only logged, and stays 0.
  abbrev pub or_zero : Result DbError ℕ → ℕ
  or_zero (err e) = 0
  or_zero (ok n) = n

  unfoldable pub count_tenants_and_users : World → (ℕ × ℕ) × World
  unfolding count_distinct
  count_tenants_and_users w =
      let (tenants, w1) =
        call env (read_db λ db. count_distinct (map (λ (r : NotifyRecord). r.tenant_id) db.records))
          w in
      let (users, w2) =
        call env
          (read_db λ db. count_distinct (map (λ (s : NotifyStatus). s.target_user_id) db.statuses))
          w1 in
      ((or_zero tenants, or_zero users), w2)

  abbrev pub recent_msg : NotifyRecord → RecentMsg
  recent_msg r = record {
    notify_id = env.uuid_string r.notify_id;
    title = r.title;
    tenant_id = r.tenant_id;
    sender_type = r.sender_type;
    target_type = r.target_type;
    created_at = r.created_at;
  }

  abbrev pub msgs_of : Result DbError (List NotifyRecord) → Option (List RecentMsg)
  msgs_of (err e) = none
  msgs_of (ok rows) = some (map recent_msg rows)

  unfoldable pub recent_messages : World → Option (List RecentMsg) × World
  unfolding order_desc order_asc
  recent_messages w =
      let (rows, w') =
        call env (λ v. (ok (take 10 (newest_first (λ r. r) (env.tie_rank v.calls) v.records)), v))
          w in
      (msgs_of rows, w')

  unfoldable pub dashboard : Option Pools → World → DashboardStats × World
  unfolding count_tenants_and_users online_stats ping recent_messages
  dashboard dispatcher w =
      let (counts, w1) = count_tenants_and_users w in
      let online = online_stats dispatcher in
      let (db_answers, w2) = ping w1 in
      let (redis_answers, w3) = ping w2 in
      let (recent, w4) = recent_messages w3 in
      (
        record {
          db_healthy = db_answers;
          redis_healthy = redis_answers;
          tenant_count = counts.0;
          user_count = counts.1;
          online_tenants = online.0;
          online_users = online.1;
          connections = online.2;
          group_stats = online.3;
          recent_msgs = recent;
        },
        w4,
      )
