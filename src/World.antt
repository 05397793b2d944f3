-- ===== src/World.antt =====
-- What the service layer works on: the database, the Redis cache, the dispatcher's queue and the
-- goroutines that were started; and its calls, which may fail.
pub mod Rules
pub mod Samples
use bs_notify_hub.Prelude.{ℕ, suc, String, Bool, false, Option, List, [], ◌∷◌, ◌++◌, if◌then◌else◌}
use bs_notify_hub.Prelude.Int.{ℤ}
use bs_notify_hub.Constant.{NotifyCategory}
use bs_notify_hub.Model.{NotifyRecord, NotifyStatus, NotifyWatermark}
use bs_notify_hub.Dto.{HubMsg}
use bs_notify_hub.Dispatch.Broker.{LocalBroker}

-- The three tables, in the order of insertion.
pub record Db : Type 0 where
  pub records : List NotifyRecord
  pub statuses : List NotifyStatus
  pub watermarks : List NotifyWatermark

-- The Redis keys that hold integers, and those that hold sets.
pub record Cache : Type 0 where
  pub counters : List (String × ℤ)
  pub sets : List (String × List String)

-- The bodies of the program's `go func()` statements, with the variables that they capture.
pub data Task : Type 0 where
  send_notify : NotifyRecord → Task
  once_op : NotifyRecord → String → Task
  batch_op : String → String → NotifyCategory → Task

-- `calls` counts the calls of the database and of Redis, `next_id` is the next new UUID.
pub record World : Type 0 where
  pub db : Db
  pub open db use *
  pub cache : Cache
  pub broker : LocalBroker
  pub tasks : List Task
  pub calls : ℕ
  pub next_id : ℕ

-- The surroundings of an operation: the clock, which calls fail, the UUID library's Parse and
-- String, how gorm scans a text column into an int64 and how `%d` prints it, json.Marshal of a
-- message, the online users of a tenant (`get_online_user_ids` of the pool), the trace id, the two
-- defaults of the configuration, and in which order PostgreSQL gives the rows that ORDER BY leaves
-- equal: a rank for each notification id, which may be another one in every query.
pub record Env : Type 0 where
  pub now : ℕ
  pub fails : ℕ → Bool
  pub uuid_parse : String → Option ℕ
  pub uuid_string : ℕ → String
  pub scan_int64 : String → Option ℤ
  pub print_int64 : ℤ → String
  pub encode : HubMsg → String
  pub online : String → List String
  pub trace_id : String
  pub user_notify_ttl_seconds : ℤ
  pub tenant_notify_ttl_seconds : ℤ
  pub tie_rank : ℕ → ℕ → ℕ

-- The clock and the libraries, with no call failing.
abbrev pub no_failure : Env → Env
no_failure env = record env { fails = λ n. false }

pub data DbError : Type 0 where
  record_not_found call_failed scan_failed : DbError

pub data Result {ℓ κ} (E : Type ℓ) (A : Type κ) : Type (ℓ ⊔ κ) where
  ok : A → Result E A
  err : E → Result E A

-- An action ends with a value or an error, and in each case with a world.
abbrev pub M {ℓ κ} : Type ℓ → Type κ → Type (ℓ ⊔ κ)
M E A = World → Result E A × World

infixl 5 ◌>>=◌ ◌>>◌
abbrev pub ◌>>=◌ {ℓ κ μ} : {E : Type ℓ} {A : Type κ} {B : Type μ} → M E A → (A → M E B) → M E B
◌>>=◌ m f w = let (r, w') = m w in elim r [ ok a ↦ f a w' | err e ↦ (err e, w') ]

abbrev pub ◌>>◌ {ℓ μ} : {E : Type ℓ} {B : Type μ} → M E (Unit {0}) → M E B → M E B
m >> k = m >>= λ _. k

abbrev pub pure {ℓ κ} : {E : Type ℓ} {A : Type κ} → A → M E A
pure a w = (ok a, w)

abbrev pub raise {ℓ κ} : {E : Type ℓ} {A : Type κ} → E → M E A
raise e w = (err e, w)

-- `if err != nil { return …, other }`
abbrev pub or_raise {ℓ κ μ} : {E : Type ℓ} {E' : Type μ} {A : Type κ} → E' → M E A → M E' A
or_raise e' m w = let (r, w') = m w in elim r [ ok a ↦ (ok a, w') | err e ↦ (err e', w') ]

module _ (env : Env) where
  -- One call of the database or of Redis: a call that fails changes nothing.
  abbrev pub call {ℓ} : {A : Type ℓ} → M DbError A → M DbError A
  call m w =
      let w' = record w { calls = suc w.calls } in
      if env.fails w.calls then (err call_failed, w') else m w'

  -- A gorm Transaction whose body writes through `tx`: an error of the body or of the commit takes
  -- the tables back.
  abbrev pub commit_or_back {ℓ} :
      {A : Type ℓ} → Db → Result DbError A → World → Result DbError A × World
  commit_or_back before (ok a) w =
      let w' = record w { calls = suc w.calls } in
      if env.fails w.calls then (err call_failed, record w' { db = before }) else (ok a, w')
  commit_or_back before (err e) w = (err e, record w { db = before })

  abbrev pub transaction {ℓ} : {A : Type ℓ} → M DbError A → M DbError A
  transaction body = call λ w. let (r, w') = body w in commit_or_back w.db r w'

  -- A Transaction whose body writes past `tx`: what the body wrote stays.
  abbrev pub transaction_beside {ℓ} : {A : Type ℓ} → M DbError A → M DbError A
  transaction_beside body = call λ w. let (r, w') = body w in commit_or_back w'.db r w'

-- gets and updates of a part
abbrev pub read_db {ℓ} : {A : Type ℓ} → (Db → A) → M DbError A
read_db f w = (ok (f w.db), w)

abbrev pub write_db : (Db → Db) → M DbError (Unit {0})
write_db f w = (ok tt, record w { db = f w.db })

abbrev pub read_cache {ℓ} : {A : Type ℓ} → (Cache → A) → M DbError A
read_cache f w = (ok (f w.cache), w)

abbrev pub write_cache : (Cache → Cache) → M DbError (Unit {0})
write_cache f w = (ok tt, record w { cache = f w.cache })

-- A `go func()` statement.
abbrev pub start {ℓ} : {E : Type ℓ} → Task → M E (Unit {0})
start t w = (ok tt, record w { tasks = w.tasks ++ t ∷ [] })

-- An error that is only logged.
abbrev pub ignore {ℓ κ μ} : {E : Type ℓ} {E' : Type μ} {A : Type κ} → M E A → M E' (Unit {0})
ignore m w = (ok tt, (m w).1)
