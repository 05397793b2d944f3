-- ===== src/Session/Tests.antt =====
-- Sessions of pkg/session/session.go at concrete times.
use bs_notify_hub.Prelude.Map
use bs_notify_hub.Prelude.{String, ◌≡◌, ◌≢◌, none, some, [], same, string_key, if◌then◌else◌, arith}
use bs_notify_hub.Prelude.Int.{pos}
use bs_notify_hub.Session.{Store, is_expired, create, get, delete, sweep}
use bs_notify_hub.Session.Laws.{get-sweep, get-create, get-delete}

abbrev pub old : String
old = "old"

abbrev pub fresh : String
fresh = "new"

abbrev pub two_sessions : Store
unfolding create
two_sessions =
    create fresh "acme" 90 (create old "acme" 0 (record { sessions = []; ttl = pos 100 }))

two_sessions-Distinct : Map.Distinct two_sessions.sessions
unfolding create
two_sessions-Distinct =
    Map.put-Distinct fresh (record { tenant_id = "acme"; created_at = 90 }) _
      (Map.put-Distinct old (record { tenant_id = "acme"; created_at = 0 }) [] tt)

fresh-ne-nil : fresh ≢ ""
fresh-ne-nil e = cc

get-sweep_example : get fresh 150 (sweep 120 two_sessions) ≡ get fresh 150 two_sessions
get-sweep_example = get-sweep two_sessions fresh 120 150 two_sessions-Distinct (omega arith)

created_session : get fresh 150 (create fresh "acme" 120 two_sessions) ≡ (
    if is_expired 150 (pos 100) (record { tenant_id = "acme"; created_at = 120 })
    then none
    else some (record { tenant_id = "acme"; created_at = 120 }))
unfolding two_sessions
created_session = get-create two_sessions fresh "acme" 120 150 fresh-ne-nil

deleted_session :
    get old 50 (delete old two_sessions) ≡ (if same old old then none else get old 50 two_sessions)
deleted_session = get-delete two_sessions old old 50
