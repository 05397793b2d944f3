-- ===== src/Session/Laws.antt =====
-- Lookups of pkg/session/session.go after each operation.
use bs_notify_hub.Prelude.Map
use bs_notify_hub.Prelude.{
  ℕ, ◌≤◌, String, ◌≡◌, ◌≢◌, refl, true, none, some, List, [], ◌∷◌, string_key, same, if◌then◌else◌,
  arith,
}
use bs_notify_hub.Prelude.Int.{ℤ}
use bs_notify_hub.Session.{
  Session, Store, is_expired, if_live, create, get, delete, sweep, sweep_sessions,
}

get-sweep_sessions :
    (id : String) (now : ℕ) (ttl : ℤ) (m : List (String × Session))
    → Map.Distinct m
    → Map.get id (sweep_sessions now ttl m) ≡ if_live now ttl (Map.get id m)
unfolding sweep_sessions Map.get
get-sweep_sessions id now ttl [] d = refl
get-sweep_sessions id now ttl ((j, e) ∷ m) d = ground (arith, get-sweep_sessions id now ttl m d.1)

expired_later :
    (now later : ℕ) (ttl : ℤ) (e : Session)
    → now ≤ later
    → is_expired now ttl e ≡ true
    → is_expired later ttl e ≡ true
expired_later now later ttl e h x = ground arith

-- The sweep drops only what had expired: at no later time does a lookup tell that it ran.
pub get-sweep :
    (s : Store) (id : String) (now later : ℕ)
    → Map.Distinct s.sessions
    → now ≤ later
    → get id later (sweep now s) ≡ get id later s
unfolding get sweep
get-sweep s id now later d h = ground (arith, get-sweep_sessions id now s.ttl s.sessions d)

-- A session that was created is good, with its tenant, until its time is over.
pub get-create :
    (s : Store) (id tenant : String) (now later : ℕ)
    → id ≢ ""
    → get id later (create id tenant now s) ≡ (
        if is_expired later s.ttl (record { tenant_id = tenant; created_at = now })
        then none
        else some (record { tenant_id = tenant; created_at = now }))
unfolding get create
get-create s id tenant now later h =
    ground (arith, Map.get-put id id (record { tenant_id = tenant; created_at = now }) s.sessions)

-- After a logout the id is not valid at any time, and every other id is as valid as it was.
pub get-delete :
    (s : Store) (id j : String) (now : ℕ)
    → get j now (delete id s) ≡ (if same id j then none else get j now s)
unfolding get delete
get-delete s id j now = ground (arith, Map.get-remove id j s.sessions)
