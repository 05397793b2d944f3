-- ===== src/Session.antt =====
-- pkg/session/session.go: the sessions of the console's administrators, in memory. Time is in
-- nanoseconds, an argument of each call; the session ids are those that `generateID` draws.
pub mod Laws
pub mod Tests
use bs_notify_hub.Prelude.Map
use bs_notify_hub.Prelude.{
  ℕ, ◌-◌, ◌*◌, ◌/◌, String, Bool, true, false, Option, none, some, List, [], ◌∷◌, string_key, same,
  if◌then◌else◌,
}
use bs_notify_hub.Prelude.Int.{ℤ, pos, leb_ℤ, pos_part, second, seconds}

pub record Session : Type 0 where
  pub tenant_id : String
  pub created_at : ℕ

pub record Store : Type 0 where
  pub sessions : List (String × Session)
  pub ttl : ℤ

abbrev pub default_session_ttl_seconds : ℕ
default_session_ttl_seconds = 2 * 60 * 60

unfoldable pub new_store : Store
new_store = record { sessions = []; ttl = pos (default_session_ttl_seconds * second) }

-- InitTTL
unfoldable pub init_ttl : ℤ → Store → Store
unfolding seconds
init_ttl ttl_seconds s =
    if leb_ℤ ttl_seconds (pos 0) then s else record s { ttl = seconds ttl_seconds }

-- TTLSeconds, at a ttl that is not negative
unfoldable pub ttl_seconds : Store → ℕ
ttl_seconds s = pos_part s.ttl / second

-- Create, with the id that was drawn
unfoldable pub create : String → String → ℕ → Store → Store
create id tenant now s = record s {
  sessions = Map.put id (record { tenant_id = tenant; created_at = now }) s.sessions;
}

-- `time.Since(e.createdAt) >= ttl`
abbrev pub is_expired : ℕ → ℤ → Session → Bool
is_expired now ttl e = leb_ℤ ttl (pos (now - e.created_at))

abbrev pub if_live : ℕ → ℤ → Option Session → Option Session
if_live now ttl none = none
if_live now ttl (some e) = if is_expired now ttl e then none else some e

unfoldable pub get : String → ℕ → Store → Option Session
get id now s = if same id "" then none else if_live now s.ttl (Map.get id s.sessions)

abbrev pub is_some {ℓ} : {A : Type ℓ} → Option A → Bool
is_some none = false
is_some (some a) = true

unfoldable pub valid : String → ℕ → Store → Bool
unfolding get
valid id now s = is_some (get id now s)

unfoldable pub delete : String → Store → Store
delete id s = record s { sessions = Map.remove id s.sessions }

-- the loop of `sweep`
unfoldable pub sweep_sessions : ℕ → ℤ → List (String × Session) → List (String × Session)
sweep_sessions now ttl [] = []
sweep_sessions now ttl ((id, e) ∷ rest) =
    let kept = sweep_sessions now ttl rest in if is_expired now ttl e then kept else (id, e) ∷ kept

unfoldable pub sweep : ℕ → Store → Store
unfolding sweep_sessions
sweep now s = record s { sessions = sweep_sessions now s.ttl s.sessions }
