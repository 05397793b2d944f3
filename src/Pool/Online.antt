-- ===== src/Pool/Online.antt =====
-- GetOnlineUserIDs of pkg/pool/manager.go.
use bs_notify_hub.Prelude.Map
use bs_notify_hub.Prelude.{
  ℕ, String, ◌≡◌, ◌↔◌, ◌∙◌, sym, ◌⊎◌, refl, none, some, List, [], ◌∷◌, same, same_iff, string_key,
  arith, Option-cases, Bool-cases, inl, inr, false,
}
use bs_notify_hub.Pool.Group.{Clients, conn_of}
use bs_notify_hub.Pool.Group
use bs_notify_hub.Pool.Manager
use bs_notify_hub.Pool.Manager.{Manager, keys, get_online_user_ids}
use bs_notify_hub.Pool.Lookup.{conn_at_found, conn_at_missing}
use bs_notify_hub.Pool.Neat.{IsNeat}

-- The user is in the list.
abbrev pub IsListed : String → List String → Type 0
IsListed u [] = ⊥
IsListed u (x ∷ xs) = (x ≡ u) ⊎ IsListed u xs

keys_iff :
    (u : String) (us : List (String × Clients))
    → IsListed u (keys us) ↔ ((m : Clients) × (Map.get u us ≡ some m))
unfolding Map.get
keys_iff u [] = (λ h. elim h [ ], λ (m, h). cc h)
keys_iff u ((x, m) ∷ us) = elim (Bool-cases (same x u)) [
  | inl e ↦ rw e (λ h. (m, refl), λ h. inl ((same_iff x u).0 e))
  | inr e ↦ rw e (
    λ h. elim h [ inl q ↦ ground (arith, same_iff x u) | inr k ↦ (keys_iff u us).0 k ],
    λ h. inr ((keys_iff u us).1 h),
  )
]

online_found :
    (n : String) (p : ℕ) (m : Manager)
    → Map.get n m.groups ≡ some p
    → get_online_user_ids n m ≡ keys (m.heap p).users
unfolding get_online_user_ids
online_found n p m h = ground arith

online_missing :
    (n : String) (m : Manager) → Map.get n m.groups ≡ none → get_online_user_ids n m ≡ []
unfolding get_online_user_ids
online_missing n m h = ground arith

-- A user with connections has a first one, and a user with a connection has an entry.
users_iff :
    (u : String) (us : List (String × Clients))
    → ((m : Clients) → Map.get u us ≡ some m → Group.is_nil m ≡ false)
    → ((m : Clients) × (Map.get u us ≡ some m))
      ↔ ((c : String) × (k : ℕ) × (conn_of (record { users = us }) u c ≡ some k))
unfolding conn_of Map.get
users_iff u us full = (
  λ (m, h). first_of m h (full m h),
  λ (c, k, h). elim (Option-cases (Map.get u us)) [
    | inl missing ↦ ground (arith, h)
    | inr found ↦ found
  ],
)
  where
    first_of :
        (cl : Clients)
        → Map.get u us ≡ some cl
        → Group.is_nil cl ≡ false
        → (c : String) × (k : ℕ) × (conn_of (record { users = us }) u c ≡ some k)
    first_of [] here e = cc e
    first_of ((c, k) ∷ rest) here e = (c, k, ground (arith, here, same_iff c c))

-- A user is listed as online exactly if there is a connection of that user in the tenant's group.
pub get_online_user_ids_iff :
    (n u : String) (m : Manager)
    → IsNeat m
    → IsListed u (get_online_user_ids n m)
      ↔ ((c : String) × (k : ℕ) × (Manager.conn_at m n u c ≡ some k))
get_online_user_ids_iff n u m v = elim (Option-cases (Map.get n m.groups)) [
  | inl h ↦ (
    λ l. elim (rw (online_missing n m h) at l) [ ],
    λ (c, k, at). cc (conn_at_missing n u c m h, at),
  )
  | inr (p, h) ↦
      let listed = keys_iff u (m.heap p).users in
      let users = users_iff u (m.heap p).users (λ cl here. ((v.tidy p).clients u cl here).1) in
      (
        λ l.
            let (c, k, at) = users.0 (listed.0 (rw (online_found n p m h) at l)) in
            (c, k, conn_at_found n p m u c h ∙ at),
        λ (c, k, at).
            rw (online_found n p m h)
              (listed.1 (users.1 (c, k, sym (conn_at_found n p m u c h) ∙ at))),
      )
]
