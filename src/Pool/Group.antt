-- ===== src/Pool/Group.antt =====
-- pkg/pool/group.go: the connections of one tenant, by user and connection id.
use bs_notify_hub.Prelude.Map
use bs_notify_hub.Prelude.{
  ℕ, String, Bool, true, false, Option, none, some, List, [], ◌∷◌, same, string_key, nat_key,
  if◌then◌else◌,
}
use bs_notify_hub.Pool.Channel.{Channels, close}

-- userClients: connID to connection
abbrev pub Clients : Type 0
Clients = List (String × ℕ)

pub record Group : Type 0 where
  pub users : List (String × Clients)

abbrev pub empty_group : Group
empty_group = record { users = [] }

abbrev pub is_nil {ℓ} : {A : Type ℓ} → List A → Bool
is_nil [] = true
is_nil (x ∷ xs) = false

-- IsEmpty, `len(g.users) == 0`
abbrev pub is_empty : Group → Bool
is_empty g = is_nil g.users

abbrev pub or_nil {ℓ} : {A : Type ℓ} → Option (List A) → List A
or_nil none = []
or_nil (some xs) = xs

abbrev pub clients_of : Group → String → Clients
clients_of g user = or_nil (Map.get user g.users)

abbrev pub close_old : Option ℕ → Channels → Channels
close_old none cs = cs
close_old (some old) cs = close old cs

-- Register closes the connection that it replaces.
unfoldable pub register : String → String → ℕ → Group × Channels → Group × Channels
register user conn_id conn (g, cs) =
    let clients = clients_of g user in
    (
      record { users = Map.put user (Map.put conn_id conn clients) g.users },
      close_old (Map.get conn_id clients) cs,
    )

-- `exactConn != nil && conn != exactConn`
abbrev pub is_other : ℕ → Option ℕ → Bool
is_other conn none = false
is_other conn (some exact) = if same conn exact then false else true

-- what stays of the user's entry when a connection has been deleted from `userClients`
unfoldable pub drop_client : String → Clients → Group → Group
drop_client user [] g = record { users = Map.remove user g.users }
drop_client user (c ∷ rest) g = record { users = Map.put user (c ∷ rest) g.users }

unfoldable pub unregister :
    String → String → Option ℕ → Group × Channels → (Group × Channels) × Bool
unfolding drop_client
unregister user conn_id exact (g, cs) = elim (Map.get user g.users) [
  | none ↦ ((g, cs), is_empty g)
  | some clients ↦ elim (Map.get conn_id clients) [
    | none ↦ ((g, cs), is_empty g)
    | some conn ↦
        if is_other conn exact
        then ((g, cs), is_empty g)
        else (let g' = drop_client user (Map.remove conn_id clients) g in
            ((g', close conn cs), is_empty g'))
  ]
]

-- The loop of RangeUser and of the inner loop of RangeGroup: `fn` returns false to stop.
unfoldable pub range_clients {ℓ} :
    {S : Type ℓ} → (String → ℕ → S → S × Bool) → Clients → S → S × Bool
range_clients fn [] s = (s, true)
range_clients fn ((conn_id, conn) ∷ rest) s =
    let (s', go_on) = fn conn_id conn s in
    elim go_on [ true ↦ range_clients fn rest s' | false ↦ (s', false) ]

unfoldable pub range_user {ℓ} : {S : Type ℓ} → String → (String → ℕ → S → S × Bool) → Group → S → S
unfolding range_clients
range_user user fn g s = (range_clients fn (clients_of g user) s).0

-- the outer loop of RangeGroup
unfoldable pub range_users {ℓ} :
    {S : Type ℓ} → (String → String → ℕ → S → S × Bool) → List (String × Clients) → S → S
unfolding range_clients
range_users fn [] s = s
range_users fn ((user, clients) ∷ rest) s =
    let (s', go_on) = range_clients (fn user) clients s in
    elim go_on [ true ↦ range_users fn rest s' | false ↦ s' ]

-- The connection at a user and an id.
unfoldable pub conn_of : Group → String → String → Option ℕ
conn_of g user conn_id = Map.get conn_id (clients_of g user)
