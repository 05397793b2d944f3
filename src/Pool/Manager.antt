-- ===== src/Pool/Manager.antt =====
-- pkg/pool/manager.go: the groups by tenant. A `*Group` is an address into `heap`, so that a caller
-- may hold a group that the map has dropped.
use bs_notify_hub.Prelude.Map
use bs_notify_hub.Prelude.{
  ℕ, suc, ◌+◌, String, Bool, Option, none, some, List, [], ◌∷◌, same, string_key, nat_key,
  if◌then◌else◌, length,
}
use bs_notify_hub.Pool.Channel.{Channels}
use bs_notify_hub.Pool.Group.{Group, Clients, empty_group, is_empty, range_clients, conn_of}
use bs_notify_hub.Pool.Group

pub record Manager : Type 0 where
  pub groups : List (String × ℕ)
  pub heap : ℕ → Group
  pub next : ℕ

-- The manager, and the channels of the connections that it holds.
pub record Pool : Type 0 where
  pub manager : Manager
  pub open manager use *
  pub channels : Channels

unfoldable pub new_manager : Manager
new_manager = record { groups = []; heap = λ p. empty_group; next = 0 }

abbrev pub set_group : ℕ → Group → (ℕ → Group) → ℕ → Group
set_group p g h q = if same p q then g else h q

unfoldable pub get_or_create_group : String → Manager → Manager × ℕ
get_or_create_group name m = elim (Map.get name m.groups) [
  | some p ↦ (m, p)
  | none ↦ (
    record {
      groups = Map.put name m.next m.groups;
      heap = set_group m.next empty_group m.heap;
      next = suc m.next;
    },
    m.next,
  )
]

unfoldable pub get_group : String → Manager → Option ℕ
get_group name m = Map.get name m.groups

abbrev pub store_group : ℕ → Group × Channels → Pool → Pool
store_group p (g, cs) w = record w {
  manager = record w.manager { heap = set_group p g w.heap };
  channels = cs;
}

-- The second half of Register: `g.Register(...)` on a group that the caller holds.
unfoldable pub register_in : ℕ → String → String → ℕ → Pool → Pool
register_in p user conn_id conn w =
    store_group p (Group.register user conn_id conn (w.heap p, w.channels)) w

unfoldable pub register : String → String → String → ℕ → Pool → Pool
unfolding get_or_create_group register_in
register name user conn_id conn w =
    let (m, p) = get_or_create_group name w.manager in
    register_in p user conn_id conn (record w { manager = m })

-- The first part of Unregister: `g.Unregister(...)`, which says whether the group is now empty.
unfoldable pub unregister_in : ℕ → String → String → Option ℕ → Pool → Pool × Bool
unregister_in p user conn_id exact w =
    let (gc, empty) = Group.unregister user conn_id exact (w.heap p, w.channels) in
    (store_group p gc w, empty)

-- The last part: under the global lock, the group is dropped if it is still empty.
unfoldable pub collect : String → Manager → Manager
collect name m = elim (Map.get name m.groups) [
  | none ↦ m
  | some p ↦ if is_empty (m.heap p) then record m { groups = Map.remove name m.groups } else m
]

unfoldable pub unregister : String → String → String → Option ℕ → Pool → Pool
unfolding get_group unregister_in collect
unregister name user conn_id exact w = elim (get_group name w.manager) [
  | none ↦ w
  | some p ↦
      let (w', empty) = unregister_in p user conn_id exact w in
      if empty then record w' { manager = collect name w'.manager } else w'
]

unfoldable pub range_user {ℓ} :
    {S : Type ℓ} → String → String → (String → ℕ → S → S × Bool) → Manager → S → S
unfolding get_group
range_user name user fn m s = elim (get_group name m) [
  | none ↦ s
  | some p ↦ Group.range_user user fn (m.heap p) s
]

unfoldable pub range_group {ℓ} :
    {S : Type ℓ} → String → (String → String → ℕ → S → S × Bool) → Manager → S → S
unfolding get_group
range_group name fn m s = elim (get_group name m) [
  | none ↦ s
  | some p ↦ Group.range_users fn (m.heap p).users s
]

-- the inner loop of Count and of GroupStats
unfoldable pub count_clients : List (String × Clients) → ℕ
count_clients [] = 0
count_clients ((user, clients) ∷ rest) = length clients + count_clients rest

unfoldable pub count_groups : (ℕ → Group) → List (String × ℕ) → ℕ
unfolding count_clients
count_groups h [] = 0
count_groups h ((name, p) ∷ rest) = count_clients (h p).users + count_groups h rest

unfoldable pub count : Manager → ℕ
unfolding count_groups
count m = count_groups m.heap m.groups

unfoldable pub group_count : Manager → ℕ
group_count m = length m.groups

abbrev pub keys {ℓ κ} : {K : Type ℓ} {V : Type κ} → List (K × V) → List K
keys [] = []
keys ((k, v) ∷ m) = k ∷ keys m

-- `userSet[userID] = struct{}{}` for every user of a group
unfoldable pub add_users :
    List (String × Clients) → List (String × Unit {0}) → List (String × Unit {0})
add_users [] set = set
add_users ((user, clients) ∷ rest) set = add_users rest (Map.put user tt set)

unfoldable pub user_set :
    (ℕ → Group) → List (String × ℕ) → List (String × Unit {0}) → List (String × Unit {0})
unfolding add_users
user_set h [] set = set
user_set h ((name, p) ∷ rest) set = user_set h rest (add_users (h p).users set)

unfoldable pub user_count : Manager → ℕ
unfolding user_set
user_count m = length (user_set m.heap m.groups [])

unfoldable pub get_online_user_ids : String → Manager → List String
get_online_user_ids name m = elim (Map.get name m.groups) [
  | none ↦ []
  | some p ↦ keys (m.heap p).users
]

pub record GroupStat : Type 0 where
  pub user_count : ℕ
  pub conn_count : ℕ

unfoldable pub group_stats_of : (ℕ → Group) → List (String × ℕ) → List (String × GroupStat)
unfolding count_clients
group_stats_of h [] = []
group_stats_of h ((name, p) ∷ rest) =
    (name, record { user_count = length (h p).users; conn_count = count_clients (h p).users })
    ∷ group_stats_of h rest

unfoldable pub group_stats : Manager → List (String × GroupStat)
unfolding group_stats_of
group_stats m = group_stats_of m.heap m.groups

-- What a client can see: the connection of a tenant's user under an id.
unfoldable pub conn_at : Manager → String → String → String → Option ℕ
unfolding conn_of
conn_at m name user conn_id = elim (Map.get name m.groups) [
  | none ↦ none
  | some p ↦ conn_of (m.heap p) user conn_id
]
