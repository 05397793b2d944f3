-- ===== src/Pool/Tidy.antt =====
-- Empty maps in the groups of pkg/pool/group.go.
use bs_notify_hub.Prelude.Map
use bs_notify_hub.Prelude.{
  ℕ, String, ◌≡◌, refl, Bool, false, Option, some, [], ◌∷◌, string_key, nat_key, arith,
  Option-cases, inl, inr, if_induction,
}
use bs_notify_hub.Pool.Channel.{Channels, close}
use bs_notify_hub.Pool.Group.{Group, Clients, empty_group, is_empty, is_nil, conn_of, is_other}
use bs_notify_hub.Pool.Group

pub record IsTidy (g : Group) : Type 0 where
  pub users : Map.Distinct g.users
  pub clients :
      (u : String) (m : Clients) → Map.get u g.users ≡ some m → Map.Distinct m × (is_nil m ≡ false)

pub empty_group-IsTidy : IsTidy empty_group
unfolding Map.get
empty_group-IsTidy = record { users = tt; clients = λ u m h. cc }

put-ne-nil : (c : String) (k : ℕ) (m : Clients) → is_nil (Map.put c k m) ≡ false
unfolding Map.put
put-ne-nil c k m = refl

pub clients_of-Distinct : (g : Group) (u : String) → IsTidy g → Map.Distinct (Group.clients_of g u)
clients_of-Distinct g u t = elim (Option-cases (Map.get u g.users)) [
  | inl h ↦ rw h tt
  | inr (m, h) ↦ rw h (t.clients u m h).0
]

pub register-IsTidy :
    (g : Group) (cs : Channels) (u c : String) (k : ℕ)
    → IsTidy g
    → IsTidy (Group.register u c k (g, cs)).0
unfolding Group.register
register-IsTidy g cs u c k t =
    let m = Map.put c k (Group.clients_of g u) in
    let d = Map.put-Distinct c k _ (clients_of-Distinct g u t) in
    record {
      users = Map.put-Distinct u m g.users t.users;
      clients = λ u' m' h. ground (
        arith,
        Map.get-put u u' m g.users,
        t.clients u' m',
        d,
        put-ne-nil c k (Group.clients_of g u),
      );
    }

drop_client-IsTidy :
    (u : String) (m : Clients) (g : Group)
    → Map.Distinct m
    → IsTidy g
    → IsTidy (Group.drop_client u m g)
unfolding Group.drop_client
drop_client-IsTidy u [] g d t = record {
  users = Map.remove-Distinct u g.users t.users;
  clients = λ u' m' h. ground (arith, Map.get-remove u u' g.users, t.clients u' m');
}
drop_client-IsTidy u (x ∷ m) g d t = record {
  users = Map.put-Distinct u (x ∷ m) g.users t.users;
  clients = λ u' m' h. ground (arith, Map.get-put u u' (x ∷ m) g.users, t.clients u' m');
}

-- Unregister changes nothing, or drops one connection that it closes.
pub unregister_cases {ℓ} :
    (P : (Group × Channels) × Bool → Type ℓ) (g : Group) (cs : Channels) (u c : String)
    (e : Option ℕ)
    → P ((g, cs), is_empty g)
    → ((m : Clients) (k : ℕ)
        → Map.get u g.users ≡ some m
        → Map.get c m ≡ some k
        → let g' = Group.drop_client u (Map.remove c m) g in P ((g', close k cs), is_empty g'))
    → P (Group.unregister u c e (g, cs))
unfolding Group.unregister
unregister_cases P g cs u c e stay drop = elim (Option-cases (Map.get u g.users)) [
  | inl h ↦ rw (h, Group.unregister) stay
  | inr (m, h) ↦ elim (Option-cases (Map.get c m)) [
    | inl h' ↦ rw (h, Group.unregister) (rw h' stay)
    | inr (k, h') ↦
        rw (h, Group.unregister) (rw h' (if_induction P (is_other k e) _ _ stay (drop m k h h')))
  ]
]

pub unregister-IsTidy :
    (g : Group) (cs : Channels) (u c : String) (e : Option ℕ)
    → IsTidy g
    → IsTidy (Group.unregister u c e (g, cs)).0.0
unregister-IsTidy g cs u c e t =
    unregister_cases (λ r. IsTidy r.0.0) g cs u c e t
      λ m k h h'. drop_client-IsTidy u _ g (Map.remove-Distinct c m (t.clients u m h).0) t
