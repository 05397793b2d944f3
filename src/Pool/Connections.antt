-- ===== src/Pool/Connections.antt =====
-- The connections of one group as a finite map (pkg/pool/group.go).
use bs_notify_hub.Prelude.Map
use bs_notify_hub.Prelude.{
  ℕ, String, ◌≡◌, Bool, true, false, ◌&&◌, Option, none, some, [], ◌∷◌, same, string_key, nat_key,
  if◌then◌else◌, arith, Option-cases, inl, inr,
}
use bs_notify_hub.Pool.Channel.{Channels}
use bs_notify_hub.Pool.Group.{Group, Clients, empty_group, is_empty, conn_of, is_other}
use bs_notify_hub.Pool.Group

pub conn_of-register :
    (g : Group) (cs : Channels) (u c : String) (k : ℕ) (u' c' : String)
    → conn_of (Group.register u c k (g, cs)).0 u' c'
      ≡ (if same u u' && same c c' then some k else conn_of g u' c')
unfolding conn_of Group.register
conn_of-register g cs u c k u' c' =
    simp (Map.get-put) (ground (arith, Map.get-put c c' k (Group.clients_of g u)))

-- There is a connection, and the caller means it, or means any.
abbrev pub dropped : Option ℕ → Option ℕ → Bool
dropped none exact = false
dropped (some conn) none = true
dropped (some conn) (some exact) = same conn exact

conn_of-drop_client :
    (u : String) (m : Clients) (g : Group) (u' c' : String)
    → conn_of (Group.drop_client u m g) u' c'
      ≡ (if same u u' then Map.get c' m else conn_of g u' c')
unfolding conn_of Group.drop_client
conn_of-drop_client u [] g u' c' = simp Map.get-remove (unfold Map.get in ground arith)
conn_of-drop_client u (x ∷ m) g u' c' = simp Map.get-put (ground arith)

pub conn_of-unregister :
    (g : Group) (cs : Channels) (u c : String) (e : Option ℕ) (u' c' : String)
    → conn_of (Group.unregister u c e (g, cs)).0.0 u' c'
      ≡ (if same u u' && same c c' && dropped (conn_of g u c) e then none else conn_of g u' c')
unfolding conn_of Group.unregister
conn_of-unregister g cs u c e u' c' = elim (Option-cases (Map.get u g.users)) [
  | inl h ↦ unfold Map.get in ground arith
  | inr (m, h) ↦
      ground (arith, conn_of-drop_client u (Map.remove c m) g u' c', Map.get-remove c c' m)
]

pub conn_of-empty : (g : Group) (u c : String) → is_empty g ≡ true → conn_of g u c ≡ none
unfolding conn_of Map.get
conn_of-empty g u c h = ground arith
