-- ===== src/Pool/Closing.antt =====
-- The connections that Register and Unregister of pkg/pool close.
use bs_notify_hub.Prelude.Map
use bs_notify_hub.Prelude.{
  ℕ, String, ◌≡◌, Option, string_key, arith, Option-cases, inl, inr, if◌then◌else◌, ap,
}
use bs_notify_hub.Pool.Channel.{Channels}
use bs_notify_hub.Pool.Group.{Group, Clients, conn_of, close_old}
use bs_notify_hub.Pool.Group
use bs_notify_hub.Pool.Manager
use bs_notify_hub.Pool.Manager.{Manager, Pool}
use bs_notify_hub.Pool.Connections.{dropped}
use bs_notify_hub.Pool.Links.{IsLinked}
use bs_notify_hub.Pool.Lookup.{
  conn_at_found, conn_at_missing, get-get_or_create, conn_at-get_or_create,
}

-- Register closes the connection that stood at its key, and no other.
pub channels-register :
    (n u c : String) (k : ℕ) (w : Pool)
    → IsLinked w.manager
    → (Manager.register n u c k w).channels ≡ close_old (Manager.conn_at w.manager n u c) w.channels
unfolding Manager.register Manager.register_in Group.register
channels-register n u c k w v =
    let (m, p) = Manager.get_or_create_group n w.manager in
    let e : conn_of (m.heap p) u c ≡ Manager.conn_at w.manager n u c = cc (
      conn_at_found n p m u c (get-get_or_create n w.manager),
      conn_at-get_or_create n w.manager n u c v,
    ) in
    unfold conn_of in ap (λ o. close_old o w.channels) e

abbrev pub close_dropped : Option ℕ → Option ℕ → Channels → Channels
close_dropped o exact cs = if dropped o exact then close_old o cs else cs

pub channels_of-unregister :
    (g : Group) (cs : Channels) (u c : String) (e : Option ℕ)
    → (Group.unregister u c e (g, cs)).0.1 ≡ close_dropped (conn_of g u c) e cs
unfolding Group.unregister conn_of Map.get
channels_of-unregister g cs u c e = ground arith

-- Unregister closes the connection that it removes, and no other.
pub channels-unregister :
    (n u c : String) (e : Option ℕ) (w : Pool)
    → (Manager.unregister n u c e w).channels
      ≡ close_dropped (Manager.conn_at w.manager n u c) e w.channels
unfolding Manager.unregister Manager.unregister_in
channels-unregister n u c e w = elim (Option-cases (Manager.get_group n w.manager)) [
  | inl h ↦ ground (arith, conn_at_missing n u c w.manager h)
  | inr (p, h) ↦
      ground (
        arith,
        conn_at_found n p w.manager u c h,
        channels_of-unregister (w.heap p) w.channels u c e,
      )
]
