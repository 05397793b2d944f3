-- ===== src/Pool/Lookup.antt =====
-- The pool as a finite map: what Register and Unregister do to the connection at a key.
use bs_notify_hub.Prelude.Map
use bs_notify_hub.Prelude.{
  ℕ, String, ◌≡◌, ◌&&◌, Option, none, some, same, string_key, nat_key, if◌then◌else◌, arith,
  Option-cases, inl, inr,
}
use bs_notify_hub.Pool.Channel.{Channels}
use bs_notify_hub.Pool.Group.{Group, Clients, empty_group, is_empty, conn_of, is_other}
use bs_notify_hub.Pool.Group
use bs_notify_hub.Pool.Connections.{conn_of-register, conn_of-unregister, conn_of-empty, dropped}
use bs_notify_hub.Pool.Links.{IsLinked, get_or_create_group-IsLinked}
use bs_notify_hub.Pool.Manager
use bs_notify_hub.Pool.Manager.{Manager, Pool}

pub get-get_or_create :
    (name : String) (m : Manager)
    → Map.get name (Manager.get_or_create_group name m).0.groups
      ≡ some (Manager.get_or_create_group name m).1
unfolding Manager.get_or_create_group
get-get_or_create name m = ground (arith, Map.get-put name name m.next m.groups)

pub conn_at-get_or_create :
    (name : String) (m : Manager) (n u c : String)
    → IsLinked m
    → Manager.conn_at (Manager.get_or_create_group name m).0 n u c ≡ Manager.conn_at m n u c
unfolding Manager.get_or_create_group Manager.conn_at
conn_at-get_or_create name m n u c v = elim (Option-cases (Map.get n m.groups)) [
  | inl h ↦ ground (arith, Map.get-put name n m.next m.groups, conn_of-empty empty_group u c)
  | inr (p, h) ↦ ground (arith, Map.get-put name n m.next m.groups, v.bounded n p)
]

conn_at-store_group :
    (name : String) (p : ℕ) (g : Group) (cs : Channels) (w : Pool) (n u c : String)
    → IsLinked w.manager
    → Map.get name w.groups ≡ some p
    → Manager.conn_at (Manager.store_group p (g, cs) w).manager n u c
      ≡ (if same name n then conn_of g u c else Manager.conn_at w.manager n u c)
unfolding Manager.conn_at
conn_at-store_group name p g cs w n u c v h = elim (Option-cases (Map.get n w.groups)) [
  | inl none_at ↦ ground arith
  | inr (q, at) ↦ ground (arith, v.apart name n p)
]

conn_at-collect :
    (name : String) (m : Manager) (n u c : String)
    → Manager.conn_at (Manager.collect name m) n u c ≡ Manager.conn_at m n u c
unfolding Manager.conn_at Manager.collect
conn_at-collect name m n u c = elim (Option-cases (Map.get name m.groups)) [
  | inl none_at ↦ ground arith
  | inr (p, at) ↦ ground (arith, Map.get-remove name n m.groups, conn_of-empty (m.heap p) u c)
]

pub conn_at_found :
    (name : String) (p : ℕ) (m : Manager) (u c : String)
    → Map.get name m.groups ≡ some p
    → Manager.conn_at m name u c ≡ conn_of (m.heap p) u c
unfolding Manager.conn_at
conn_at_found name p m u c h = ground arith

pub conn_at_missing :
    (name u c : String) (m : Manager)
    → Map.get name m.groups ≡ none
    → Manager.conn_at m name u c ≡ none
unfolding Manager.conn_at
conn_at_missing name u c m h = ground arith

pub conn_at-register_in :
    (n u c : String) (k p : ℕ) (w : Pool) (n' u' c' : String)
    → IsLinked w.manager
    → Map.get n w.groups ≡ some p
    → Manager.conn_at (Manager.register_in p u c k w).manager n' u' c'
      ≡ (if same n n' && same u u' && same c c' then some k else Manager.conn_at w.manager n' u' c')
unfolding Manager.register_in
conn_at-register_in n u c k p w n' u' c' v h =
    let (g, cs) = Group.register u c k (w.heap p, w.channels) in
    ground (
      arith,
      conn_at-store_group n p g cs w n' u' c' v h,
      conn_of-register (w.heap p) w.channels u c k u' c',
      conn_at_found n p w.manager u' c' h,
    )

pub conn_at-unregister_in :
    (n u c : String) (e : Option ℕ) (p : ℕ) (w : Pool) (n' u' c' : String)
    → IsLinked w.manager
    → Map.get n w.groups ≡ some p
    → Manager.conn_at (Manager.unregister_in p u c e w).0.manager n' u' c' ≡ (
        if same n n' && same u u' && same c c' && dropped (Manager.conn_at w.manager n u c) e
        then none
        else Manager.conn_at w.manager n' u' c')
unfolding Manager.unregister_in
conn_at-unregister_in n u c e p w n' u' c' v h =
    let (gc, empty) = Group.unregister u c e (w.heap p, w.channels) in
    ground (
      arith,
      conn_at-store_group n p gc.0 gc.1 w n' u' c' v h,
      conn_of-unregister (w.heap p) w.channels u c e u' c',
      conn_at_found n p w.manager u' c' h,
      conn_at_found n p w.manager u c h,
    )

-- Register sets the connection of its key and leaves that of every other key.
pub conn_at-register :
    (n u c : String) (k : ℕ) (w : Pool) (n' u' c' : String)
    → IsLinked w.manager
    → Manager.conn_at (Manager.register n u c k w).manager n' u' c'
      ≡ (if same n n' && same u u' && same c c' then some k else Manager.conn_at w.manager n' u' c')
unfolding Manager.register
conn_at-register n u c k w n' u' c' v =
    let (m, p) = Manager.get_or_create_group n w.manager in
    rw
      (conn_at-register_in n u c k p (record w { manager = m }) n' u' c'
        (get_or_create_group-IsLinked n w.manager v) (get-get_or_create n w.manager))
      (rw (conn_at-get_or_create n w.manager n' u' c' v))

-- Unregister removes the connection of its key if it is the one that the caller means, and leaves
-- that of every other key.
pub conn_at-unregister :
    (n u c : String) (e : Option ℕ) (w : Pool) (n' u' c' : String)
    → IsLinked w.manager
    → Manager.conn_at (Manager.unregister n u c e w).manager n' u' c' ≡ (
        if same n n' && same u u' && same c c' && dropped (Manager.conn_at w.manager n u c) e
        then none
        else Manager.conn_at w.manager n' u' c')
unfolding Manager.unregister
conn_at-unregister n u c e w n' u' c' v = elim (Option-cases (Manager.get_group n w.manager)) [
  | inl h ↦ ground (arith, conn_at_missing n u c w.manager h, conn_at_missing n u' c' w.manager)
  | inr (p, h) ↦
      let (w', empty) = Manager.unregister_in p u c e w in
      ground (
        arith,
        conn_at-unregister_in n u c e p w n' u' c' v h,
        conn_at-collect n w'.manager n' u' c',
      )
]
