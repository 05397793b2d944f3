-- ===== src/Pool/Neat.antt =====
-- Empty groups of pkg/pool/manager.go.
use bs_notify_hub.Prelude.Map
use bs_notify_hub.Prelude.{
  ℕ, String, ◌≡◌, refl, false, Option, some, same, string_key, nat_key, arith, Option-cases, inl,
  inr, if_cases_at, if_induction, ◌≢◌,
}
use bs_notify_hub.Pool.Channel.{Channels}
use bs_notify_hub.Pool.Group.{Group, Clients, empty_group, is_empty, is_nil, conn_of, is_other}
use bs_notify_hub.Pool.Group
use bs_notify_hub.Pool.Manager
use bs_notify_hub.Pool.Manager.{Manager, Pool}
use bs_notify_hub.Pool.Links.{IsLinked}
use bs_notify_hub.Pool.Tidy.{
  IsTidy, empty_group-IsTidy, register-IsTidy, unregister-IsTidy, unregister_cases,
}

-- Between two calls no group of the map is empty.
pub record IsNeat (m : Manager) : Type 0 where
  pub names : Map.Distinct m.groups
  pub tidy : (p : ℕ) → IsTidy (m.heap p)
  pub in_use : (n : String) (p : ℕ) → Map.get n m.groups ≡ some p → is_empty (m.heap p) ≡ false

pub new_manager-IsNeat : IsNeat Manager.new_manager
unfolding Manager.new_manager Map.get
new_manager-IsNeat = record { names = tt; tidy = λ p. empty_group-IsTidy; in_use = λ n p h. cc }

pub set_group-IsTidy :
    (p : ℕ) (g : Group) (h : ℕ → Group)
    → IsTidy g
    → ((q : ℕ) → IsTidy (h q))
    → (q : ℕ) → IsTidy (Manager.set_group p g h q)
set_group-IsTidy p g h t ts q = if_induction IsTidy (same p q) g (h q) t (ts q)

register-ne-empty :
    (g : Group) (cs : Channels) (u c : String) (k : ℕ)
    → is_empty (Group.register u c k (g, cs)).0 ≡ false
unfolding Group.register Map.put
register-ne-empty g cs u c k = refl

unregister_flag :
    (g : Group) (cs : Channels) (u c : String) (e : Option ℕ)
    → let r = Group.unregister u c e (g, cs) in r.1 ≡ is_empty r.0.0
unregister_flag g cs u c e =
    unregister_cases (λ r. r.1 ≡ is_empty r.0.0) g cs u c e refl (λ m k h h'. refl)

-- Within a call one group may be empty.
record IsNeatBut (p : ℕ) (m : Manager) : Type 0 where
  names : Map.Distinct m.groups
  tidy : (q : ℕ) → IsTidy (m.heap q)
  in_use : (n : String) (q : ℕ) → Map.get n m.groups ≡ some q → q ≢ p → is_empty (m.heap q) ≡ false

get_or_create-IsNeatBut :
    (n : String) (m : Manager)
    → IsNeat m
    → IsNeatBut (Manager.get_or_create_group n m).1 (Manager.get_or_create_group n m).0
unfolding Manager.get_or_create_group
get_or_create-IsNeatBut n m v = elim (Option-cases (Map.get n m.groups)) [
  | inl h ↦
      rw (h, Manager.get_or_create_group)
        (record {
          names = Map.put-Distinct n m.next m.groups v.names;
          tidy = set_group-IsTidy m.next empty_group m.heap empty_group-IsTidy v.tidy;
          in_use = λ n' q at. ground (arith, Map.get-put n n' m.next m.groups, v.in_use n' q);
        })
  | inr (p, h) ↦
      rw (h, Manager.get_or_create_group)
        (record { names = v.names; tidy = v.tidy; in_use = λ n' q at ne. v.in_use n' q at })
]

store_group-IsNeatBut :
    (p : ℕ) (g : Group) (cs : Channels) (w : Pool)
    → IsTidy g
    → IsNeatBut p w.manager
    → IsNeatBut p (Manager.store_group p (g, cs) w).manager
store_group-IsNeatBut p g cs w t v = record {
  names = v.names;
  tidy = set_group-IsTidy p g w.heap t v.tidy;
  in_use = λ n q at. ground (arith, v.in_use n q);
}

-- The exception is lifted when the group is in use.
IsNeat-of_but : (p : ℕ) (m : Manager) → IsNeatBut p m → is_empty (m.heap p) ≡ false → IsNeat m
IsNeat-of_but p m v e = record {
  names = v.names;
  tidy = v.tidy;
  in_use = λ n q at. ground (arith, v.in_use n q);
}

pub register-IsNeat :
    (n u c : String) (k : ℕ) (w : Pool)
    → IsNeat w.manager
    → IsNeat (Manager.register n u c k w).manager
unfolding Manager.register Manager.register_in
register-IsNeat n u c k w v =
    let (m, p) = Manager.get_or_create_group n w.manager in
    let b = get_or_create-IsNeatBut n w.manager v in
    let (g, cs) = Group.register u c k (m.heap p, w.channels) in
    let t = register-IsTidy (m.heap p) w.channels u c k (b.tidy p) in
    IsNeat-of_but p _ (store_group-IsNeatBut p g cs (record w { manager = m }) t b)
      (ground (arith, register-ne-empty (m.heap p) w.channels u c k))

collect-IsNeat :
    (n : String) (p : ℕ) (m : Manager)
    → Map.get n m.groups ≡ some p
    → IsLinked m
    → IsNeatBut p m
    → IsNeat (Manager.collect n m)
unfolding Manager.collect
collect-IsNeat n p m h l v =
    rw (h, Manager.collect)
      (if_cases_at IsNeat (is_empty (m.heap p)) _ _
        (λ e. record {
          names = Map.remove-Distinct n m.groups v.names;
          tidy = v.tidy;
          in_use = λ n' q at.
              ground (arith, Map.get-remove n n' m.groups, l.apart n n' p, v.in_use n' q);
        })
        (λ e. IsNeat-of_but p m v e))

-- Unregister leaves no group empty and no user without a connection: a group whose last connection
-- goes is dropped, and an entry whose last connection goes as well.
pub unregister-IsNeat :
    (n u c : String) (e : Option ℕ) (w : Pool)
    → IsLinked w.manager
    → IsNeat w.manager
    → IsNeat (Manager.unregister n u c e w).manager
unfolding Manager.unregister Manager.unregister_in
unregister-IsNeat n u c e w l v = elim (Option-cases (Manager.get_group n w.manager)) [
  | inl h ↦ rw (h, Manager.unregister) v
  | inr (p, h) ↦
      let ((g, cs), empty) = Group.unregister u c e (w.heap p, w.channels) in
      let w' = Manager.store_group p (g, cs) w in
      let t = unregister-IsTidy (w.heap p) w.channels u c e (v.tidy p) in
      let but : IsNeatBut p w.manager = record {
        names = v.names;
        tidy = v.tidy;
        in_use = λ n' q at ne. v.in_use n' q at;
      } in
      let b = store_group-IsNeatBut p g cs w t but in
      rw (h, Manager.unregister)
        (if_cases_at (λ (x : Pool). IsNeat x.manager) empty _ _
          (λ on.
            collect-IsNeat n p w'.manager h (record { bounded = l.bounded; apart = l.apart }) b)
          (λ off.
            IsNeat-of_but p w'.manager b
              (ground (arith, unregister_flag (w.heap p) w.channels u c e))))
]
