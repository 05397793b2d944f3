-- ===== src/Pool/Links.antt =====
-- The invariant that ties the names of pkg/pool/manager.go to the groups.
use bs_notify_hub.Prelude.Map
use bs_notify_hub.Prelude.{
  ℕ, ◌<◌, String, ◌≡◌, Option, some, string_key, nat_key, arith, Option-cases, inl, inr,
  if_induction,
}
use bs_notify_hub.Pool.Manager
use bs_notify_hub.Pool.Manager.{Manager, Pool}

-- Every name has a group of its own, at an address that was handed out.
pub record IsLinked (m : Manager) : Type 0 where
  pub bounded : (n : String) (p : ℕ) → Map.get n m.groups ≡ some p → p < m.next
  pub apart :
      (n n' : String) (p : ℕ) → Map.get n m.groups ≡ some p → Map.get n' m.groups ≡ some p → n ≡ n'

pub new_manager-IsLinked : IsLinked Manager.new_manager
unfolding Manager.new_manager Map.get
new_manager-IsLinked = record { bounded = λ n p h. cc; apart = λ n n' p h h'. cc }

pub get_or_create_group-IsLinked :
    (name : String) (m : Manager) → IsLinked m → IsLinked (Manager.get_or_create_group name m).0
unfolding Manager.get_or_create_group
get_or_create_group-IsLinked name m v = record {
  bounded = λ n p. ground (arith, Map.get-put name n m.next m.groups, v.bounded n p);
  apart = λ n n' p. ground (
    arith,
    Map.get-put name n m.next m.groups,
    Map.get-put name n' m.next m.groups,
    v.bounded n p,
    v.bounded n' p,
    v.apart n n' p,
  );
}

pub collect-IsLinked :
    (name : String) (m : Manager) → IsLinked m → IsLinked (Manager.collect name m)
unfolding Manager.collect
collect-IsLinked name m v = record {
  bounded = λ n p. ground (arith, Map.get-remove name n m.groups, v.bounded n p);
  apart = λ n n' p.
      ground
        (arith, Map.get-remove name n m.groups, Map.get-remove name n' m.groups, v.apart n n' p);
}

pub register-IsLinked :
    (name u c : String) (k : ℕ) (w : Pool)
    → IsLinked w.manager
    → IsLinked (Manager.register name u c k w).manager
unfolding Manager.register
register-IsLinked name u c k w v =
    let l = get_or_create_group-IsLinked name w.manager v in
    record { bounded = l.bounded; apart = l.apart }

pub unregister-IsLinked :
    (name u c : String) (e : Option ℕ) (w : Pool)
    → IsLinked w.manager
    → IsLinked (Manager.unregister name u c e w).manager
unfolding Manager.unregister
unregister-IsLinked name u c e w v = elim (Option-cases (Manager.get_group name w.manager)) [
  | inl h ↦ rw (h, Manager.unregister) v
  | inr (p, h) ↦
      let (w', empty) = Manager.unregister_in p u c e w in
      let kept : IsLinked w'.manager = record { bounded = v.bounded; apart = v.apart } in
      rw (h, Manager.unregister)
        (if_induction (λ (x : Pool). IsLinked x.manager) empty
          (record w' { manager = Manager.collect name w'.manager }) w'
          (collect-IsLinked name w'.manager kept) kept)
]
