-- ===== src/Pool/Once.antt =====
-- RangeUser and RangeGroup of pkg/pool with callbacks that never stop the walk.
use bs_notify_hub.Prelude.Map
use bs_notify_hub.Prelude.{
  ℕ, String, ◌≡◌, ◌≢◌, refl, Bool, true, some, List, [], ◌∷◌, same, same_iff, string_key, arith,
  Option-cases, Bool-cases, inl, inr,
}
use bs_notify_hub.Pool.Group.{Group, Clients, conn_of}
use bs_notify_hub.Pool.Group
use bs_notify_hub.Pool.Manager
use bs_notify_hub.Pool.Manager.{Manager}
use bs_notify_hub.Pool.Neat.{IsNeat}

-- The callback keeps a property and goes on.
abbrev pub GoesOn {ℓ κ} : {S : Type ℓ} → (S → Type κ) → S × Bool → Type κ
GoesOn P (s, go_on) = P s × (go_on ≡ true)

module _ {ℓ κ} {S : Type ℓ} (P : S → Type κ) where
  range_clients_on :
      (fn : String → ℕ → S → S × Bool) (m : Clients)
      → ((c : String) (k : ℕ) (s : S) → Map.get c m ≡ some k → P s → GoesOn P (fn c k s))
      → Map.Distinct m
      → (s : S) → P s
      → GoesOn P (Group.range_clients fn m s)
  unfolding Group.range_clients
  range_clients_on fn [] keep d s h = (h, refl)
  range_clients_on fn ((c, k) ∷ m) keep d s h =
      let (here, on) = keep c k s (Map.get_head c k m) h in
      rw (on, Group.range_clients)
        (range_clients_on fn m (λ c' k' s' at. keep c' k' s' (Map.get_tail c c' k k' m d at)) d.1
          (fn c k s).0 here)

  range_users_on :
      (fn : String → String → ℕ → S → S × Bool) (us : List (String × Clients))
      → ((u c : String) (m : Clients) (k : ℕ) (s : S)
          → Map.get u us ≡ some m
          → Map.get c m ≡ some k
          → P s
          → GoesOn P (fn u c k s))
      → Map.Distinct us
      → ((u : String) (m : Clients) → Map.get u us ≡ some m → Map.Distinct m)
      → (s : S) → P s
      → P (Group.range_users fn us s)
  unfolding Group.range_users
  range_users_on fn [] keep d ds s h = h
  range_users_on fn ((u, m) ∷ us) keep d ds s h =
      let (here, on) =
        range_clients_on (fn u) m (λ c k s' at. keep u c m k s' (Map.get_head u m us) at)
          (ds u m (Map.get_head u m us)) s h in
      rw (on, Group.range_users)
        (range_users_on fn us
          (λ u' c m' k s' at. keep u' c m' k s' (Map.get_tail u u' m m' us d at)) d.1
          (λ u' m' at. ds u' m' (Map.get_tail u u' m m' us d at)) (Group.range_clients (fn u) m s).0
          here)

not_head :
    {V : Type 0} (u u' : String) (v w : V) (m : List (String × V))
    → Map.Distinct ((u, v) ∷ m)
    → Map.get u' m ≡ some w
    → u' ≢ u
unfolding Map.get
not_head u u' v w m d h e = ground arith

-- A property that holds before a connection is visited, and one that holds after.
module _ {ℓ κ} {S : Type ℓ} (P Q : S → Type κ) where
  range_clients_once :
      (fn : String → ℕ → S → S × Bool) (m : Clients) (c : String) (k : ℕ)
      → Map.get c m ≡ some k
      → ((c' : String) (j : ℕ) (s : S)
          → Map.get c' m ≡ some j
          → c' ≢ c
          → P s
          → GoesOn P (fn c' j s))
      → ((c' : String) (j : ℕ) (s : S) → c' ≡ c → j ≡ k → P s → GoesOn Q (fn c' j s))
      → ((c' : String) (j : ℕ) (s : S)
          → Map.get c' m ≡ some j
          → c' ≢ c
          → Q s
          → GoesOn Q (fn c' j s))
      → Map.Distinct m
      → (s : S) → P s
      → GoesOn Q (Group.range_clients fn m s)
  unfolding Group.range_clients Map.get
  range_clients_once fn [] c k at before hit after d s h = cc at
  range_clients_once fn ((c0, k0) ∷ m) c k at before hit after d s h =
      elim (Bool-cases (same c0 c)) [
        | inl e ↦
            let q = (same_iff c0 c).0 e in
            let (here, on) = hit c0 k0 s q (ground arith) h in
            rw (on, Group.range_clients)
              (range_clients_on Q fn m
                (λ c' j s' g.
                  after c' j s' (Map.get_tail c0 c' k0 j m d g)
                    (λ x. not_head c0 c' k0 j m d g (cc (x, q))))
                d.1 (fn c0 k0 s).0 here)
        | inr e ↦
            let at' : Map.get c m ≡ some k = ground (arith, at) in
            let (here, on) =
              before c0 k0 s (Map.get_head c0 k0 m) (λ x. ground (arith, same_iff c0 c)) h in
            rw (on, Group.range_clients)
              (range_clients_once fn m c k at'
                (λ c' j s' g. before c' j s' (Map.get_tail c0 c' k0 j m d g)) hit
                (λ c' j s' g. after c' j s' (Map.get_tail c0 c' k0 j m d g)) d.1 (fn c0 k0 s).0
                here)
      ]

  range_users_once :
      (fn : String → String → ℕ → S → S × Bool) (us : List (String × Clients)) (u c : String)
      (m : Clients) (k : ℕ)
      → Map.get u us ≡ some m
      → Map.get c m ≡ some k
      → ((u' c' : String) (m' : Clients) (j : ℕ) (s : S)
          → Map.get u' us ≡ some m'
          → Map.get c' m' ≡ some j
          → ((u' ≡ u) × (c' ≡ c) → ⊥)
          → P s
          → GoesOn P (fn u' c' j s))
      → ((u' c' : String) (j : ℕ) (s : S) → u' ≡ u → c' ≡ c → j ≡ k → P s → GoesOn Q (fn u' c' j s))
      → ((u' c' : String) (m' : Clients) (j : ℕ) (s : S)
          → Map.get u' us ≡ some m'
          → Map.get c' m' ≡ some j
          → ((u' ≡ u) × (c' ≡ c) → ⊥)
          → Q s
          → GoesOn Q (fn u' c' j s))
      → Map.Distinct us
      → ((u' : String) (m' : Clients) → Map.get u' us ≡ some m' → Map.Distinct m')
      → (s : S) → P s
      → Q (Group.range_users fn us s)
  unfolding Group.range_users Map.get
  range_users_once fn [] u c m k at at' before hit after d ds s h = cc at
  range_users_once fn ((u0, m0) ∷ us) u c m k at at' before hit after d ds s h =
      elim (Bool-cases (same u0 u)) [
        | inl e ↦
            let q = (same_iff u0 u).0 e in
            let at0 : Map.get c m0 ≡ some k = ground (arith, at, at') in
            let (here, on) =
              range_clients_once (fn u0) m0 c k at0
                (λ c' j s' g ne. before u0 c' m0 j s' (Map.get_head u0 m0 us) g (λ (x, y). ne y))
                (λ c' j s' x y. hit u0 c' j s' q x y)
                (λ c' j s' g ne. after u0 c' m0 j s' (Map.get_head u0 m0 us) g (λ (x, y). ne y))
                (ds u0 m0 (Map.get_head u0 m0 us)) s h in
            rw (on, Group.range_users)
              (range_users_on Q fn us
                (λ u' c' m' j s' g g'.
                  after u' c' m' j s' (Map.get_tail u0 u' m0 m' us d g) g'
                    (λ (x, y). not_head u0 u' m0 m' us d g (cc (x, q))))
                d.1 (λ u' m' g. ds u' m' (Map.get_tail u0 u' m0 m' us d g))
                (Group.range_clients (fn u0) m0 s).0 here)
        | inr e ↦
            let at0 : Map.get u us ≡ some m = ground (arith, at) in
            let (here, on) =
              range_clients_on P (fn u0) m0
                (λ c' j s' g.
                  before u0 c' m0 j s' (Map.get_head u0 m0 us) g
                    (λ (x, y). ground (arith, same_iff u0 u)))
                (ds u0 m0 (Map.get_head u0 m0 us)) s h in
            rw (on, Group.range_users)
              (range_users_once fn us u c m k at0 at'
                (λ u' c' m' j s' g. before u' c' m' j s' (Map.get_tail u0 u' m0 m' us d g)) hit
                (λ u' c' m' j s' g. after u' c' m' j s' (Map.get_tail u0 u' m0 m' us d g)) d.1
                (λ u' m' g. ds u' m' (Map.get_tail u0 u' m0 m' us d g))
                (Group.range_clients (fn u0) m0 s).0 here)
      ]

  -- RangeGroup visits the connection at a user and an id once.
  pub range_group_once :
      (n u c : String) (k : ℕ) (fn : String → String → ℕ → S → S × Bool) (m : Manager)
      → Manager.conn_at m n u c ≡ some k
      → ((u' c' : String) (j : ℕ) (s : S)
          → Manager.conn_at m n u' c' ≡ some j
          → ((u' ≡ u) × (c' ≡ c) → ⊥)
          → P s
          → GoesOn P (fn u' c' j s))
      → ((u' c' : String) (j : ℕ) (s : S) → u' ≡ u → c' ≡ c → j ≡ k → P s → GoesOn Q (fn u' c' j s))
      → ((u' c' : String) (j : ℕ) (s : S)
          → Manager.conn_at m n u' c' ≡ some j
          → ((u' ≡ u) × (c' ≡ c) → ⊥)
          → Q s
          → GoesOn Q (fn u' c' j s))
      → IsNeat m
      → (s : S) → P s
      → Q (Manager.range_group n fn m s)
  unfolding Manager.range_group Manager.conn_at
  range_group_once n u c k fn m at before hit after v s h =
      elim (Option-cases (Map.get n m.groups)) [
        | inl missing ↦ ground (arith, at)
        | inr (p, found) ↦ elim (Option-cases (Map.get u (m.heap p).users)) [
          | inl missing ↦ unfold Map.get in ground (arith, at)
          | inr (cl, here) ↦
              rw (found, Manager.range_group)
                (range_users_once fn (m.heap p).users u c cl k here (ground (arith, at))
                  (λ u' c' m' j s' g g' ne q. before u' c' j s' (ground arith) ne q) hit
                  (λ u' c' m' j s' g g' ne q. after u' c' j s' (ground arith) ne q) (v.tidy p).users
                  (λ u' m' g. ((v.tidy p).clients u' m' g).0) s h)
        ]
      ]
