-- ===== src/Pool/Range.antt =====
-- RangeUser and RangeGroup of pkg/pool: what a callback keeps.
use bs_notify_hub.Prelude.Map
use bs_notify_hub.Prelude.{
  ℕ, String, ◌≡◌, Bool, some, List, [], ◌∷◌, string_key, arith, Option-cases, Bool-cases, inl, inr,
}
use bs_notify_hub.Pool.Group.{Group, Clients, conn_of}
use bs_notify_hub.Pool.Group
use bs_notify_hub.Pool.Manager
use bs_notify_hub.Pool.Manager.{Manager}
use bs_notify_hub.Pool.Tidy.{clients_of-Distinct}
use bs_notify_hub.Pool.Neat.{IsNeat}

module _ {ℓ κ} {S : Type ℓ} (P : S → Type κ) where
  pub range_clients_inv :
      (fn : String → ℕ → S → S × Bool) (m : Clients)
      → ((c : String) (k : ℕ) (s : S) → Map.get c m ≡ some k → P s → P (fn c k s).0)
      → Map.Distinct m
      → (s : S) → P s
      → P (Group.range_clients fn m s).0
  unfolding Group.range_clients
  range_clients_inv fn [] keep d s h = h
  range_clients_inv fn ((c, k) ∷ m) keep d s h =
      let here = keep c k s (Map.get_head c k m) h in
      let rest =
        range_clients_inv fn m (λ c' k' s' at. keep c' k' s' (Map.get_tail c c' k k' m d at)) d.1
          (fn c k s).0 here in
      elim (Bool-cases (fn c k s).1) [
        | inl on ↦ rw (on, Group.range_clients) rest
        | inr off ↦ rw (off, Group.range_clients) here
      ]

  pub range_users_inv :
      (fn : String → String → ℕ → S → S × Bool) (us : List (String × Clients))
      → ((u c : String) (m : Clients) (k : ℕ) (s : S)
          → Map.get u us ≡ some m
          → Map.get c m ≡ some k
          → P s
          → P (fn u c k s).0)
      → Map.Distinct us
      → ((u : String) (m : Clients) → Map.get u us ≡ some m → Map.Distinct m)
      → (s : S) → P s
      → P (Group.range_users fn us s)
  unfolding Group.range_users
  range_users_inv fn [] keep d ds s h = h
  range_users_inv fn ((u, m) ∷ us) keep d ds s h =
      let r = Group.range_clients (fn u) m s in
      let here =
        range_clients_inv (fn u) m (λ c k s' at. keep u c m k s' (Map.get_head u m us) at)
          (ds u m (Map.get_head u m us)) s h in
      let rest =
        range_users_inv fn us
          (λ u' c m' k s' at. keep u' c m' k s' (Map.get_tail u u' m m' us d at)) d.1
          (λ u' m' at. ds u' m' (Map.get_tail u u' m m' us d at)) r.0 here in
      elim (Bool-cases r.1) [
        | inl on ↦ rw (on, Group.range_users) rest
        | inr off ↦ rw (off, Group.range_users) here
      ]

  -- RangeUser calls `fn` at connections of that user only.
  pub range_user_inv :
      (n u : String) (fn : String → ℕ → S → S × Bool) (m : Manager)
      → ((c : String) (k : ℕ) (s : S) → Manager.conn_at m n u c ≡ some k → P s → P (fn c k s).0)
      → IsNeat m
      → (s : S) → P s
      → P (Manager.range_user n u fn m s)
  unfolding Manager.range_user Manager.conn_at
  range_user_inv n u fn m keep v s h = elim (Option-cases (Map.get n m.groups)) [
    | inl missing ↦ rw (missing, Manager.range_user) h
    | inr (p, at) ↦
        rw (at, Manager.range_user)
          (unfold Group.range_user in
            range_clients_inv fn (Group.clients_of (m.heap p) u)
              (λ c k s' hc q. keep c k s' (ground arith) q)
              (clients_of-Distinct (m.heap p) u (v.tidy p)) s h)
  ]

  -- RangeGroup calls `fn` at connections of that tenant only.
  pub range_group_inv :
      (n : String) (fn : String → String → ℕ → S → S × Bool) (m : Manager)
      → ((u c : String) (k : ℕ) (s : S) → Manager.conn_at m n u c ≡ some k → P s → P (fn u c k s).0)
      → IsNeat m
      → (s : S) → P s
      → P (Manager.range_group n fn m s)
  unfolding Manager.range_group Manager.conn_at
  range_group_inv n fn m keep v s h = elim (Option-cases (Map.get n m.groups)) [
    | inl missing ↦ rw (missing, Manager.range_group) h
    | inr (p, at) ↦
        rw (at, Manager.range_group)
          (range_users_inv fn (m.heap p).users
            (λ u c cl k s' hu hc q. keep u c k s' (ground arith) q) (v.tidy p).users
            (λ u cl hu. ((v.tidy p).clients u cl hu).0) s h)
  ]
