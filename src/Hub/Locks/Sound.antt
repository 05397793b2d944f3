-- ===== src/Hub/Locks/Sound.antt =====
-- The groups of pkg/pool between the locks of Register and Unregister, the dropped ones included.
use bs_notify_hub.Prelude.Map
use bs_notify_hub.Prelude.{
  ℕ, ◌<◌, ◌≤◌, String, ◌≡◌, false, Option, none, some, arith, ◌∙◌, nat_key, string_key,
  Option-cases, inl, inr, if_induction,
}
use bs_notify_hub.Pool.Channel.{Channels, close, new_channel, set_channel}
use bs_notify_hub.Pool.Group.{Group, empty_group, conn_of, close_old}
use bs_notify_hub.Pool.Group
use bs_notify_hub.Pool.Manager
use bs_notify_hub.Pool.Manager.{Manager, Pool}
use bs_notify_hub.Pool.Connections.{conn_of-register, conn_of-unregister, conn_of-empty}
use bs_notify_hub.Pool.Tidy.{IsTidy, empty_group-IsTidy, register-IsTidy, unregister-IsTidy}
use bs_notify_hub.Pool.Neat.{set_group-IsTidy}
use bs_notify_hub.Pool.Closing.{channels_of-unregister}
use bs_notify_hub.Hub.Locks.{Running, group_register}

-- Every connection of a group, whether the pool still finds the group or not, is open and stands at
-- one key of one group, and a connection that is made later is another one.
pub record IsSound (w : Pool) (next_conn : ℕ) : Type 0 where
  pub tidy : (p : ℕ) → IsTidy (w.heap p)
  pub bounded : (n : String) (p : ℕ) → Map.get n w.groups ≡ some p → p < w.next
  pub unused : (p : ℕ) (u c : String) → w.next ≤ p → conn_of (w.heap p) u c ≡ none
  pub open_ :
      (p : ℕ) (u c : String) (k : ℕ)
      → conn_of (w.heap p) u c ≡ some k
      → (w.channels k).closed ≡ false
  pub older : (p : ℕ) (u c : String) (k : ℕ) → conn_of (w.heap p) u c ≡ some k → k < next_conn
  pub once :
      (p : ℕ) (u c : String) (p' : ℕ) (u' c' : String) (k : ℕ)
      → conn_of (w.heap p) u c ≡ some k
      → conn_of (w.heap p') u' c' ≡ some k
      → (p ≡ p') × (u ≡ u') × (c ≡ c')

created-conn_of :
    (n : String) (w : Pool) (next_conn p : ℕ) (u c : String)
    → IsSound w next_conn
    → conn_of ((Manager.get_or_create_group n w.manager).0.heap p) u c ≡ conn_of (w.heap p) u c
unfolding Manager.get_or_create_group
created-conn_of n w next_conn p u c v =
    ground (arith, v.unused p u c, conn_of-empty empty_group u c)

pub created_next :
    (n : String) (w : Pool) (next_conn : ℕ)
    → IsSound w next_conn
    → let (m, p) = Manager.get_or_create_group n w.manager in (w.next ≤ m.next) × (p < m.next)
unfolding Manager.get_or_create_group
created_next n w next_conn v = elim (Option-cases (Map.get n w.groups)) [
  | inl h ↦ rw (h, Manager.get_or_create_group) (omega arith, omega arith)
  | inr (p, h) ↦ rw (h, Manager.get_or_create_group) (omega arith, v.bounded n p h)
]

created-IsTidy :
    (n : String) (w : Pool) (next_conn : ℕ)
    → IsSound w next_conn
    → (p : ℕ) → IsTidy ((Manager.get_or_create_group n w.manager).0.heap p)
unfolding Manager.get_or_create_group
created-IsTidy n w next_conn v p = elim (Option-cases (Map.get n w.groups)) [
  | inl h ↦
      rw (h, Manager.get_or_create_group)
        (set_group-IsTidy w.next empty_group w.heap empty_group-IsTidy v.tidy p)
  | inr (q, h) ↦ rw (h, Manager.get_or_create_group) (v.tidy p)
]

created_bounded :
    (n : String) (w : Pool) (next_conn : ℕ)
    → IsSound w next_conn
    → (n' : String) (p : ℕ)
    → let m = (Manager.get_or_create_group n w.manager).0 in
      Map.get n' m.groups ≡ some p → p < m.next
unfolding Manager.get_or_create_group
created_bounded n w next_conn v n' p =
    ground (arith, Map.get-put n n' w.next w.groups, v.bounded n' p)

pub get_or_create-IsSound :
    (n : String) (w : Pool) (next_conn : ℕ)
    → IsSound w next_conn
    → IsSound (record w { manager = (Manager.get_or_create_group n w.manager).0 }) next_conn
get_or_create-IsSound n w next_conn v =
    let at = λ (p : ℕ) (u c : String). created-conn_of n w next_conn p u c v in
    let grown = (created_next n w next_conn v).0 in
    record {
      tidy = created-IsTidy n w next_conn v;
      bounded = created_bounded n w next_conn v;
      unused = λ p u c h. at p u c ∙ v.unused p u c (omega (arith, h, grown));
      open_ = λ p u c k h. v.open_ p u c k (cc (at p u c, h));
      older = λ p u c k h. v.older p u c k (cc (at p u c, h));
      once = λ p u c p' u' c' k h h'.
          v.once p u c p' u' c' k (cc (at p u c, h)) (cc (at p' u' c', h'));
    }

pub group_register-IsSound :
    (p : ℕ) (u c : String) (r : Running)
    → p < r.next
    → IsSound r.pool r.next_conn
    → IsSound (group_register p u c r).pool (group_register p u c r).next_conn
unfolding group_register Manager.register_in Group.register conn_of
group_register-IsSound p u c r b v =
    let k = r.next_conn in
    let cs = set_channel k new_channel r.channels in
    let at = λ (u' c' : String). conn_of-register (r.heap p) cs u c k u' c' in
    record {
      tidy = set_group-IsTidy p _ r.heap (register-IsTidy (r.heap p) cs u c k (v.tidy p)) v.tidy;
      bounded = v.bounded;
      unused = λ p' u' c' h. ground (arith, v.unused p' u' c');
      open_ = λ p' u' c' k' h.
          unfold close in
          ground
            (arith, at u' c', v.open_ p' u' c' k', v.older p' u' c' k', v.once p u c p' u' c' k');
      older = λ p' u' c' k' h. ground (arith, at u' c', v.older p' u' c' k');
      once = λ p' u' c' p'' u'' c'' k' h h'. ground (
        arith,
        at u' c',
        at u'' c'',
        v.older p' u' c' k',
        v.older p'' u'' c'' k',
        v.once p' u' c' p'' u'' c'' k',
      );
    }

pub unregister_in-IsSound :
    (p : ℕ) (u c : String) (e : Option ℕ) (w : Pool) (next_conn : ℕ)
    → IsSound w next_conn
    → IsSound (Manager.unregister_in p u c e w).0 next_conn
unfolding Manager.unregister_in
unregister_in-IsSound p u c e w next_conn v =
    let at = λ (u' c' : String). conn_of-unregister (w.heap p) w.channels u c e u' c' in
    record {
      tidy =
          set_group-IsTidy p _ w.heap (unregister-IsTidy (w.heap p) w.channels u c e (v.tidy p))
            v.tidy;
      bounded = v.bounded;
      unused = λ p' u' c' h. ground (arith, at u' c', v.unused p' u' c');
      open_ = λ p' u' c' k' h.
          unfold close in
          ground (
            arith,
            at u' c',
            channels_of-unregister (w.heap p) w.channels u c e,
            v.open_ p' u' c' k',
            v.once p u c p' u' c' k',
          );
      older = λ p' u' c' k' h. ground (arith, at u' c', v.older p' u' c' k');
      once = λ p' u' c' p'' u'' c'' k' h h'.
          ground (arith, at u' c', at u'' c'', v.once p' u' c' p'' u'' c'' k');
    }

pub collect-IsSound :
    (n : String) (w : Pool) (next_conn : ℕ)
    → IsSound w next_conn
    → IsSound (record w { manager = Manager.collect n w.manager }) next_conn
unfolding Manager.collect
collect-IsSound n w next_conn v = elim (Option-cases (Map.get n w.groups)) [
  | inl h ↦ rw (h, Manager.collect) v
  | inr (q, h) ↦
      rw (h, Manager.collect)
        (if_induction (λ (m : Manager). IsSound (record w { manager = m }) next_conn)
          (Group.is_empty (w.heap q)) _ w.manager
          (record {
            tidy = v.tidy;
            bounded = λ n' p. ground (arith, Map.get-remove n n' w.groups, v.bounded n' p);
            unused = v.unused;
            open_ = v.open_;
            older = v.older;
            once = v.once;
          })
          v)
]

-- A walk of the dispatcher keeps the channels that were open.
pub delivered-IsSound :
    (w : Pool) (next_conn : ℕ) (cs : Channels)
    → IsSound w next_conn
    → ((k : ℕ) → (cs k).closed ≡ (w.channels k).closed)
    → IsSound (record w { channels = cs }) next_conn
delivered-IsSound w next_conn cs v kept = record {
  tidy = v.tidy;
  bounded = v.bounded;
  unused = v.unused;
  open_ = λ p u c k h. kept k ∙ v.open_ p u c k h;
  older = v.older;
  once = v.once;
}
