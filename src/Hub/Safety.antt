-- ===== src/Hub/Safety.antt =====
-- Whole calls of Register and Unregister in internal/service/hub.go: which channels are closed.
use bs_notify_hub.Prelude.Map
use bs_notify_hub.Prelude.{ℕ, ◌<◌, String, ◌≡◌, false, Option, some, arith}
use bs_notify_hub.Pool.Channel.{Channels, InternalMsg, close, write, new_channel, set_channel}
use bs_notify_hub.Pool.Manager
use bs_notify_hub.Pool.Manager.{Manager, Pool}
use bs_notify_hub.Pool.Links.{
  IsLinked, new_manager-IsLinked, register-IsLinked, unregister-IsLinked,
}
use bs_notify_hub.Pool.Lookup.{conn_at-register, conn_at-unregister}
use bs_notify_hub.Pool.Neat.{IsNeat, new_manager-IsNeat, register-IsNeat, unregister-IsNeat}
use bs_notify_hub.Pool.Closing.{channels-register, channels-unregister}
use bs_notify_hub.Dispatch.Dispatcher.{Delivery, deliver}
use bs_notify_hub.Hub.{Hub, new_hub, register, unregister}

-- Every connection of the pool is open, stands at one key, and is older than the next one.
pub record IsLive (h : Hub) : Type 0 where
  pub linked : IsLinked h.manager
  pub neat : IsNeat h.manager
  pub open_ :
      (n u c : String) (k : ℕ)
      → Manager.conn_at h.manager n u c ≡ some k
      → (h.channels k).closed ≡ false
  pub older : (n u c : String) (k : ℕ) → Manager.conn_at h.manager n u c ≡ some k → k < h.next_conn
  pub once :
      (n u c n' u' c' : String) (k : ℕ)
      → Manager.conn_at h.manager n u c ≡ some k
      → Manager.conn_at h.manager n' u' c' ≡ some k
      → (n ≡ n') × (u ≡ u') × (c ≡ c')

pub new_hub-IsLive : IsLive new_hub
unfolding new_hub Manager.conn_at Manager.new_manager Map.get
new_hub-IsLive = record {
  linked = new_manager-IsLinked;
  neat = new_manager-IsNeat;
  open_ = λ n u c k at. cc;
  older = λ n u c k at. cc;
  once = λ n u c n' u' c' k at. cc;
}

pub register-IsLive : (n u c : String) (h : Hub) → IsLive h → IsLive (register n u c h).0
unfolding register
register-IsLive n u c h v =
    let k = h.next_conn in
    let w = record h.pool { channels = set_channel k new_channel h.channels } in
    record {
      linked = register-IsLinked n u c k w v.linked;
      neat = register-IsNeat n u c k w v.neat;
      open_ = λ n' u' c' k' at.
          unfold close in
          ground (
            arith,
            conn_at-register n u c k w n' u' c' v.linked,
            channels-register n u c k w v.linked,
            v.open_ n' u' c' k',
            v.older n' u' c' k',
            v.once n u c n' u' c' k',
          );
      older = λ n' u' c' k' at.
          ground (arith, conn_at-register n u c k w n' u' c' v.linked, v.older n' u' c' k');
      once = λ n' u' c' n'' u'' c'' k' at at'. ground (
        arith,
        conn_at-register n u c k w n' u' c' v.linked,
        conn_at-register n u c k w n'' u'' c'' v.linked,
        v.older n' u' c' k',
        v.older n'' u'' c'' k',
        v.once n' u' c' n'' u'' c'' k',
      );
    }

unregister-IsLive : (n u c : String) (k : ℕ) (h : Hub) → IsLive h → IsLive (unregister n u c k h)
unfolding unregister
unregister-IsLive n u c k h v =
    let e = some k in
    record {
      linked = unregister-IsLinked n u c e h.pool v.linked;
      neat = unregister-IsNeat n u c e h.pool v.linked v.neat;
      open_ = λ n' u' c' k' at.
          unfold close in
          ground (
            arith,
            conn_at-unregister n u c e h.pool n' u' c' v.linked,
            channels-unregister n u c e h.pool,
            v.open_ n' u' c' k',
            v.once n u c n' u' c' k',
          );
      older = λ n' u' c' k' at.
          ground (arith, conn_at-unregister n u c e h.pool n' u' c' v.linked, v.older n' u' c' k');
      once = λ n' u' c' n'' u'' c'' k' at at'. ground (
        arith,
        conn_at-unregister n u c e h.pool n' u' c' v.linked,
        conn_at-unregister n u c e h.pool n'' u'' c'' v.linked,
        v.once n' u' c' n'' u'' c'' k',
      );
    }

module _ (decode : String → Option InternalMsg) where
  -- What a delivery keeps: nothing crashed, and the channels that were open are open.
  abbrev pub IsSafe : Channels → Delivery → Type 0
  IsSafe cs d = (d.crashed ≡ false) × ((j : ℕ) → (d.channels j).closed ≡ (cs j).closed)

  pub deliver-IsSafe :
      (payload : String) (k : ℕ) (cs : Channels) (d : Delivery)
      → (cs k).closed ≡ false
      → IsSafe cs d
      → IsSafe cs (deliver decode payload k d).0
  unfolding deliver write
  deliver-IsSafe payload k cs d open_ s = (ground (arith, s.1 k), λ j. ground (arith, s.1 k, s.1 j))
