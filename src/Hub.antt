-- ===== src/Hub.antt =====
-- internal/service/hub.go: the connections of the SSE subscribers. Register and Unregister here are
-- whole calls, with no other between their locks; Hub/Locks takes them apart.
pub mod Safety
pub mod Locks
pub mod Broadcast
pub mod Stream
pub mod Tests
use bs_notify_hub.Prelude.{ℕ, suc, String, some}
use bs_notify_hub.Pool.Channel.{new_channel, set_channel}
use bs_notify_hub.Pool.Manager.{Pool, new_manager}
use bs_notify_hub.Dispatch.Dispatcher.{join, leave}

-- The dispatcher's pool, and the next free address for a connection.
pub record Hub : Type 0 where
  pub pool : Pool
  pub open pool use *
  pub next_conn : ℕ

unfoldable pub new_hub : Hub
new_hub = record {
  pool = record { manager = new_manager; channels = λ k. new_channel };
  next_conn = 0;
}

-- Register: a new connection, which the pool takes in.
unfoldable pub register : String → String → String → Hub → Hub × ℕ
unfolding join
register tenant user conn_id h =
    let k = h.next_conn in
    let fresh = record h.pool { channels = set_channel k new_channel h.channels } in
    (record { pool = join tenant user conn_id k fresh; next_conn = suc k }, k)

unfoldable pub unregister : String → String → String → ℕ → Hub → Hub
unfolding leave
unregister tenant user conn_id conn h = record h {
  pool = leave tenant user conn_id (some conn) h.pool;
}
