-- ===== src/Hub/Locks.antt =====
-- internal/service/hub.go and internal/dispatch/dispatcher.go on pkg/pool, one lock at a time. A call
-- that takes several locks one after another waits in `pending` between them, where any other call
-- may come first. The goroutines are events in any order.
pub mod Sound
pub mod Waiting
pub mod Runs
use bs_notify_hub.Prelude.{
  ℕ, zero, suc, String, Bool, true, false, Option, none, some, List, [], ◌∷◌, ◌++◌, if◌then◌else◌,
}
use bs_notify_hub.Pool.Channel.{InternalMsg, new_channel, set_channel}
use bs_notify_hub.Pool.Group
use bs_notify_hub.Pool.Manager
use bs_notify_hub.Pool.Manager.{Pool}
use bs_notify_hub.Dispatch.Message.{
  Message, TargetType, target_single, target_multiple, target_broadcast,
}
use bs_notify_hub.Dispatch.Dispatcher.{Delivery, deliver}
use bs_notify_hub.Hub.{Hub, new_hub}

-- Where a call waits for its next lock, with the group that it holds.
pub data Pending : Type 0 where
  -- Register, before g.Register
  registering : ℕ → String → String → Pending
  -- Unregister, before g.Unregister
  unregistering : ℕ → String → String → String → ℕ → Pending
  -- Unregister of an empty group, before the global lock
  collecting : String → Pending
  -- process, before RangeUser of the next user
  sending : String → String → List String → Pending
  -- RangeUser, before the lock of the group, with the users that follow
  ranging : ℕ → String → String → String → List String → Pending
  -- RangeGroup, before the lock of the group
  ranging_all : ℕ → String → Pending

pub record Running : Type 0 where
  pub hub : Hub
  pub open hub use *
  pub pending : List Pending
  pub crashed : Bool

unfoldable pub started : Running
started = record { hub = new_hub; pending = []; crashed = false }

-- A call of Join, of Leave or of process begins, the pending call of that number goes on, or the
-- loop of a subscriber receives from its channel. The removal of an empty group is one event: a
-- g.Register between its two steps ends as one after them.
pub data Event : Type 0 where
  subscribes : String → String → String → Event
  leaves : String → String → String → ℕ → Event
  handles : Message → Event
  goes_on receives : ℕ → Event

abbrev pub later : Pending → Running → Running
later x r = record r { pending = r.pending ++ x ∷ [] }

abbrev pub with_pool : Pool → Running → Running
with_pool p r = record r { hub = record r.hub { pool = p } }

abbrev pub with_group : (ℕ → Pending) → Option ℕ → Running → Running
with_group f none r = r
with_group f (some p) r = later (f p) r

-- The call of a number, and the others.
unfoldable pub take_out : ℕ → List Pending → Option (Pending × List Pending)
take_out i [] = none
take_out zero (x ∷ xs) = some (x, xs)
take_out (suc i) (x ∷ xs) = elim (take_out i xs) [ none ↦ none | some r ↦ some (r.0, x ∷ r.1) ]

-- g.Register: the connection that the goroutine has made becomes known to others here, and gets its
-- number here.
unfoldable pub group_register : ℕ → String → String → Running → Running
group_register p user conn_id r =
    let k = r.next_conn in
    let fresh = record r.pool { channels = set_channel k new_channel r.channels } in
    record r {
      hub = record { pool = Manager.register_in p user conn_id k fresh; next_conn = suc k };
    }

abbrev pub then_collect : String → Pool × Bool → Running → Running
then_collect tenant (w, empty) r =
    if empty then later (collecting tenant) (with_pool w r) else with_pool w r

abbrev pub delivered_to : Delivery → Running → Running
delivered_to d r = record (with_pool (record r.pool { channels = d.channels }) r) {
  crashed = d.crashed;
}

abbrev pub delivery_of : Running → Delivery
delivery_of r = record { channels = r.channels; crashed = r.crashed }

-- The switch of process.
abbrev pub process_begins : TargetType → Message → Running → Running
process_begins target_single msg r = later (sending msg.tenant_id msg.payload msg.target_ids) r
process_begins target_multiple msg r = later (sending msg.tenant_id msg.payload msg.target_ids) r
process_begins target_broadcast msg r =
    with_group (λ p. ranging_all p msg.payload) (Manager.get_group msg.tenant_id r.manager) r

abbrev pub without_first : List InternalMsg → List InternalMsg
without_first [] = []
without_first (m ∷ ms) = ms

abbrev pub received : ℕ → Running → Running
received k r =
    let ch = record (r.channels k) { queue = without_first (r.channels k).queue } in
    with_pool (record r.pool { channels = set_channel k ch r.channels }) r

module _ (decode : String → Option InternalMsg) where
  -- A pending call takes its next lock.
  unfoldable pub resume : Pending → Running → Running
  unfolding group_register
  resume (registering p user conn_id) r = group_register p user conn_id r
  resume (unregistering p tenant user conn_id conn) r =
      then_collect tenant (Manager.unregister_in p user conn_id (some conn) r.pool) r
  resume (collecting tenant) r =
      with_pool (record r.pool { manager = Manager.collect tenant r.manager }) r
  resume (sending tenant payload []) r = r
  resume (sending tenant payload (user ∷ users)) r = elim (Manager.get_group tenant r.manager) [
    | none ↦ later (sending tenant payload users) r
    | some p ↦ later (ranging p tenant user payload users) r
  ]
  resume (ranging p tenant user payload users) r = later (sending tenant payload users) (
      delivered_to
        (Group.range_user user (λ c k s. deliver decode payload k s) (r.heap p) (delivery_of r)) r)
  resume (ranging_all p payload) r =
      delivered_to
        (Group.range_users (λ u c k s. deliver decode payload k s) (r.heap p).users (delivery_of r))
        r

  abbrev pub resume_taken : Option (Pending × List Pending) → Running → Running
  resume_taken none r = r
  resume_taken (some (x, rest)) r = resume x (record r { pending = rest })

  unfoldable pub step : Event → Running → Running
  unfolding resume take_out
  step (subscribes tenant user conn_id) r =
      let (m, p) = Manager.get_or_create_group tenant r.manager in
      later (registering p user conn_id) (with_pool (record r.pool { manager = m }) r)
  step (leaves tenant user conn_id conn) r =
      with_group (λ p. unregistering p tenant user conn_id conn)
        (Manager.get_group tenant r.manager) r
  step (handles msg) r = process_begins msg.target_type msg r
  step (goes_on i) r = resume_taken (take_out i r.pending) r
  step (receives k) r = received k r

  -- A panic stops the process.
  unfoldable pub run : List Event → Running → Running
  unfolding step
  run [] r = r
  run (e ∷ es) r = let rest = run es (step e r) in if r.crashed then r else rest
