-- ===== src/Hub/Locks/Runs.antt =====
-- Closed channels in any interleaving of the calls of internal/service/hub.go and
-- internal/dispatch/dispatcher.go on pkg/pool.
use bs_notify_hub.Prelude.Map
use bs_notify_hub.Prelude.{
  ℕ, ◌≤◌, String, ◌≡◌, refl, false, Option, none, some, List, [], ◌∷◌, arith, nat_key, string_key,
  if_induction,
}
use bs_notify_hub.Pool.Channel.{InternalMsg}
use bs_notify_hub.Pool.Group.{Group, empty_group, conn_of, close_old}
use bs_notify_hub.Pool.Group
use bs_notify_hub.Pool.Manager
use bs_notify_hub.Pool.Manager.{Manager, Pool}
use bs_notify_hub.Pool.Tidy.{empty_group-IsTidy, clients_of-Distinct}
use bs_notify_hub.Pool.Range.{range_clients_inv, range_users_inv}
use bs_notify_hub.Dispatch.Message.{
  Message, TargetType, target_single, target_multiple, target_broadcast,
}
use bs_notify_hub.Dispatch.Dispatcher.{Delivery, deliver}
use bs_notify_hub.Hub.{new_hub}
use bs_notify_hub.Hub.Safety.{IsSafe, deliver-IsSafe}
use bs_notify_hub.Hub.Locks.Sound.{
  IsSound, created_next, get_or_create-IsSound, group_register-IsSound, unregister_in-IsSound,
  collect-IsSound, delivered-IsSound,
}
use bs_notify_hub.Hub.Locks.Waiting.{
  IsHandedOut, AllHandedOut, handed_out_more, handed_out_append, TakenOut, taken_out,
}
use bs_notify_hub.Hub.Locks
use bs_notify_hub.Hub.Locks.{
  Pending, registering, unregistering, collecting, sending, ranging, ranging_all, Running, started,
  Event, subscribes, leaves, handles, goes_on, receives, received, later, group_register, take_out,
  resume, resume_taken, process_begins, delivered_to, delivery_of, step, run,
}

pub record IsRunning (r : Running) : Type 0 where
  pub sound : IsSound r.pool r.next_conn
  pub handed_out : AllHandedOut r.next r.pending
  pub no_panic : r.crashed ≡ false

later-IsRunning :
    (x : Pending) (r : Running) → IsRunning r → IsHandedOut r.next x → IsRunning (later x r)
later-IsRunning x r v h = record {
  sound = v.sound;
  handed_out = handed_out_append r.next r.pending x v.handed_out h;
  no_panic = v.no_panic;
}

with_pool-IsRunning :
    (w : Pool) (r : Running)
    → IsRunning r
    → IsSound w r.next_conn
    → r.next ≤ w.next
    → IsRunning (Locks.with_pool w r)
with_pool-IsRunning w r v s h = record {
  sound = s;
  handed_out = handed_out_more r.next w.next r.pending h v.handed_out;
  no_panic = v.no_panic;
}

collect_next : (n : String) (m : Manager) → (Manager.collect n m).next ≡ m.next
unfolding Manager.collect
collect_next n m = ground arith

with_group-IsRunning :
    (f : ℕ → Pending) (o : Option ℕ) (r : Running)
    → IsRunning r
    → ((p : ℕ) → IsHandedOut r.next (f p))
    → IsRunning (Locks.with_group f o r)
with_group-IsRunning f none r v h = v
with_group-IsRunning f (some p) r v h = later-IsRunning (f p) r v (h p)

module _ (decode : String → Option InternalMsg) where
  delivered_to-IsRunning :
      (d : Delivery) (r : Running)
      → IsRunning r
      → IsSafe decode r.channels d
      → IsRunning (delivered_to d r)
  delivered_to-IsRunning d r v (safe, kept) = record {
    sound = delivered-IsSound r.pool r.next_conn d.channels v.sound kept;
    handed_out = v.handed_out;
    no_panic = safe;
  }

  range_user-IsSafe :
      (p : ℕ) (user payload : String) (r : Running)
      → IsRunning r
      → IsSafe decode r.channels
          (Group.range_user user (λ c k s. deliver decode payload k s) (r.heap p) (delivery_of r))
  unfolding Group.range_user
  range_user-IsSafe p user payload r v =
      range_clients_inv (IsSafe decode r.channels) (λ c k s. deliver decode payload k s)
        (Group.clients_of (r.heap p) user)
        (λ c k s at q.
          deliver-IsSafe decode payload k r.channels s
            (v.sound.open_ p user c k (unfold conn_of in at)) q)
        (clients_of-Distinct (r.heap p) user (v.sound.tidy p)) (delivery_of r)
        (v.no_panic, λ j. refl)

  range_users-IsSafe :
      (p : ℕ) (payload : String) (r : Running)
      → IsRunning r
      → IsSafe decode r.channels (
          Group.range_users
            (λ u c k s. deliver decode payload k s)
            (r.heap p).users
            (delivery_of r))
  range_users-IsSafe p payload r v =
      range_users_inv (IsSafe decode r.channels) (λ u c k s. deliver decode payload k s)
        (r.heap p).users
        (λ u c m k s hu hc q.
          deliver-IsSafe decode payload k r.channels s
            (v.sound.open_ p u c k (unfold conn_of in ground (arith, hu, hc))) q)
        (v.sound.tidy p).users (λ u m hu. ((v.sound.tidy p).clients u m hu).0) (delivery_of r)
        (v.no_panic, λ j. refl)

  resume-IsRunning :
      (x : Pending) (r : Running)
      → IsHandedOut r.next x
      → IsRunning r
      → IsRunning (resume decode x r)
  unfolding resume Manager.register_in
  resume-IsRunning (registering p u c) r h v = record {
    sound = group_register-IsSound p u c r h v.sound;
    handed_out = v.handed_out;
    no_panic = v.no_panic;
  }
  resume-IsRunning (unregistering p n u c k) r h v =
      let (w, empty) = Manager.unregister_in p u c (some k) r.pool in
      let left : IsRunning (Locks.with_pool w r) =
        with_pool-IsRunning w r v (unregister_in-IsSound p u c (some k) r.pool r.next_conn v.sound)
          (unfold Manager.unregister_in in omega arith) in
      if_induction IsRunning empty (later (collecting n) (Locks.with_pool w r))
        (Locks.with_pool w r) (later-IsRunning (collecting n) (Locks.with_pool w r) left tt) left
  resume-IsRunning (collecting n) r h v =
      with_pool-IsRunning (record r.pool { manager = Manager.collect n r.manager }) r v
        (collect-IsSound n r.pool r.next_conn v.sound) (omega (arith, collect_next n r.manager))
  resume-IsRunning (sending n payload []) r h v = v
  resume-IsRunning (sending n payload (u ∷ us)) r h v = by_group (Manager.get_group n r.manager)
    where
      by_group :
          (o : Option ℕ)
          → IsRunning (elim o [
            | none ↦ later (sending n payload us) r
            | some p ↦ later (ranging p n u payload us) r
          ])
      by_group none = later-IsRunning (sending n payload us) r v tt
      by_group (some p) = later-IsRunning (ranging p n u payload us) r v tt
  resume-IsRunning (ranging p n u payload us) r h v =
      later-IsRunning (sending n payload us) _
        (delivered_to-IsRunning _ r v (range_user-IsSafe p u payload r v)) tt
  resume-IsRunning (ranging_all p payload) r h v =
      delivered_to-IsRunning _ r v (range_users-IsSafe p payload r v)

  taken-IsRunning :
      (o : Option (Pending × List Pending)) (r : Running)
      → IsRunning r
      → TakenOut r.next o
      → IsRunning (resume_taken decode o r)
  taken-IsRunning none r v t = v
  taken-IsRunning (some (x, rest)) r v (h, a) =
      resume-IsRunning x (record r { pending = rest }) h
        (record { sound = v.sound; handed_out = a; no_panic = v.no_panic })

  begins-IsRunning :
      (t : TargetType) (msg : Message) (r : Running)
      → IsRunning r
      → IsRunning (process_begins t msg r)
  begins-IsRunning target_single msg r v = later-IsRunning (sending _ _ _) r v tt
  begins-IsRunning target_multiple msg r v = later-IsRunning (sending _ _ _) r v tt
  begins-IsRunning target_broadcast msg r v =
      with_group-IsRunning (λ p. ranging_all p msg.payload)
        (Manager.get_group msg.tenant_id r.manager) r v (λ p. tt)

  step-IsRunning : (e : Event) (r : Running) → IsRunning r → IsRunning (step decode e r)
  unfolding step
  step-IsRunning (subscribes n u c) r v =
      let (m, p) = Manager.get_or_create_group n r.manager in
      let (grown, out) = created_next n r.pool r.next_conn v.sound in
      let w = record r.pool { manager = m } in
      later-IsRunning (registering p u c) (Locks.with_pool w r)
        (with_pool-IsRunning w r v (get_or_create-IsSound n r.pool r.next_conn v.sound) grown) out
  step-IsRunning (leaves n u c k) r v =
      with_group-IsRunning (λ p. unregistering p n u c k) (Manager.get_group n r.manager) r v
        (λ p. tt)
  step-IsRunning (handles msg) r v = begins-IsRunning msg.target_type msg r v
  step-IsRunning (goes_on i) r v =
      taken-IsRunning (take_out i r.pending) r v (taken_out r.next i r.pending v.handed_out)
  step-IsRunning (receives k) r v =
      let cs = (received k r).channels in
      with_pool-IsRunning (record r.pool { channels = cs }) r v
        (delivered-IsSound r.pool r.next_conn cs v.sound (λ j. ground arith)) (omega arith)

  run-IsRunning : (es : List Event) (r : Running) → IsRunning r → IsRunning (run decode es r)
  unfolding run
  run-IsRunning [] r v = v
  run-IsRunning (e ∷ es) r v =
      if_induction IsRunning r.crashed r (run decode es (step decode e r)) v
        (run-IsRunning es (step decode e r) (step-IsRunning e r v))

  started-IsRunning : IsRunning started
  unfolding started new_hub Manager.new_manager Map.get conn_of
  started-IsRunning = record {
    sound = record {
      tidy = λ p. empty_group-IsTidy;
      bounded = λ n p h. cc;
      unused = λ p u c h. refl;
      open_ = λ p u c k h. cc;
      older = λ p u c k h. cc;
      once = λ p u c p' u' c' k h h'. cc;
    };
    handed_out = tt;
    no_panic = refl;
  }

  -- Subscribers come and go, also under a key that is taken or with a connection that has been
  -- replaced, and messages are handled and received, each of these calls one lock at a time, with
  -- the locks of all calls in any order. Then no write meets a closed channel; and every connection
  -- that stands in a group, also in one that the pool has dropped meanwhile, is open, and stands at
  -- one key of one group.
  pub run-IsSound :
      (es : List Event)
      → let r = run decode es started in IsSound r.pool r.next_conn × (r.crashed ≡ false)
  run-IsSound es = let v = run-IsRunning es started started-IsRunning in (v.sound, v.no_panic)
