-- ===== src/Hub/Stream/Order.antt =====
-- What a subscriber of internal/service/hub.go is sent, and in which order.
use bs_notify_hub.Prelude.{
  ℕ, ◌≡◌, refl, ap, sym, ◌∙◌, String, Bool, true, false, Option, none, some, List, [], ◌∷◌, ◌++◌,
  length, same_iff, nat_key, arith, if_cases_at, Bool-cases, ◌⊎◌, inl, inr, append-nil,
}
use mathlib.Core.List.{append_assoc}
use bs_notify_hub.Pool.Channel.{
  Channels, InternalMsg, WriteResult, written, bad_json, raw_message, set_channel, write, try_send,
  close,
}
use bs_notify_hub.Hub.Stream.{
  SseEvent, message_event, heartbeat_event, Signal, writes, closes, context_done, receives, ticks,
  Stream, write_event, write_data, receive, step, run,
}

-- The events that are no heartbeats.
abbrev pub notices : List SseEvent → List SseEvent
notices [] = []
notices (message_event kind text ∷ es) = message_event kind text ∷ notices es
notices (heartbeat_event t ∷ es) = notices es

notices-append : (xs ys : List SseEvent) → notices (xs ++ ys) ≡ notices xs ++ notices ys
notices-append [] ys = refl
notices-append (message_event kind text ∷ xs) ys =
    ap (λ l. message_event kind text ∷ l) (notices-append xs ys)
notices-append (heartbeat_event t ∷ xs) ys = notices-append xs ys

module _ (decode : String → Option InternalMsg) (marshal : String → Option String)
    (write_fails : ℕ → Bool) (conn : ℕ) where
  abbrev event_of : InternalMsg → Option String → List SseEvent
  event_of msg none = []
  event_of msg (some text) = message_event msg.kind text ∷ []

  -- The events of messages, but for those that cannot be marshalled.
  abbrev pub events_of : List InternalMsg → List SseEvent
  events_of [] = []
  events_of (msg ∷ msgs) = event_of msg (marshal msg.content) ++ events_of msgs

  events_of-append :
      (xs ys : List InternalMsg) → events_of (xs ++ ys) ≡ events_of xs ++ events_of ys
  events_of-append [] ys = refl
  events_of-append (x ∷ xs) ys =
      ap (λ l. event_of x (marshal x.content) ++ l) (events_of-append xs ys)
      ∙ sym (append_assoc (event_of x (marshal x.content)) (events_of xs) (events_of ys))

  -- The message that the channel takes in with a signal.
  abbrev taken_in : Option InternalMsg → WriteResult → List InternalMsg
  taken_in (some msg) written = msg ∷ []
  taken_in _ _ = []

  abbrev pub takes : Signal → Stream → List InternalMsg
  takes (writes payload) s =
      taken_in (decode payload) (write decode conn (raw_message payload) s.channels).1
  takes _ s = []

  -- All messages that the channel takes in, in their order.
  abbrev pub accepted : List Signal → Stream → List InternalMsg
  accepted [] s = []
  accepted (e ∷ es) s = takes e s ++ accepted es (step decode marshal write_fails conn e s)

  -- What was taken in is what was sent, at most one message that was lost in the write that ended
  -- the loop, and what waits.
  abbrev Accounts : List SseEvent → Stream → Type 0
  Accounts all s =
      (lost : List SseEvent) × (all ≡ notices s.out ++ (lost ++ events_of (s.channels conn).queue))
      × (s.ended ≡ false → lost ≡ [])

  append_middle :
      (xs lost queue more : List SseEvent)
      → (xs ++ (lost ++ queue)) ++ more ≡ xs ++ (lost ++ (queue ++ more))
  append_middle xs lost queue more = simp append_assoc

  try_send-taken_in :
      (msg : InternalMsg) (cs : Channels)
      → ((try_send conn msg cs).0 conn).queue
        ≡ (cs conn).queue ++ taken_in (some msg) (try_send conn msg cs).1
  unfolding try_send
  try_send-taken_in msg cs = ground (arith, same_iff conn conn, append-nil (cs conn).queue)

  write-taken_in :
      (payload : String) (cs : Channels)
      → ((write decode conn (raw_message payload) cs).0 conn).queue
        ≡ (cs conn).queue
          ++ taken_in (decode payload) (write decode conn (raw_message payload) cs).1
  unfolding write
  write-taken_in payload cs = by_message (decode payload)
    where
      by_message :
          (o : Option InternalMsg)
          → let r : Channels × WriteResult = elim o [
            | none ↦ (cs, bad_json)
            | some msg ↦ try_send conn msg cs
          ] in
            (r.0 conn).queue ≡ (cs conn).queue ++ taken_in o r.1
      by_message none = sym (append-nil (cs conn).queue)
      by_message (some msg) = try_send-taken_in msg cs

  queue-Accounts :
      (taken : List InternalMsg) (cs : Channels) (all : List SseEvent) (s : Stream)
      → (cs conn).queue ≡ (s.channels conn).queue ++ taken
      → Accounts all s
      → Accounts (all ++ events_of taken) (record s { channels = cs })
  queue-Accounts taken cs all s q h = (
    h.0,
    ap (λ l. l ++ events_of taken) h.1
        ∙ append_middle (notices s.out) h.0 (events_of (s.channels conn).queue) (events_of taken)
        ∙ ap (λ l. notices s.out ++ (h.0 ++ l))
            (sym (ap events_of q ∙ events_of-append (s.channels conn).queue taken)),
    h.2,
  )

  writes-Accounts :
      (payload : String) (all : List SseEvent) (s : Stream)
      → Accounts all s
      → Accounts
          (all ++ events_of (takes (writes payload) s))
          (step decode marshal write_fails conn (writes payload) s)
  unfolding step
  writes-Accounts payload all s h =
      queue-Accounts (takes (writes payload) s)
        (write decode conn (raw_message payload) s.channels).0 all s
        (write-taken_in payload s.channels) h

  closes-Accounts :
      (all : List SseEvent) (s : Stream)
      → Accounts all s
      → Accounts (all ++ []) (record s { channels = close conn s.channels })
  unfolding close
  closes-Accounts all s h =
      queue-Accounts [] (close conn s.channels) all s
        (ground (arith, same_iff conn conn, append-nil (s.channels conn).queue)) h

  -- WriteEvent in a loop that has not lost anything.
  event-Accounts :
      (e : SseEvent) (all : List SseEvent) (s : Stream)
      → all ≡ notices s.out ++ (notices (e ∷ []) ++ events_of (s.channels conn).queue)
      → Accounts all (write_event decode marshal write_fails conn e s)
  unfolding write_event
  event-Accounts e all s h =
      if_cases_at (Accounts all) (write_fails (length s.out)) _ _
        (λ f. (notices (e ∷ []), h, λ x. cc))
        (λ f. (
          [],
          h
              ∙ sym (append_assoc (notices s.out) (notices (e ∷ [])) _)
              ∙ ap (λ l. l ++ events_of (s.channels conn).queue)
                  (sym (notices-append s.out (e ∷ []))),
          λ x. refl,
        ))

  queue-set_channel :
      (rest : List InternalMsg) (cs : Channels)
      → (set_channel conn (record (cs conn) { queue = rest }) cs conn).queue ≡ rest
  queue-set_channel rest cs = ground (arith, same_iff conn conn)

  receive-Accounts :
      (q : List InternalMsg) (c : Bool) (all : List SseEvent) (s : Stream)
      → (s.channels conn).queue ≡ q
      → all ≡ notices s.out ++ events_of q
      → s.ended ≡ false
      → Accounts all (receive decode marshal write_fails conn q c s)
  receive-Accounts [] true all s e h n =
      ([], h ∙ ap (λ l. notices s.out ++ events_of l) (sym e), λ x. refl)
  receive-Accounts [] false all s e h n =
      ([], h ∙ ap (λ l. notices s.out ++ events_of l) (sym e), λ x. refl)
  receive-Accounts (msg ∷ rest) c all s e h n = by_text (marshal msg.content) h
    where
      popped : Stream
      popped = record s {
        channels = set_channel conn (record (s.channels conn) { queue = rest }) s.channels;
      }

      by_text :
          (o : Option String)
          → all ≡ notices s.out ++ (event_of msg o ++ events_of rest)
          → Accounts all (write_data decode marshal write_fails conn msg.kind o popped)
      by_text none k = (
        [],
        k ∙ ap (λ l. notices s.out ++ events_of l) (sym (queue-set_channel rest s.channels)),
        λ x. refl,
      )
      by_text (some text) k = event-Accounts (message_event msg.kind text) all popped (
          k
          ∙ ap (λ l. notices s.out ++ (message_event msg.kind text ∷ events_of l))
              (sym (queue-set_channel rest s.channels)))

  step-Accounts :
      (e : Signal) (all : List SseEvent) (s : Stream)
      → Accounts all s
      → Accounts (all ++ events_of (takes e s)) (step decode marshal write_fails conn e s)
  unfolding step
  step-Accounts (writes payload) all s h = writes-Accounts payload all s h
  step-Accounts closes all s h = closes-Accounts all s h
  step-Accounts context_done all s h =
      if_cases_at (Accounts (all ++ [])) s.ended s _ (λ e. (h.0, append-nil all ∙ h.1, h.2))
        (λ e. (h.0, append-nil all ∙ h.1, λ x. cc))
  step-Accounts receives all s h =
      if_cases_at (Accounts (all ++ [])) s.ended s _ (λ e. (h.0, append-nil all ∙ h.1, h.2))
        (λ e.
          receive-Accounts (s.channels conn).queue (s.channels conn).closed (all ++ []) s refl
            (append-nil all ∙ h.1 ∙ rw (h.2 e)) e)
  step-Accounts (ticks t) all s h =
      if_cases_at (Accounts (all ++ [])) s.ended s _ (λ e. (h.0, append-nil all ∙ h.1, h.2))
        (λ e. event-Accounts (heartbeat_event t) (all ++ []) s (append-nil all ∙ h.1 ∙ rw (h.2 e)))

  run-Accounts :
      (es : List Signal) (all : List SseEvent) (s : Stream)
      → Accounts all s
      → Accounts (all ++ events_of (accepted es s)) (run decode marshal write_fails conn es s)
  unfolding run
  run-Accounts [] all s h = (h.0, append-nil all ∙ h.1, h.2)
  run-Accounts (e ∷ es) all s h =
      let k = run-Accounts es (all ++ events_of (takes e s)) _ (step-Accounts e all s h) in
      (
        k.0,
        ap (λ l. all ++ l) (events_of-append (takes e s) _)
            ∙ sym (append_assoc all (events_of (takes e s)) _)
            ∙ k.1,
        k.2,
      )

  -- A subscription that starts on an empty channel.
  abbrev pub fresh_stream : Channels → Stream
  fresh_stream cs = record { channels = cs; out = []; ended = false }

  -- A subscriber is sent the messages that its channel took in, in the order in which they were
  -- taken in and each once, but for those that cannot be marshalled: in every interleaving of the
  -- writers with the loop, the notices that were sent are a beginning of that sequence, and as
  -- long as the loop runs what is left of it is what waits in the channel.
  pub run-order :
      (es : List Signal) (cs : Channels)
      → (cs conn).queue ≡ []
      → let s = run decode marshal write_fails conn es (fresh_stream cs) in
        (rest : List SseEvent) × (events_of (accepted es (fresh_stream cs)) ≡ notices s.out ++ rest)
        × ((s.ended ≡ true) ⊎ (rest ≡ events_of (s.channels conn).queue))
  run-order es cs e =
      let k = run-Accounts es [] (fresh_stream cs) ([], sym (ap events_of e), λ x. refl) in
      let s = run decode marshal write_fails conn es (fresh_stream cs) in
      (
        k.0 ++ events_of (s.channels conn).queue,
        k.1,
        elim (Bool-cases s.ended) [
          | inl e ↦ inl e
          | inr n ↦ inr (ap (λ l. l ++ events_of (s.channels conn).queue) (k.2 n))
        ],
      )
