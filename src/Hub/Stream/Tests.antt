-- ===== src/Hub/Stream/Tests.antt =====
-- A subscription of internal/service/hub.go whose third write fails.
use bs_notify_hub.Prelude.{
  ℕ, ◌≡◌, refl, String, Bool, true, ◌⊎◌, Option, some, List, [], ◌∷◌, ◌++◌, ◌==◌, ℕ_discrete,
}
use bs_notify_hub.Pool.Channel.{Channels, InternalMsg, notify_msg, new_channel}
use bs_notify_hub.Hub.Stream.{
  SseEvent, message_event, heartbeat_event, Signal, writes, closes, receives, ticks, run,
}
use bs_notify_hub.Hub.Stream.Order.{notices, events_of, accepted, fresh_stream, run-order}

abbrev as_notice : String → Option InternalMsg
as_notice s = some (record { kind = notify_msg; content = s })

abbrev as_text : String → Option String
as_text s = some s

abbrev third_fails : ℕ → Bool
third_fails n = n == 2

abbrev quiet : Channels
quiet k = new_channel

abbrev signals : List Signal
signals =
    writes "a" ∷ writes "b" ∷ receives ∷ ticks 7 ∷ writes "c" ∷ receives ∷ receives ∷ closes ∷ []

run-signals :
    (run as_notice as_text third_fails 0 signals
      (fresh_stream as_notice as_text third_fails 0 quiet)).out
    ≡ message_event notify_msg "a" ∷ heartbeat_event 7 ∷ []
unfolding run ℕ_discrete
run-signals = refl

run-order_example :
    let start = fresh_stream as_notice as_text third_fails 0 quiet in
    let s = run as_notice as_text third_fails 0 signals start in
    (rest : List SseEvent) × (events_of as_notice as_text third_fails 0
        (accepted as_notice as_text third_fails 0 signals start)
      ≡ notices s.out ++ rest)
    × ((s.ended ≡ true) ⊎ (rest ≡ events_of as_notice as_text third_fails 0 (s.channels 0).queue))
run-order_example = run-order as_notice as_text third_fails 0 signals quiet refl
