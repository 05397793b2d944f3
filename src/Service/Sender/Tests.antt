-- ===== src/Service/Sender/Tests.antt =====
-- Requests to internal/service/sender.go.
use bs_notify_hub.Prelude.{◌≡◌, ◌↔◌, refl, arith, none, [], ◌∷◌}
use bs_notify_hub.Prelude.Int.{pos}
use bs_notify_hub.Constant.{sender_tenant}
use bs_notify_hub.Dispatch.Message.{target_multiple}
use bs_notify_hub.World.{ok, no_failure, send_notify}
use bs_notify_hub.World.Samples.{shaky, empty_world}
use bs_notify_hub.Service.Sender.{
  SendNotifyProp, validate_send_prop, resolve_ttl_seconds, resolve_expire_time, transmit,
}
use bs_notify_hub.Service.Sender.Atomic.{TransmitOutcome, transmit-outcome, stored, row_of}
use bs_notify_hub.Service.Sender.Valid.{IsValid, validate_send_prop-none, transmit-valid}

abbrev to_two : SendNotifyProp
to_two = record {
  title = "maintenance";
  content = "tonight";
  tenant_id = "acme";
  sender_id = "system";
  sender_type = sender_tenant;
  event_type = "ops";
  ttl_seconds = none;
  target_type = target_multiple;
  target_ids = "7" ∷ "8" ∷ [];
}

to_two-accepted : validate_send_prop to_two ≡ none
to_two-accepted =
    (validate_send_prop-none to_two).1 (record {
      named = λ e. cc;
      known = λ e. cc;
      lasting = refl;
      targeted = ("7", "8" ∷ [], refl);
    })

to_two-ttl : resolve_ttl_seconds shaky to_two ≡ ok (pos 120)
unfolding resolve_ttl_seconds
to_two-ttl = ground arith

transmit-outcome_example :
    TransmitOutcome shaky to_two empty_world (transmit shaky to_two empty_world)
transmit-outcome_example = transmit-outcome shaky to_two empty_world

validate_send_prop-none_example : (validate_send_prop to_two ≡ none) ↔ IsValid to_two
validate_send_prop-none_example = validate_send_prop-none to_two

transmit-valid_example :
    let x = transmit (no_failure shaky) to_two empty_world in
    (x.0
      ≡ ok (record {
        notify_id = "id";
        expire_time = resolve_expire_time shaky (pos 120);
        ttl_seconds = pos 120;
      }))
    × (x.1.db ≡ stored (no_failure shaky) empty_world to_two)
    × (x.1.tasks ≡ send_notify (row_of (no_failure shaky) empty_world to_two) ∷ [])
transmit-valid_example =
    transmit-valid shaky to_two (pos 120) empty_world to_two-accepted to_two-ttl
