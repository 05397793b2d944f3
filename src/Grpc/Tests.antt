-- ===== src/Grpc/Tests.antt =====
-- gRPC calls of internal/service/grpc.go.
use bs_notify_hub.Prelude.{◌≡◌, refl, String, arith}
use bs_notify_hub.Prelude.Int.{ℤ, pos, negsuc}
use bs_notify_hub.Constant.{sender_user, sender_tenant, other_sender}
use bs_notify_hub.World.Samples.{shaky, empty_world}
use bs_notify_hub.Service.Inbox.{InboxPageReq}
use bs_notify_hub.Grpc.{to_sender_type_code, get_personal_inbox, get_tenant_inbox}
use bs_notify_hub.Grpc.Pages.{InboxOutcome, inbox-outcome}

-- The conversion to an int8 takes 256 for a user.
codes :
    (to_sender_type_code (pos 0) ≡ sender_user)
    × (to_sender_type_code (pos 1) ≡ sender_tenant)
    × (to_sender_type_code (pos 2) ≡ other_sender)
    × (to_sender_type_code (pos 256) ≡ sender_user)
    × (to_sender_type_code (negsuc 255) ≡ sender_user)
unfolding to_sender_type_code
codes = (refl, refl, refl, refl, refl)

abbrev clock : ℤ → String
clock t = "time"

abbrev page_request : InboxPageReq
page_request = record {
  tenant_id = "acme";
  user_id = "7";
  page_index = pos 2_000_000_000;
  page_size = negsuc 0;
}

inbox-outcome_example :
    InboxOutcome page_request empty_world (get_personal_inbox shaky clock page_request empty_world)
    × InboxOutcome page_request empty_world (get_tenant_inbox shaky clock page_request empty_world)
inbox-outcome_example =
    inbox-outcome shaky clock page_request empty_world (omega arith) (omega arith)
