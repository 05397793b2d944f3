-- ===== src/Dispatch/Message.antt =====
-- internal/dispatch/dispatcher.go: the message that the dispatcher carries.
use bs_notify_hub.Prelude.{String, Bool, true, false, List}

-- The int8 constants 0, 1 and 2. The program writes no other value.
pub data TargetType : Type 0 where
  target_single target_multiple target_broadcast : TargetType

-- `t == dispatch.TargetBroadcast`
abbrev pub is_broadcast : TargetType → Bool
is_broadcast target_broadcast = true
is_broadcast _ = false

pub record Message : Type 0 where
  pub trace_id : String
  pub tenant_id : String
  pub target_type : TargetType
  pub target_ids : List String
  pub payload : String
