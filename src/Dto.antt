-- ===== src/Dto.antt =====
-- internal/dto/hub.go: what the hub pushes to its subscribers, before JSON.
use bs_notify_hub.Prelude.{ℕ, String, Option, List}
use bs_notify_hub.Prelude.Int.{ℤ}
use bs_notify_hub.Constant.{SenderType}

pub record NotifyMsgData : Type 0 where
  pub notify_id : String
  pub title : String
  pub content : String
  pub tenant_id : String
  pub sender_id : String
  pub sender_type : SenderType
  pub target_ids : List String
  pub event_type : String
  pub expire_time : Option ℕ

-- InternalMsg with the data of each MsgType that the program sends
pub data HubMsg : Type 0 where
  notify : NotifyMsgData → HubMsg
  tenant_unread : ℤ → HubMsg
  personal_unread : ℤ → HubMsg
