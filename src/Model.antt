-- ===== src/Model.antt =====
-- internal/model: the rows of the three tables. A notify id (a UUID) is a number; times are
-- nanoseconds since Go's zero time, so that the zero time is 0.
use bs_notify_hub.Prelude.{ℕ, String, Option, List}
use bs_notify_hub.Constant.{SenderType, Status}
use bs_notify_hub.Dispatch.Message.{TargetType}

pub record NotifyRecord : Type 0 where
  pub notify_id : ℕ
  pub title : String
  pub content : String
  pub target_type : TargetType
  pub sender_type : SenderType
  pub sender_id : String
  pub event_type : String
  pub tenant_id : String
  pub target_ids : List String
  pub expire_at : Option ℕ
  pub created_at : ℕ

pub record NotifyStatus : Type 0 where
  pub status_notify_id : ℕ
  pub notify_id : ℕ
  pub target_user_id : String
  pub status : Status
  pub create_time : ℕ
  pub update_time : ℕ

pub record NotifyWatermark : Type 0 where
  pub tenant_id : String
  pub user_id : String
  pub tenant_read_at : ℕ
  pub tenant_clear_at : ℕ
