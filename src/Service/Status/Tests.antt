-- ===== src/Service/Status/Tests.antt =====
-- A user and a notification, at internal/service/status.go.
use bs_notify_hub.Prelude.{String, ◌≡◌, ◌≢◌, ◌↔◌, refl, inl, inr, true, arith, none, some, [], ◌∷◌}
use bs_notify_hub.Constant.{sender_tenant, read, deleted}
use bs_notify_hub.Dispatch.Message.{target_multiple}
use bs_notify_hub.Model.{NotifyRecord}
use bs_notify_hub.World.{World, ok, no_failure, once_op}
use bs_notify_hub.World.Samples.{quiet_env, empty_world}
use bs_notify_hub.Service.Status.{may_operate, exec_status_update}
use bs_notify_hub.Service.Status.{tenant_batch_mark_read}
use bs_notify_hub.Service.Status.Batch.{ReadOutcome, tenant_batch_mark_read-outcome}
use bs_notify_hub.Service.Status.Access.{MayOperate, may_operate_iff}
use bs_notify_hub.Service.Status.Update.{
  UpdateOutcome, status_of, exec_status_update-outcome, exec_status_update-allowed,
}

abbrev maintenance : NotifyRecord
maintenance = record {
  notify_id = 5;
  title = "maintenance";
  content = "tonight";
  target_type = target_multiple;
  sender_type = sender_tenant;
  sender_id = "system";
  event_type = "ops";
  tenant_id = "acme";
  target_ids = "7" ∷ "8" ∷ [];
  expire_at = none;
  created_at = 900;
}

abbrev one_record : World
one_record = record empty_world {
  db = record { records = maintenance ∷ []; statuses = []; watermarks = [] };
}

abbrev id : String
id = "id"

abbrev user : String
user = "8"

abbrev tenant : String
tenant = "acme"

id-ne-nil : id ≢ ""
id-ne-nil e = cc

user-ne-nil : user ≢ ""
user-ne-nil e = cc

tenant-ne-nil : tenant ≢ ""
tenant-ne-nil e = cc

may_operate_iff_example :
    (may_operate maintenance user tenant ≡ true) ↔ MayOperate maintenance user tenant
may_operate_iff_example = may_operate_iff maintenance user tenant

exec_status_update-outcome_example :
    UpdateOutcome quiet_env id user tenant read one_record
      (exec_status_update quiet_env id user tenant read one_record)
exec_status_update-outcome_example =
    exec_status_update-outcome quiet_env id user tenant read one_record

exec_status_update-allowed_example :
    let x = exec_status_update (no_failure quiet_env) id user tenant deleted one_record in
    (x.0 ≡ ok tt)
    × (status_of (no_failure quiet_env) user 5 x.1.statuses ≡ some deleted)
    × (x.1.tasks ≡ once_op maintenance user ∷ [])
exec_status_update-allowed_example =
    exec_status_update-allowed quiet_env id user tenant deleted one_record maintenance id-ne-nil
      user-ne-nil tenant-ne-nil (5, refl, ground arith) (refl, inr (inr (inl refl)))

tenant_batch_mark_read-outcome_example :
    ReadOutcome quiet_env user tenant one_record
      (tenant_batch_mark_read quiet_env user tenant one_record)
tenant_batch_mark_read-outcome_example =
    tenant_batch_mark_read-outcome quiet_env user tenant one_record (omega arith, tt)
