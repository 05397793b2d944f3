-- ===== src/Repository/Record.antt =====
-- internal/repository/record.go
pub mod Page
use bs_notify_hub.Prelude.{
  ℕ, suc, String, Bool, true, false, not, ◌&&◌, Option, none, some, List, [], ◌∷◌, ◌++◌, same,
  string_key, nat_key, where_, leb, take, map, if◌then◌else◌,
}
use bs_notify_hub.Constant.{SenderType}
use bs_notify_hub.Dispatch.Message.{TargetType}
use bs_notify_hub.Model.{NotifyRecord}
use bs_notify_hub.World.{
  Db, World, Env, DbError, record_not_found, Result, ok, M, ◌>>=◌, ◌>>◌, pure, raise, call,
  write_db, read_db,
}
use bs_notify_hub.Repository.Query.{first, is_in, order_asc, order_desc}

-- ExpiredNotifyInfo: the columns that the cleanup reads
pub record ExpiredNotifyInfo : Type 0 where
  pub notify_id : ℕ
  pub tenant_id : String
  pub target_ids : List String
  pub target_type : TargetType
  pub sender_type : SenderType

abbrev pub info_of : NotifyRecord → ExpiredNotifyInfo
info_of r = record {
  notify_id = r.notify_id;
  tenant_id = r.tenant_id;
  target_ids = r.target_ids;
  target_type = r.target_type;
  sender_type = r.sender_type;
}

-- expire_at IS NOT NULL AND expire_at <= before
abbrev pub expires_by : ℕ → Option ℕ → Bool
expires_by before none = false
expires_by before (some t) = leb t before

abbrev pub expiry_or_zero : Option ℕ → ℕ
expiry_or_zero none = 0
expiry_or_zero (some t) = t

-- the query of ListExpiredNotifyInfos
unfoldable pub expired_records : ℕ → ℕ → List NotifyRecord → List NotifyRecord
expired_records before limit rs =
    take limit
      (order_asc (λ r. expiry_or_zero r.expire_at) (where_ (λ r. expires_by before r.expire_at) rs))

module _ (env : Env) where
  -- Create: BeforeCreate draws the id, and created_at is the time of the call.
  unfoldable pub create : NotifyRecord → M DbError NotifyRecord
  create r = call env λ w.
      let row = record r { notify_id = w.next_id; created_at = env.now } in
      (
        ok row,
        record w { db = record w.db { records = w.records ++ row ∷ [] }; next_id = suc w.next_id },
      )

  abbrev pub or_not_found {ℓ} : {A : Type ℓ} → Option A → M DbError A
  or_not_found none = raise record_not_found
  or_not_found (some a) = pure a

  abbrev pub has_id : Option ℕ → NotifyRecord → Bool
  has_id none r = false
  has_id (some id) r = same r.notify_id id

  -- WHERE notify_id = ?: PostgreSQL reads the text as a UUID.
  unfoldable pub find_by_id : String → M DbError NotifyRecord
  find_by_id id =
      call env λ w. or_not_found (first (where_ (has_id (env.uuid_parse id)) w.records)) w

  unfoldable pub list_expired_notify_infos : ℕ → ℕ → M DbError (List ExpiredNotifyInfo)
  unfolding expired_records
  list_expired_notify_infos before limit =
      call env (read_db λ db. map info_of (expired_records before limit db.records))

  -- DeleteByNotifyIDs makes no call for no ids.
  unfoldable pub delete_by_notify_ids : List ℕ → M DbError (Unit {0})
  delete_by_notify_ids [] = pure tt
  delete_by_notify_ids (id ∷ ids) = call env (
      write_db
        λ db. record db { records = where_ (λ r. not (is_in r.notify_id (id ∷ ids))) db.records })
