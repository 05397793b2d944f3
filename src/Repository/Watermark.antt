-- ===== src/Repository/Watermark.antt =====
-- internal/repository/watermark.go
use bs_notify_hub.Prelude.{
  ℕ, String, Bool, ◌&&◌, Option, List, [], ◌∷◌, same, string_key, where_, if◌then◌else◌,
}
use bs_notify_hub.Model.{NotifyWatermark}
use bs_notify_hub.World.{Env, DbError, M, call, write_db, read_db}
use bs_notify_hub.Repository.Query.{first}

abbrev pub is_of : String → String → NotifyWatermark → Bool
is_of tenant user m = same m.tenant_id tenant && same m.user_id user

-- INSERT … ON CONFLICT (tenant_id, user_id) DO UPDATE: the row of the key is changed, or is new
unfoldable pub upsert :
    String
    → String
    → (NotifyWatermark → NotifyWatermark)
    → List NotifyWatermark
    → List NotifyWatermark
upsert tenant user set [] =
    set (record { tenant_id = tenant; user_id = user; tenant_read_at = 0; tenant_clear_at = 0 })
    ∷ []
upsert tenant user set (m ∷ ms) =
    let rest = upsert tenant user set ms in if is_of tenant user m then set m ∷ ms else m ∷ rest

module _ (env : Env) where
  unfoldable pub upsert_tenant_read_at : String → String → ℕ → M DbError (Unit {0})
  unfolding upsert
  upsert_tenant_read_at tenant user read_at = call env (
      write_db λ db. record db {
        watermarks = upsert tenant user (λ m. record m { tenant_read_at = read_at }) db.watermarks;
      })

  unfoldable pub upsert_tenant_clear_at : String → String → ℕ → M DbError (Unit {0})
  unfolding upsert
  upsert_tenant_clear_at tenant user clear_at = call env (
      write_db λ db. record db {
        watermarks =
            upsert tenant user (λ m. record m { tenant_clear_at = clear_at }) db.watermarks;
      })

  -- A missing row is no error.
  unfoldable pub find_by_tenant_and_user : String → String → M DbError (Option NotifyWatermark)
  find_by_tenant_and_user tenant user =
      call env (read_db λ db. first (where_ (is_of tenant user) db.watermarks))
