-- ===== src/Response.antt =====
-- pkg/response/response.go and pkg/httpcode/code.go: errors with a code, and the JSON body.
use bs_notify_hub.Prelude.{ℕ, String, Option, none}

abbrev pub success : ℕ
success = 0

abbrev pub bad_request : ℕ
bad_request = 400

abbrev pub unauthorized : ℕ
unauthorized = 401

abbrev pub forbidden : ℕ
forbidden = 403

abbrev pub not_found : ℕ
not_found = 404

abbrev pub db_error : ℕ
db_error = 500

abbrev pub internal_error : ℕ
internal_error = 500

pub record CodeError : Type 0 where
  pub code : ℕ
  pub msg : String

abbrev pub new_code_error : ℕ → String → CodeError
new_code_error code msg = record { code = code; msg = msg }

-- The HTTP status and the JSON body; the data is any Go value, or nil.
pub record Body {ℓ} (A : Type ℓ) : Type ℓ where
  pub http_status : ℕ
  pub code : ℕ
  pub msg : String
  pub content : Option A
  pub trace_id : String

unfoldable pub ok_resp {ℓ} : {A : Type ℓ} → String → String → Option A → Body A
ok_resp trace_id msg content = record {
  http_status = 200;
  code = success;
  msg = msg;
  content = content;
  trace_id = trace_id;
}

-- ErrResp answers with InternalError, whatever the code of the error.
unfoldable pub err_resp {ℓ} : {A : Type ℓ} → String → CodeError → Body A
err_resp trace_id e = record {
  http_status = 200;
  code = internal_error;
  msg = e.msg;
  content = none;
  trace_id = trace_id;
}
