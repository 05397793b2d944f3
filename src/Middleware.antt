-- ===== src/Middleware.antt =====
-- internal/middleware: who may pass to the handlers, and with which tenant. A middleware answers the
-- request itself, or lets it proceed with what it has set in the request's context.
pub mod Auth
pub mod Tests
use bs_notify_hub.Prelude.Map
use bs_notify_hub.Prelude.Text.{has_prefix, trim_space, before}
use bs_notify_hub.Prelude.{
  ℕ, String, Bool, true, false, not, ◌||◌, Option, none, some, List, [], ◌∷◌, same, string_key,
  if◌then◌else◌,
}
use bs_notify_hub.Response.{Body, unauthorized, forbidden}
use bs_notify_hub.Session
use bs_notify_hub.Session.{Session, Store}
use bs_notify_hub.Token.{
  Claim, text_claim, null_claim, other_claim, JwtLib, Validated, accepted, rejected, validate_token,
}

-- What the middleware reads of a request: a header or a cookie that is missing is "".
pub record Request : Type 0 where
  pub header : String → String
  pub cookie : String → String
  pub client_ip : String

-- The parts of conf.Config that the middleware reads.
pub record AuthConfig (PublicKey : Type 0) : Type 0 where
  pub rsa_public_key : Option PublicKey
  pub service_tag : String

-- `proceeds` holds the tenant id that `c.Set` stored; `answers_map` is the status, the code and the
-- message of the JSON map of SessionMiddleware.
pub data Answer : Type 0 where
  proceeds : Option String → Answer
  answers : Body (Unit {0}) → Answer
  answers_map : ℕ → ℕ → String → Answer
  redirects : ℕ → String → Answer

abbrev pub session_cookie_name : String
session_cookie_name = "sessionId"

abbrev pub refusal : ℕ → ℕ → String → Body (Unit {0})
refusal status code msg = record {
  http_status = status;
  code = code;
  msg = msg;
  content = none;
  trace_id = "";
}

-- `tenantID, _ := claims["tenant_id"].(string)`
abbrev pub tenant_claim : Option Claim → String
tenant_claim (some (text_claim tenant)) = tenant
tenant_claim _ = ""

abbrev pub claimed_tenant : Validated → Option String
claimed_tenant (accepted claims) = some (tenant_claim (Map.get "tenant_id" claims))
claimed_tenant (rejected e) = none

abbrev pub tenant_of_session : Option Session → Option String
tenant_of_session none = none
tenant_of_session (some s) = some s.tenant_id

-- The session track, of AuthMiddleware and of SessionAuthMiddleware.
unfoldable pub session_tenant : Store → ℕ → Request → Option String
session_tenant store now req =
    if same (req.cookie session_cookie_name) ""
    then none
    else tenant_of_session (Session.get (req.cookie session_cookie_name) now store)

abbrev pub proceed_or : Option String → Answer → Answer
proceed_or none other = other
proceed_or (some tenant) other = proceeds (some tenant)

-- TokenInterceptor: `none` among the metadata is a context without any. The result is the tenant
-- id that the handler's context carries, or the reason of the status Unauthenticated.
pub data Refused : Type 0 where
  no_public_key no_metadata no_authorization no_bearer invalid_token : Refused

pub data Intercepted : Type 0 where
  handles : String → Intercepted
  refuses : Refused → Intercepted

abbrev pub handle_with : Option String → Intercepted
handle_with none = refuses invalid_token
handle_with (some tenant) = handles tenant

module _ {PublicKey : Type 0} (lib : JwtLib PublicKey) (config : AuthConfig PublicKey) where
  abbrev pub token_tenant : ℕ → String → Option PublicKey → Option String
  token_tenant now text none = none
  token_tenant now text (some key) =
      claimed_tenant (validate_token lib now text key config.service_tag)

  -- The JWT track of AuthMiddleware.
  unfoldable pub jwt_tenant : ℕ → Request → Option String
  unfolding has_prefix
  jwt_tenant now req =
      if has_prefix (req.header "Authorization") "Bearer "
      then token_tenant now (req.header "Authorization") config.rsa_public_key
      else none

  unfoldable pub auth_middleware : Store → ℕ → Request → Answer
  unfolding jwt_tenant session_tenant
  auth_middleware store now req =
      proceed_or (jwt_tenant now req)
        (proceed_or (session_tenant store now req) (answers (refusal 401 unauthorized "未登录或凭证无效")))

  abbrev pub check_authorization : ℕ → PublicKey → List String → Intercepted
  check_authorization now key [] = refuses no_authorization
  check_authorization now key (text ∷ more) =
      if has_prefix text "Bearer "
      then handle_with (token_tenant now text (some key))
      else refuses no_bearer

  abbrev pub check_metadata : ℕ → PublicKey → Option (List String) → Intercepted
  check_metadata now key none = refuses no_metadata
  check_metadata now key (some values) = check_authorization now key values

  abbrev pub with_key : ℕ → Option PublicKey → Option (List String) → Intercepted
  with_key now none md = refuses no_public_key
  with_key now (some key) md = check_metadata now key md

  unfoldable pub token_interceptor : ℕ → Option (List String) → Intercepted
  unfolding has_prefix
  token_interceptor now md = with_key now config.rsa_public_key md

unfoldable pub session_auth_middleware : Store → ℕ → Request → Answer
unfolding session_tenant
session_auth_middleware store now req =
    proceed_or (session_tenant store now req) (answers (refusal 401 unauthorized "权限不足：需要管理员会话"))

-- GetTenantID, on what the context holds
unfoldable pub get_tenant_id : Option String → String
get_tenant_id none = ""
get_tenant_id (some tenant) = tenant

unfoldable pub resolve_tenant_id : Option String → String → String
unfolding get_tenant_id
resolve_tenant_id ctx requested =
    if same (get_tenant_id ctx) "" then requested else get_tenant_id ctx

-- HasValidSession
unfoldable pub has_valid_session : Store → ℕ → Request → Bool
has_valid_session store now req = Session.valid (req.cookie session_cookie_name) now store

unfoldable pub is_api_request : String → String → Bool
is_api_request accept requested_with =
    same requested_with "XMLHttpRequest"
    || same "application/json" accept
    || same "text/plain" accept
    || same "*/*" accept

unfoldable pub session_middleware : Store → ℕ → Request → Answer
unfolding is_api_request has_valid_session
session_middleware store now req =
    if has_valid_session store now req
    then proceeds none
    else if is_api_request (req.header "Accept") (req.header "X-Requested-With")
    then answers_map 401 401 "未登录或会话已过期，请重新登录"
    else redirects 302 "/web/login"

-- getClientIP: the text before the first comma (44) of X-Forwarded-For
unfoldable pub get_client_ip : Request → String
unfolding before trim_space
get_client_ip req =
    if not (same (req.header "X-Forwarded-For") "")
    then trim_space (before 44 (req.header "X-Forwarded-For"))
    else if not (same (req.header "X-Real-Ip") "")
    then req.header "X-Real-Ip"
    else req.client_ip

-- net.ParseIP, and IsLoopback on the address: `none` is a text that is no address.
module _ (loopback : String → Option Bool) where
  abbrev pub or_false : Option Bool → Bool
  or_false none = false
  or_false (some b) = b

  unfoldable pub is_localhost : String → Bool
  is_localhost ip =
      if same ip ""
      then false
      else if same ip "127.0.0.1" || same ip "::1" || same ip "localhost"
      then true
      else or_false (loopback ip)

  unfoldable pub localhost_only : Request → Answer
  unfolding is_localhost get_client_ip
  localhost_only req =
      if not (is_localhost (get_client_ip req))
      then answers (refusal 403 forbidden "禁止访问：该接口仅限本机访问")
      else proceeds none

-- TraceMiddleware: the trace id of the request's context and of the response header; the UUID that
-- would be drawn is an argument.
unfoldable pub trace_middleware : String → Request → String
trace_middleware drawn req =
    if same (req.header "X-Trace-UserID") "" then drawn else req.header "X-Trace-UserID"
