-- ===== src/Handler/Login.antt =====
-- internal/handler/auth.go: the console's administrator logs in and out.
use bs_notify_hub.Prelude.{
  ℕ, String, not, ◌||◌, Option, none, some, same, string_key, if◌then◌else◌,
}
use bs_notify_hub.Prelude.Int.{ℤ, pos, negsuc}
use bs_notify_hub.Response.{Body, bad_request, unauthorized, ok_resp}
use bs_notify_hub.Session
use bs_notify_hub.Session.{Store}
use bs_notify_hub.Middleware.{Request, Answer, proceeds, redirects, session_cookie_name}

pub record Login : Type 0 where
  pub username : String
  pub password : String

pub record Admin : Type 0 where
  pub username : String
  pub password : String

-- The cookie that is set: its value and its MaxAge.
pub record Cookie : Type 0 where
  pub value : String
  pub max_age : ℤ

-- The answer, the cookie, and the sessions.
abbrev pub LoginAnswer : Type 0
LoginAnswer = Body (Unit {0}) × Option Cookie × Store

abbrev pub failed : ℕ → String → String → Body (Unit {0})
failed status trace_id msg = record {
  http_status = status;
  code = status;
  msg = msg;
  content = none;
  trace_id = trace_id;
}

module _ (trace_id : String) (admin : Admin) where
  -- `drawn` is the id that generateID draws.
  unfoldable pub login : String → ℕ → Option Login → Store → LoginAnswer
  unfolding ok_resp
  login drawn now none s = (failed bad_request trace_id "请求参数错误", none, s)
  login drawn now (some l) s =
      if not (same l.username admin.username) || not (same l.password admin.password)
      then (failed unauthorized trace_id "用户名或密码错误", none, s)
      else (
        ok_resp trace_id "登录成功" none,
        some (record { value = drawn; max_age = pos (Session.ttl_seconds s) }),
        Session.create drawn "" now s,
      )

  unfoldable pub logout : Request → Store → LoginAnswer
  unfolding ok_resp
  logout req s = (
    ok_resp trace_id "已登出" none,
    some (record { value = ""; max_age = negsuc 0 }),
    if same (req.cookie session_cookie_name) ""
        then s
        else Session.delete (req.cookie session_cookie_name) s,
  )

-- LoginPage
unfoldable pub login_page : Store → ℕ → Request → Answer
login_page store now req =
    if Session.valid (req.cookie session_cookie_name) now store
    then redirects 302 "/web"
    else proceeds none
