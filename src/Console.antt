-- ===== src/Console.antt =====
-- registerDashboardRoutes and serveDashboardStatic of main.go: the console's pages. The embedded
-- files and the table of MIME types are parameters.
pub mod Guard
pub mod Tests
use Prim.Native.String.{◌++◌ as str_append}
use bs_notify_hub.Prelude.Text.{has_prefix, trim_prefix}
use bs_notify_hub.Prelude.{
  ℕ, String, Bool, true, false, not, ◌||◌, Option, none, some, List, same, string_key,
  if◌then◌else◌,
}
use bs_notify_hub.Dashboard
use bs_notify_hub.Dashboard.{DashboardStats, Pools}
use bs_notify_hub.Handler.Login.{Login, Admin, LoginAnswer, login, logout}
use bs_notify_hub.Middleware.{
  Request, Answer, proceeds, answers, answers_map, redirects, has_valid_session, session_middleware,
}
use bs_notify_hub.Response.{Body, ok_resp}
use bs_notify_hub.Session.{Store}
use bs_notify_hub.World.{World, Env}

-- distFS.Open and io.ReadAll
pub data Opened : Type 0 where
  no_file unreadable : Opened
  content : String → Opened

-- The answer for a static file: its path, its content type and its content.
pub data StaticAnswer : Type 0 where
  not_found server_error : StaticAnswer
  file : String → String → String → StaticAnswer

unfoldable pub is_dashboard_asset : String → Bool
unfolding has_prefix trim_prefix
is_dashboard_asset path =
    let clean = trim_prefix path "/" in
    same clean "index.html"
    || same clean "login.html"
    || has_prefix clean "css/"
    || has_prefix clean "js/"
    || has_prefix clean "vendor/"

-- The routes. A path below /web/js, /web/css or /web/vendor is given by what follows the folder.
pub data Route : Type 0 where
  root login_page post_logout home index_html dashboard_data favicon : Route
  post_login : Option Login → Route
  js css vendor : String → Route

pub data ConsoleAnswer : Type 0 where
  redirected : String → ConsoleAnswer
  served : StaticAnswer → ConsoleAnswer
  logged : LoginAnswer → ConsoleAnswer
  stats : Body DashboardStats → ConsoleAnswer
  guarded : Answer → ConsoleAnswer
  no_content : ConsoleAnswer

unfoldable pub default_path : String → String
default_path path = if same path "/" || same path "" then "/index.html" else path

-- Behind SessionMiddleware.
abbrev pub behind_guard : Answer → ConsoleAnswer → ConsoleAnswer
behind_guard (proceeds ctx) page = page
behind_guard (answers b) page = guarded (answers b)
behind_guard (answers_map status code msg) page = guarded (answers_map status code msg)
behind_guard (redirects status to) page = guarded (redirects status to)

module _ (open_file : String → Opened) (mime_type : String → String) where
  abbrev pub or_octets : String → String
  or_octets kind = if same kind "" then "application/octet-stream" else kind

  abbrev pub answer_file : String → Opened → StaticAnswer
  answer_file path no_file = not_found
  answer_file path unreadable = server_error
  answer_file path (content text) = file path (or_octets (mime_type path)) text

  -- serveDashboardStatic on the path with no "/web" before it
  unfoldable pub serve_asset : String → StaticAnswer
  unfolding is_dashboard_asset
  serve_asset path =
      if not (is_dashboard_asset path)
      then not_found
      else answer_file (trim_prefix path "/") (open_file (trim_prefix path "/"))

  unfoldable pub serve_dashboard_static : String → StaticAnswer
  unfolding default_path trim_prefix
  serve_dashboard_static uri = serve_asset (default_path (trim_prefix uri "/web"))

  module _ (env : Env) (admin : Admin) (dispatcher : Option Pools) where
    -- `drawn` is the session id that a login draws.
    unfoldable pub serve_console : String → Request → Route → Store → World → ConsoleAnswer
    unfolding serve_dashboard_static session_middleware has_valid_session login logout ok_resp
    serve_console drawn req root s w = redirected "/web"
    serve_console drawn req login_page s w =
        if has_valid_session s env.now req
        then redirected "/web"
        else served (serve_dashboard_static "/login.html")
    serve_console drawn req (post_login l) s w = logged (login env.trace_id admin drawn env.now l s)
    serve_console drawn req post_logout s w = logged (logout env.trace_id admin req s)
    serve_console drawn req (js rest) s w =
        served (serve_dashboard_static (str_append "/web" (str_append "/js/" rest)))
    serve_console drawn req (css rest) s w =
        served (serve_dashboard_static (str_append "/web" (str_append "/css/" rest)))
    serve_console drawn req (vendor rest) s w =
        served (serve_dashboard_static (str_append "/web" (str_append "/vendor/" rest)))
    serve_console drawn req home s w =
        behind_guard (session_middleware s env.now req)
          (served (serve_dashboard_static "/index.html"))
    serve_console drawn req index_html s w =
        behind_guard (session_middleware s env.now req)
          (served (serve_dashboard_static "/web/index.html"))
    serve_console drawn req dashboard_data s w =
        behind_guard (session_middleware s env.now req)
          (stats (ok_resp env.trace_id "获取看板数据成功" (some (Dashboard.dashboard env dispatcher w).0)))
    serve_console drawn req favicon s w = no_content
