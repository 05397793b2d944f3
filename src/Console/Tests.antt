-- ===== src/Console/Tests.antt =====
-- The console of main.go for a client that is not logged in.

use bs_notify_hub.Prelude.{◌≡◌, refl, String, false, none, String-discrete, string_key}
use bs_notify_hub.Handler.Login.{Admin}
use bs_notify_hub.Middleware.{has_valid_session}
use bs_notify_hub.Middleware.Tests.{with_token}
use bs_notify_hub.Session
use bs_notify_hub.Session.Tests.{two_sessions}
use bs_notify_hub.World.Samples.{quiet_env, empty_world}
use bs_notify_hub.Console.{
  Opened, content, not_found, file, serve_asset, serve_dashboard_static, js, serve_console,
}
use bs_notify_hub.Console.Guard.{IsPublic, serve_console-IsPublic}

abbrev any_file : String → Opened
any_file path = content path

abbrev no_type : String → String
no_type path = ""

serves :
    (serve_dashboard_static any_file no_type "/web/js/a.js"
      ≡ file "js/a.js" "application/octet-stream" "js/a.js")
    × (serve_dashboard_static any_file no_type "/web/"
        ≡ file "index.html" "application/octet-stream" "index.html")
    × (serve_dashboard_static any_file no_type "/web/secret" ≡ not_found)
unfolding serve_dashboard_static serve_asset String-discrete
serves = (refl, refl, refl)

abbrev root_admin : Admin
root_admin = record { username = "root"; password = "pw" }

no_session : has_valid_session two_sessions 1000 (with_token "") ≡ false
unfolding has_valid_session Session.valid String-discrete
no_session = refl

serve_console-IsPublic_example : IsPublic (
    serve_console any_file no_type quiet_env root_admin none "drawn"
      (with_token "")
      (js "../index.html")
      two_sessions
      empty_world)
serve_console-IsPublic_example =
    serve_console-IsPublic any_file no_type quiet_env root_admin none "drawn" (with_token "")
      (js "../index.html") two_sessions empty_world no_session
