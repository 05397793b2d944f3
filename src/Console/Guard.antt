-- ===== src/Console/Guard.antt =====
-- What main.go shows of the console to a client that is not logged in.
use Prim.Native.String.{◌++◌ as str_append}
use text.Mathlib.TextLemmas.{append_assoc, nil-append, cons-append}
use bs_notify_hub.Prelude.Text.{has_prefix, trim_prefix, after_prefix}
use bs_notify_hub.Prelude.{
  ℕ, ◌≡◌, ◌≢◌, refl, ap, subst, sym, ◌∙◌, String, false, not, Option, none, some, same_iff,
  string_key, String-discrete, if_cases_at, arith,
}
use bs_notify_hub.Handler.Login.{Admin}
use bs_notify_hub.Middleware.{
  Request, Answer, proceeds, has_valid_session, session_middleware, is_api_request,
}
use bs_notify_hub.Dashboard.{Pools}
use bs_notify_hub.Session.{Store}
use bs_notify_hub.World.{World, Env}
use bs_notify_hub.Console.{
  Opened, no_file, unreadable, content, StaticAnswer, not_found, file, is_dashboard_asset, Route,
  root, login_page, post_logout, home, index_html, dashboard_data, favicon, post_login, js, css,
  vendor, ConsoleAnswer, redirected, served, stats, answer_file, serve_asset,
  serve_dashboard_static, default_path, behind_guard, serve_console,
}

after_prefix-append : (p s : String) → after_prefix p (str_append p s) ≡ some s
unfolding after_prefix
after_prefix-append String.[] s = ap some (nil-append s)
after_prefix-append (String.◌∷◌ c p) s =
    rw (cons-append c p s) (ground (arith, after_prefix-append p s))

trim_prefix-append : (p s : String) → trim_prefix (str_append p s) p ≡ s
unfolding trim_prefix
trim_prefix-append p s = rw (after_prefix-append p s)

-- A text with the prefix is none without it.
append-ne : (p s other : String) → has_prefix other p ≡ false → str_append p s ≢ other
unfolding has_prefix
append-ne p s other h e = cc (h, e, after_prefix-append p s)

-- A page that is not for everyone.
abbrev pub IsPublic : ConsoleAnswer → Type 0
IsPublic (served (file path kind text)) = path ≢ "index.html"
IsPublic (stats body) = ⊥
IsPublic _ = Unit

default_path_lem :
    (folder rest : String)
    → has_prefix "/" (str_append "/" folder) ≡ false
    → has_prefix "" (str_append "/" folder) ≡ false
    → default_path (str_append (str_append "/" folder) rest)
      ≡ str_append (str_append "/" folder) rest
unfolding default_path
default_path_lem folder rest h k =
    let path = str_append (str_append "/" folder) rest in
    ground (
      arith,
      same_iff path "/",
      same_iff path "",
      append-ne (str_append "/" folder) rest "/" h,
      append-ne (str_append "/" folder) rest "" k,
    )

module _ (open_file : String → Opened) (mime_type : String → String) where
  answer_file-IsPublic :
      (path : String) (o : Opened)
      → path ≢ "index.html"
      → IsPublic (served (answer_file open_file mime_type path o))
  answer_file-IsPublic path no_file h = tt
  answer_file-IsPublic path unreadable h = tt
  answer_file-IsPublic path (content text) h = h

  serve_asset-IsPublic :
      (path : String)
      → trim_prefix path "/" ≢ "index.html"
      → IsPublic (served (serve_asset open_file mime_type path))
  unfolding serve_asset
  serve_asset-IsPublic path h =
      if_cases_at (λ (a : StaticAnswer). IsPublic (served a)) (not (is_dashboard_asset path))
        not_found _ (λ e. tt)
        (λ e. answer_file-IsPublic (trim_prefix path "/") (open_file (trim_prefix path "/")) h)

  -- A path in a folder below /web.
  folder-IsPublic :
      (folder rest : String)
      → has_prefix "/" (str_append "/" folder) ≡ false
      → has_prefix "" (str_append "/" folder) ≡ false
      → has_prefix "index.html" folder ≡ false
      → IsPublic (
          served (
            serve_dashboard_static open_file mime_type
              (str_append "/web" (str_append (str_append "/" folder) rest))))
  unfolding serve_dashboard_static
  folder-IsPublic folder rest h k l =
      let path = str_append (str_append "/" folder) rest in
      let whole : path ≡ str_append "/" (str_append folder rest) = append_assoc "/" folder rest in
      let clean : trim_prefix path "/" ≡ str_append folder rest =
        ap (λ p. trim_prefix p "/") whole ∙ trim_prefix-append "/" (str_append folder rest) in
      let kept =
        ap default_path (trim_prefix-append "/web" path) ∙ default_path_lem folder rest h k in
      subst (λ p. IsPublic (served (serve_asset open_file mime_type p))) (sym kept)
        (serve_asset-IsPublic path (λ e. append-ne folder rest "index.html" l (sym clean ∙ e)))

  login_html-IsPublic : IsPublic (served (serve_dashboard_static open_file mime_type "/login.html"))
  unfolding serve_dashboard_static String-discrete has_prefix
  login_html-IsPublic =
      serve_asset-IsPublic "/login.html" (append-ne "login" ".html" "index.html" refl)

  -- Without a session SessionMiddleware answers itself.
  guard-IsPublic :
      (s : Store) (now : ℕ) (req : Request) (page : ConsoleAnswer)
      → has_valid_session s now req ≡ false
      → IsPublic (behind_guard (session_middleware s now req) page)
  unfolding session_middleware
  guard-IsPublic s now req page h =
      if_cases_at (λ (a : Answer). IsPublic (behind_guard a page)) (has_valid_session s now req)
        (proceeds none) _ (λ e. cc (h, e))
        (λ e.
          if_cases_at (λ (a : Answer). IsPublic (behind_guard a page))
            (is_api_request (req.header "Accept") (req.header "X-Requested-With")) _ _ (λ e. tt)
            (λ e. tt))

  -- A client whose request carries no session that is alive is never shown the console's page or
  -- the dashboard's data, on no route of the console and whatever path it asks for.
  pub serve_console-IsPublic :
      (env : Env) (admin : Admin) (dispatcher : Option Pools) (drawn : String) (req : Request)
      (route : Route) (s : Store) (w : World)
      → has_valid_session s env.now req ≡ false
      → IsPublic (serve_console open_file mime_type env admin dispatcher drawn req route s w)
  unfolding serve_console has_prefix
  serve_console-IsPublic env admin dispatcher drawn req root s w h = tt
  serve_console-IsPublic env admin dispatcher drawn req login_page s w h =
      if_cases_at IsPublic (has_valid_session s env.now req) (redirected "/web") _ (λ e. tt)
        (λ e. login_html-IsPublic)
  serve_console-IsPublic env admin dispatcher drawn req (post_login l) s w h = tt
  serve_console-IsPublic env admin dispatcher drawn req post_logout s w h = tt
  serve_console-IsPublic env admin dispatcher drawn req (js rest) s w h =
      folder-IsPublic "js/" rest refl refl refl
  serve_console-IsPublic env admin dispatcher drawn req (css rest) s w h =
      folder-IsPublic "css/" rest refl refl refl
  serve_console-IsPublic env admin dispatcher drawn req (vendor rest) s w h =
      folder-IsPublic "vendor/" rest refl refl refl
  serve_console-IsPublic env admin dispatcher drawn req home s w h =
      guard-IsPublic s env.now req _ h
  serve_console-IsPublic env admin dispatcher drawn req index_html s w h =
      guard-IsPublic s env.now req _ h
  serve_console-IsPublic env admin dispatcher drawn req dashboard_data s w h =
      guard-IsPublic s env.now req _ h
  serve_console-IsPublic env admin dispatcher drawn req favicon s w h = tt
