-- ===== src/Middleware/Tests.antt =====
-- Requests at internal/middleware, with the tokens of Token/Tests.
use bs_notify_hub.Prelude.Map
use bs_notify_hub.Prelude.Text.{is_space}
use bs_notify_hub.Prelude.{
  ◌≡◌, refl, String, Bool, Option, none, some, [], ◌∷◌, same, string_key, String-discrete, ℕ,
  ℕ_discrete, nat_key, if◌then◌else◌,
}
use bs_notify_hub.Session.{create}
use bs_notify_hub.Session.Tests.{two_sessions}
use bs_notify_hub.Token.{validate_token}
use bs_notify_hub.Token.Tests.{toy_jwt, SignedBy, toy_jwt-IsSoundJwt}
use bs_notify_hub.Middleware.{
  Request, AuthConfig, proceeds, answers, refusal, auth_middleware, handles, refuses, no_bearer,
  invalid_token, token_interceptor, localhost_only,
}
use bs_notify_hub.Middleware.Auth.{
  AuthOutcome, InterceptOutcome, auth_middleware-outcome, token_interceptor-outcome,
}

abbrev pub hub_config : AuthConfig ℕ
hub_config = record { rsa_public_key = some 7; service_tag = "hub" }

abbrev pub with_token : String → Request
with_token text = record {
  header = λ k. if same k "Authorization" then text else "";
  cookie = λ k. "";
  client_ip = "10.0.0.1";
}

abbrev with_cookie : String → Request
with_cookie id = record { header = λ k. ""; cookie = λ k. id; client_ip = "10.0.0.1" }

auth_ends :
    (auth_middleware toy_jwt hub_config two_sessions 10 (with_token "Bearer good")
      ≡ proceeds (some "acme"))
    × (auth_middleware toy_jwt hub_config two_sessions 10 (with_cookie "old")
        ≡ proceeds (some "acme"))
    × (auth_middleware toy_jwt hub_config two_sessions 10 (with_token "good")
        ≡ answers (refusal 401 401 "未登录或凭证无效"))
unfolding auth_middleware validate_token Map.get String-discrete ℕ_discrete is_space create
    bs_notify_hub.Session.get Map.put
auth_ends = (refl, refl, refl)

intercepts :
    (token_interceptor toy_jwt hub_config 10 (some ("Bearer good" ∷ [])) ≡ handles "acme")
    × (token_interceptor toy_jwt hub_config 10 (some ("good" ∷ [])) ≡ refuses no_bearer)
    × (token_interceptor toy_jwt hub_config 60 (some ("Bearer good" ∷ [])) ≡ refuses invalid_token)
unfolding token_interceptor validate_token Map.get String-discrete ℕ_discrete is_space
intercepts = (refl, refl, refl)

auth_middleware-outcome_example :
    AuthOutcome toy_jwt hub_config SignedBy two_sessions 10
      (with_token "Bearer good")
      (auth_middleware toy_jwt hub_config two_sessions 10 (with_token "Bearer good"))
auth_middleware-outcome_example =
    auth_middleware-outcome toy_jwt hub_config SignedBy two_sessions 10 (with_token "Bearer good")
      toy_jwt-IsSoundJwt

token_interceptor-outcome_example :
    InterceptOutcome toy_jwt hub_config SignedBy 10
      (some ("Bearer good" ∷ []))
      (token_interceptor toy_jwt hub_config 10 (some ("Bearer good" ∷ [])))
token_interceptor-outcome_example =
    token_interceptor-outcome toy_jwt hub_config SignedBy 10 (some ("Bearer good" ∷ []))
      toy_jwt-IsSoundJwt

abbrev no_loopback : String → Option Bool
no_loopback ip = none

-- A client far away that says so is taken for this host.
spoofed :
    localhost_only no_loopback (record {
      header = λ k. if same k "X-Forwarded-For" then "127.0.0.1, 8.8.8.8" else "";
      cookie = λ k. "";
      client_ip = "8.8.8.8";
    })
    ≡ proceeds none
unfolding localhost_only String-discrete is_space
spoofed = refl
