-- ===== src/Handler/Tests.antt =====
-- Requests to /v1 with the tokens of Token/Tests, and logins.
use bs_notify_hub.Prelude.Map
use bs_notify_hub.Prelude.Text.{is_space}
use bs_notify_hub.Prelude.{
  ◌≡◌, refl, String, none, some, [], ◌∷◌, String-discrete, ℕ_discrete, false,
}
use bs_notify_hub.Constant.{sender_user}
use bs_notify_hub.Session
use bs_notify_hub.Session.Tests.{two_sessions}
use bs_notify_hub.Ticket.Tests.{toy_lib, one_minute, dice}
use bs_notify_hub.Token.{validate_token}
use bs_notify_hub.Token.Tests.{toy_jwt, SignedBy, toy_jwt-IsSoundJwt}
use bs_notify_hub.World.{Env}
use bs_notify_hub.World.Samples.{quiet_env, empty_world}
use bs_notify_hub.Service.Sender
use bs_notify_hub.Middleware.Tests.{hub_config, with_token}
use bs_notify_hub.Handler.Login
use bs_notify_hub.Handler.Login.{Admin}
use bs_notify_hub.Handler.Routes.{V1, to_all, Server, serve_v1}
use bs_notify_hub.Handler.Tenant.{ServeOutcome, serve_v1-outcome}

-- A broadcast for another tenant than that of the token.
abbrev foreign : V1
foreign = to_all (
    some (record {
      base = record {
        title = "hi";
        content = "all";
        tenant_id = "umbrella";
        sender_id = "1";
        sender_type = sender_user;
        event_type = "e";
        ttl_seconds = none;
      };
    }))

abbrev server : Server
server = record { world = empty_world; tickets = []; sessions = two_sessions }

abbrev early : Env
early = record quiet_env { now = 10 }

-- It is stored for the tenant of the token.
stored_for_acme :
    (serve_v1 early toy_lib one_minute dice false toy_jwt hub_config
      (with_token "Bearer good")
      foreign
      server).1.world.records
    ≡ Sender.Atomic.row_of early empty_world (record {
      title = "hi";
      content = "all";
      tenant_id = "acme";
      sender_id = "1";
      sender_type = sender_user;
      event_type = "e";
      ttl_seconds = none;
      target_type = bs_notify_hub.Dispatch.Message.target_broadcast;
      target_ids = [];
    })
      ∷ []
unfolding serve_v1 validate_token Map.get String-discrete ℕ_discrete is_space Sender.send_to_all
    bs_notify_hub.Repository.Record.create
stored_for_acme = refl

serve_v1-outcome_example :
    ServeOutcome early toy_lib one_minute dice false toy_jwt hub_config SignedBy
      (with_token "Bearer good")
      foreign
      server
      (serve_v1 early toy_lib one_minute dice false toy_jwt hub_config
        (with_token "Bearer good")
        foreign
        server)
serve_v1-outcome_example =
    serve_v1-outcome early toy_lib one_minute dice false toy_jwt hub_config SignedBy
      (with_token "Bearer good") foreign server toy_jwt-IsSoundJwt

abbrev admin : Admin
admin = record { username = "root"; password = "pw" }

abbrev token_of_login : String
token_of_login = "drawn"

-- A login creates a session with no tenant, a wrong password none.
logins :
    (Session.get token_of_login 5
        (Login.login "t" admin token_of_login 1
          (some (record { username = "root"; password = "pw" }))
          Session.new_store).2
      ≡ some (record { tenant_id = ""; created_at = 1 }))
    × ((Login.login "t" admin token_of_login 1
          (some (record { username = "root"; password = "x" }))
          Session.new_store).2
        ≡ Session.new_store)
unfolding Login.login Session.create Session.get Map.get Map.put String-discrete Session.new_store
logins = (refl, refl)
