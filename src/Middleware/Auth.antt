-- ===== src/Middleware/Auth.antt =====
-- Whom AuthMiddleware and TokenInterceptor of internal/middleware let pass, and with which tenant.
use bs_notify_hub.Prelude.Map
use bs_notify_hub.Prelude.Text.{has_prefix}
use bs_notify_hub.Prelude.{
  ℕ, ◌≡◌, ◌≢◌, ◌⊎◌, inl, inr, refl, String, true, Option, none, some, List, [], ◌∷◌, same,
  string_key, arith, Bool-cases, if_cases_at,
}
use bs_notify_hub.Session
use bs_notify_hub.Session.{Session, Store}
use bs_notify_hub.Token.{
  MapClaims, text_claim, JwtLib, Validated, accepted, rejected, bare, validate_token,
}
use bs_notify_hub.Token.Sound.{IsSoundJwt, validate_token_sound}
use bs_notify_hub.Middleware.{
  Request, AuthConfig, Answer, proceeds, answers, refusal, session_cookie_name, tenant_claim,
  claimed_tenant, tenant_of_session, session_tenant, token_tenant, jwt_tenant, proceed_or,
  auth_middleware, Intercepted, handles, refuses, no_bearer, handle_with, with_key,
  token_interceptor,
}

module _ {PublicKey : Type 0} (lib : JwtLib PublicKey) (config : AuthConfig PublicKey) where
  -- The text carries a token that ValidateToken accepts under the configured key and tag, and whose
  -- tenant is this one.
  abbrev pub AcceptsToken : ℕ → String → String → Type 0
  AcceptsToken now text tenant =
      (key : PublicKey) × (claims : MapClaims) × (config.rsa_public_key ≡ some key)
      × (has_prefix text "Bearer " ≡ true)
      × (validate_token lib now text key config.service_tag ≡ accepted claims)
      × (tenant ≡ tenant_claim (Map.get "tenant_id" claims))

  -- The same, spelled out for a sound library: the signature, and the tag.
  abbrev pub CarriesToken :
      (String → PublicKey → String → MapClaims → Type 0) → String → String → Type 0
  CarriesToken signed text tenant =
      (key : PublicKey) × (claims : MapClaims) × (config.rsa_public_key ≡ some key)
      × signed "RS256" key (bare text) claims
      × (Map.get "tag" claims ≡ some (text_claim config.service_tag))
      × (config.service_tag ≢ "")
      × (tenant ≡ tenant_claim (Map.get "tenant_id" claims))

  AcceptsToken-CarriesToken :
      (signed : String → PublicKey → String → MapClaims → Type 0) (now : ℕ) (text tenant : String)
      → IsSoundJwt lib signed
      → AcceptsToken now text tenant
      → CarriesToken signed text tenant
  AcceptsToken-CarriesToken signed now text tenant sound (key, claims, k, b, v, t) =
      let s = validate_token_sound lib signed now text key config.service_tag claims sound v in
      (key, claims, k, s.0, s.1, s.2, t)

  token_tenant_lem :
      (now : ℕ) (text tenant : String) (o : Option PublicKey)
      → config.rsa_public_key ≡ o
      → has_prefix text "Bearer " ≡ true
      → token_tenant lib config now text o ≡ some tenant
      → AcceptsToken now text tenant
  token_tenant_lem now text tenant none k b h = cc
  token_tenant_lem now text tenant (some key) k b h =
      by_result (validate_token lib now text key config.service_tag) refl h
    where
      by_result :
          (v : Validated)
          → validate_token lib now text key config.service_tag ≡ v
          → claimed_tenant v ≡ some tenant
          → AcceptsToken now text tenant
      by_result (accepted claims) e c = (key, claims, k, b, e, ground arith)
      by_result (rejected r) e c = cc

  jwt_tenant_lem :
      (now : ℕ) (req : Request) (tenant : String)
      → jwt_tenant lib config now req ≡ some tenant
      → AcceptsToken now (req.header "Authorization") tenant
  unfolding jwt_tenant
  jwt_tenant_lem now req tenant h =
      elim (Bool-cases (has_prefix (req.header "Authorization") "Bearer ")) [
        | inl b ↦ token_tenant_lem now _ tenant config.rsa_public_key refl b (rw b at h)
        | inr b ↦ let k = rw b at h in cc
      ]

  jwt_tenant-none :
      (now : ℕ) (req : Request) (tenant : String)
      → jwt_tenant lib config now req ≡ none
      → ¬ AcceptsToken now (req.header "Authorization") tenant
  unfolding jwt_tenant
  jwt_tenant-none now req tenant h (key, claims, k, b, v, t) =
      let e = rw v at (rw k at (rw b at h)) in cc

  -- The request carries the cookie of a session that is alive and bound to this tenant.
  abbrev pub HasSession : Store → ℕ → Request → String → Type 0
  HasSession store now req tenant =
      (s : Session) × (Session.get (req.cookie session_cookie_name) now store ≡ some s)
      × (tenant ≡ s.tenant_id)

  session_tenant_lem :
      (store : Store) (now : ℕ) (req : Request) (tenant : String)
      → session_tenant store now req ≡ some tenant
      → HasSession store now req tenant
  unfolding session_tenant
  session_tenant_lem store now req tenant h =
      elim (Bool-cases (same (req.cookie session_cookie_name) "")) [
        | inl e ↦ let k = rw e at h in cc
        | inr e ↦
            by_session (Session.get (req.cookie session_cookie_name) now store) refl (rw e at h)
      ]
    where
      by_session :
          (o : Option Session)
          → Session.get (req.cookie session_cookie_name) now store ≡ o
          → tenant_of_session o ≡ some tenant
          → HasSession store now req tenant
      by_session none g t = cc
      by_session (some s) g t = (s, g, ground arith)

  tenant_of_session-none : (o : Option Session) → tenant_of_session o ≡ none → o ≡ none
  tenant_of_session-none none h = refl
  tenant_of_session-none (some s) h = cc

  session_tenant-none :
      (store : Store) (now : ℕ) (req : Request)
      → session_tenant store now req ≡ none
      → Session.get (req.cookie session_cookie_name) now store ≡ none
  unfolding session_tenant Session.get
  session_tenant-none store now req h =
      elim (Bool-cases (same (req.cookie session_cookie_name) "")) [
        | inl e ↦ rw e
        | inr e ↦ let k = rw e at h in rw e (tenant_of_session-none _ k)
      ]

  -- How AuthMiddleware may end.
  abbrev pub AuthOutcome :
      (String → PublicKey → String → MapClaims → Type 0) → Store → ℕ → Request → Answer → Type 0
  AuthOutcome signed store now req (proceeds none) = ⊥
  AuthOutcome signed store now req (proceeds (some tenant)) =
      CarriesToken signed (req.header "Authorization") tenant ⊎ HasSession store now req tenant
  AuthOutcome signed store now req (answers b) =
      (b.http_status ≡ 401)
      × ((tenant : String) → ¬ AcceptsToken now (req.header "Authorization") tenant)
      × (Session.get (req.cookie session_cookie_name) now store ≡ none)
  AuthOutcome signed store now req _ = ⊥

  -- AuthMiddleware lets a request proceed only if it carries a token that is signed under RS256 with
  -- the configured key and has the service's tag, or the cookie of a session that is alive, and the
  -- tenant that it sets is that of the token or of the session. It answers with 401 if the
  -- request has neither an acceptable token nor such a session, and ends in no other way.
  pub auth_middleware-outcome :
      (signed : String → PublicKey → String → MapClaims → Type 0) (store : Store) (now : ℕ)
      (req : Request)
      → IsSoundJwt lib signed
      → AuthOutcome signed store now req (auth_middleware lib config store now req)
  unfolding auth_middleware
  auth_middleware-outcome signed store now req sound =
      by_track (jwt_tenant lib config now req) (session_tenant store now req) refl refl
    where
      by_track :
          (j s : Option String)
          → jwt_tenant lib config now req ≡ j
          → session_tenant store now req ≡ s
          → AuthOutcome signed store now req
              (proceed_or j (proceed_or s (answers (refusal 401 401 "未登录或凭证无效"))))
      by_track (some tenant) s h k =
          inl
            (AcceptsToken-CarriesToken signed now _ tenant sound (jwt_tenant_lem now req tenant h))
      by_track none (some tenant) h k = inr (session_tenant_lem store now req tenant k)
      by_track none none h k =
          (refl, (λ tenant. jwt_tenant-none now req tenant h), session_tenant-none store now req k)

  -- The metadata have no first authorization, or it is no acceptable token.
  abbrev pub NoToken : ℕ → Option (List String) → Type 0
  NoToken now none = Unit
  NoToken now (some []) = Unit
  NoToken now (some (text ∷ more)) = (tenant : String) → ¬ AcceptsToken now text tenant

  -- How TokenInterceptor may end.
  abbrev pub InterceptOutcome :
      (String → PublicKey → String → MapClaims → Type 0)
      → ℕ
      → Option (List String)
      → Intercepted
      → Type 0
  InterceptOutcome signed now md (handles tenant) =
      (text : String) × (more : List String) × (md ≡ some (text ∷ more))
      × CarriesToken signed text tenant
  InterceptOutcome signed now md (refuses r) = NoToken now md

  -- TokenInterceptor calls the handler only if the first authorization of the metadata is a token
  -- that is signed under RS256 with the configured key and has the service's tag; the tenant that
  -- the handler's context carries is the token's. It refuses a call only if that authorization is
  -- no acceptable token.
  pub token_interceptor-outcome :
      (signed : String → PublicKey → String → MapClaims → Type 0) (now : ℕ)
      (md : Option (List String))
      → IsSoundJwt lib signed
      → InterceptOutcome signed now md (token_interceptor lib config now md)
  unfolding token_interceptor
  token_interceptor-outcome signed now md sound = by_key config.rsa_public_key md refl
    where
      by_tenant :
          (key : PublicKey) (text : String) (more : List String) (o : Option String)
          → config.rsa_public_key ≡ some key
          → has_prefix text "Bearer " ≡ true
          → token_tenant lib config now text (some key) ≡ o
          → InterceptOutcome signed now (some (text ∷ more)) (handle_with o)
      by_tenant key text more (some tenant) k b e = (
        text,
        more,
        refl,
        AcceptsToken-CarriesToken signed now text tenant sound
            (token_tenant_lem now text tenant (some key) k b e),
      )
      by_tenant key text more none k b e = λ tenant a.
          let w : validate_token lib now text key config.service_tag ≡ accepted a.1 =
            cc (k, a.2, a.4) in
          let u = rw w at e in cc

      by_key :
          (o : Option PublicKey) (md : Option (List String))
          → config.rsa_public_key ≡ o
          → InterceptOutcome signed now md (with_key lib config now o md)
      by_key none none k = tt
      by_key none (some []) k = tt
      by_key none (some (text ∷ more)) k = λ tenant a. cc (k, a.2)
      by_key (some key) none k = tt
      by_key (some key) (some []) k = tt
      by_key (some key) (some (text ∷ more)) k =
          if_cases_at (InterceptOutcome signed now (some (text ∷ more))) (has_prefix text "Bearer ")
            (handle_with (token_tenant lib config now text (some key))) (refuses no_bearer)
            (λ b. by_tenant key text more (token_tenant lib config now text (some key)) k b refl)
            (λ b tenant a. cc (b, a.3))
