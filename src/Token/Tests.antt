-- ===== src/Token/Tests.antt =====
-- Tokens of pkg/jwtutil/jwtutil.go, with a library that reads two texts.
use bs_notify_hub.Prelude.Map
use bs_notify_hub.Prelude.Text.{is_space}
use bs_notify_hub.Prelude.{
  ℕ, ◌<◌, ◌≡◌, ◌≢◌, refl, String, Bool, true, false, Option, none, some, [], ◌∷◌, same, string_key,
  String-discrete, nat_key, ℕ_discrete, if◌then◌else◌, ltb, arith, same_iff,
}
use bs_notify_hub.Token.{
  MapClaims, Token, map_claims, text_claim, other_claim, null_claim, JwtLib, Expiration,
  no_expiration, expires_at, accepted, rejected, expired, tag_mismatch, parse_failed, bare,
  validate_token, KeyLib, parse_rsa_public_key,
}
use bs_notify_hub.Token.Sound.{IsSoundJwt, IsUnexpired, validate_token_sound}

abbrev pub good_claims : MapClaims
good_claims =
    ("tag", text_claim "hub") ∷ ("tenant_id", text_claim "acme") ∷ ("exp", other_claim 50) ∷ []

abbrev pub old_claims : MapClaims
old_claims = ("tag", text_claim "hub") ∷ ("exp", other_claim 5) ∷ []

abbrev pub claims_of : String → Option MapClaims
claims_of text =
    if same text "good" then some good_claims else if same text "old" then some old_claims else none

-- Parse asks for the key of RS256 and knows the one key 7.
abbrev pub token_of : Option MapClaims → Option ℕ → Option Token
token_of none k = none
token_of (some c) none = none
token_of (some c) (some k) =
    if same k 7 then some (record { valid = true; claims = map_claims c }) else none

abbrev pub numeric_date : Option ℕ → Expiration
numeric_date none = no_expiration
numeric_date (some t) = expires_at t

abbrev pub exp_number : MapClaims → Option ℕ
exp_number [] = none
exp_number ((k, other_claim t) ∷ m) = some t
exp_number ((k, null_claim) ∷ m) = exp_number m
exp_number ((k, text_claim s) ∷ m) = exp_number m

abbrev pub is_before : ℕ → Option ℕ → Bool
is_before now none = false
is_before now (some t) = ltb now t

abbrev pub toy_jwt : JwtLib ℕ
toy_jwt = record {
  parse = λ text keys. token_of (claims_of text) (keys "RS256");
  expiration = λ c. numeric_date (exp_number c);
  validate = λ now c. is_before now (exp_number c);
}

abbrev pub SignedBy : String → ℕ → String → MapClaims → Type 0
SignedBy alg key text c = (alg ≡ "RS256") × (key ≡ 7) × (claims_of text ≡ some c)

token_of_lem :
    (o : Option MapClaims) (k : Option ℕ) (t : Token) (c : MapClaims)
    → token_of o k ≡ some t
    → t.claims ≡ map_claims c
    → (o ≡ some c) × (k ≡ some 7)
token_of_lem none k t c h e = cc
token_of_lem (some m) none t c h e = cc
token_of_lem (some m) (some k) t c h e = (ground arith, ground (arith, same_iff k 7))

is_before_lem :
    (now t : ℕ) (o : Option ℕ) → is_before now o ≡ true → numeric_date o ≡ expires_at t → now < t
is_before_lem now t none h e = cc
is_before_lem now t (some u) h e = ground arith

pub toy_jwt-IsSoundJwt : IsSoundJwt toy_jwt SignedBy
toy_jwt-IsSoundJwt = record {
  parse_signed = λ text keys t c p v e.
      let (o, k) = token_of_lem (claims_of text) (keys "RS256") t c p e in
      ("RS256", 7, k, (refl, refl, o));
  validate_before = λ now t c v e. is_before_lem now t (exp_number c) v e;
}

abbrev hub : String
hub = "hub"

accepts_good : validate_token toy_jwt 10 "Bearer  good " 7 hub ≡ accepted good_claims
unfolding validate_token Map.get String-discrete ℕ_discrete is_space
accepts_good = refl

rejects_bad :
    (validate_token toy_jwt 10 "old" 7 hub ≡ rejected expired)
    × (validate_token toy_jwt 10 "good" 7 "other" ≡ rejected tag_mismatch)
    × (validate_token toy_jwt 10 "good" 8 hub ≡ rejected parse_failed)
    × (validate_token toy_jwt 60 "good" 7 hub ≡ rejected expired)
unfolding validate_token Map.get String-discrete ℕ_discrete is_space
rejects_bad = (refl, refl, refl, refl)

validate_token_sound_example :
    SignedBy "RS256" 7 (bare "Bearer  good ") good_claims
    × (Map.get "tag" good_claims ≡ some (text_claim hub))
    × (hub ≢ "")
    × IsUnexpired toy_jwt 10 good_claims
validate_token_sound_example =
    validate_token_sound toy_jwt SignedBy 10 "Bearer  good " 7 hub good_claims toy_jwt-IsSoundJwt
      accepts_good

abbrev pub toy_keys : KeyLib ℕ
toy_keys = record {
  pem_decode = λ s. some [];
  base64_decode = λ s. if same s "AAEC" then some [] else none;
  parse_pkix = λ der. none;
  parse_pkcs1 = λ der. some 7;
}

reads_keys :
    (parse_rsa_public_key toy_keys " AA\r\nEC\n" ≡ some 7)
    × (parse_rsa_public_key toy_keys "-----BEGIN" ≡ some 7)
    × (parse_rsa_public_key toy_keys " \n" ≡ none)
    × (parse_rsa_public_key toy_keys "AA" ≡ none)
unfolding parse_rsa_public_key String-discrete is_space
reads_keys = (refl, refl, refl, refl)
