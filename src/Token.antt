-- ===== src/Token.antt =====
-- pkg/jwtutil/jwtutil.go: the public key of the service and the tokens that it accepts. The JWT,
-- PEM, base64 and X.509 libraries are parameters.
pub mod Sound
pub mod Tests
use bs_notify_hub.Prelude.Map
use bs_notify_hub.Prelude.Text.{trim_prefix, trim_space, has_prefix, remove_all}
use bs_notify_hub.Prelude.{
  ℕ, String, Bool, true, false, not, ◌||◌, Option, none, some, List, same, string_key,
  if◌then◌else◌,
}

-- A JSON value in the claims: the program tells texts and null from the others.
pub data Claim : Type 0 where
  null_claim : Claim
  text_claim : String → Claim
  other_claim : ℕ → Claim

abbrev pub MapClaims : Type 0
MapClaims = List (String × Claim)

pub data TokenClaims : Type 0 where
  map_claims : MapClaims → TokenClaims
  other_claims : TokenClaims

pub record Token : Type 0 where
  pub valid : Bool
  pub claims : TokenClaims

-- GetExpirationTime: an error, no time, or a time.
pub data Expiration : Type 0 where
  bad_expiration no_expiration : Expiration
  expires_at : ℕ → Expiration

pub data TokenError : Type 0 where
  parse_failed invalid_signature bad_claims bad_exp expired no_service_tag : TokenError
  no_tag tag_type tag_mismatch : TokenError

-- golang-jwt: Parse, which asks the key function for the key of the algorithm in the header and
-- verifies the signature, GetExpirationTime, and the validator with a required expiration.
pub record JwtLib (PublicKey : Type 0) : Type 0 where
  pub parse : String → (String → Option PublicKey) → Option Token
  pub expiration : MapClaims → Expiration
  pub validate : ℕ → MapClaims → Bool

pub data Checked : Type 0 where
  passes : Checked
  fails : TokenError → Checked

abbrev pub has_value : Option Claim → Bool
has_value none = false
has_value (some null_claim) = false
has_value (some _) = true

-- validateTag, on `claims["tag"]`
unfoldable pub validate_tag : Option Claim → String → Checked
validate_tag none expected = fails no_tag
validate_tag (some null_claim) expected = fails no_tag
validate_tag (some (other_claim n)) expected = fails tag_type
validate_tag (some (text_claim tag)) expected =
    if same tag expected then passes else fails tag_mismatch

pub data Validated : Type 0 where
  accepted : MapClaims → Validated
  rejected : TokenError → Validated

abbrev pub and_then : Checked → Validated → Validated
and_then passes v = v
and_then (fails e) v = rejected e

-- the text of the token without the prefix and the space around it
unfoldable pub bare : String → String
unfolding trim_prefix trim_space
bare token = trim_space (trim_prefix token "Bearer ")

-- the key function that is handed to jwt.Parse
abbrev pub key_for : {PublicKey : Type 0} → PublicKey → String → Option PublicKey
key_for pub_key alg = if same alg "RS256" then some pub_key else none

module _ {PublicKey : Type 0} (lib : JwtLib PublicKey) where
  abbrev pub check_time : ℕ → MapClaims → Expiration → Checked
  check_time now claims bad_expiration = fails bad_exp
  check_time now claims no_expiration = passes
  check_time now claims (expires_at t) = if lib.validate now claims then passes else fails expired

  unfoldable pub validate_exp_if_present : ℕ → MapClaims → Checked
  validate_exp_if_present now claims =
      if has_value (Map.get "exp" claims)
      then check_time now claims (lib.expiration claims)
      else passes

  -- ValidateToken on the claims
  unfoldable pub validate_claims : ℕ → String → TokenClaims → Validated
  unfolding validate_exp_if_present validate_tag
  validate_claims now expected other_claims = rejected bad_claims
  validate_claims now expected (map_claims claims) = and_then (validate_exp_if_present now claims) (
      if same expected ""
      then rejected no_service_tag
      else and_then (validate_tag (Map.get "tag" claims) expected) (accepted claims))

  -- ValidateToken on what jwt.Parse returned
  unfoldable pub validate_parsed : ℕ → String → Option Token → Validated
  unfolding validate_claims
  validate_parsed now expected none = rejected parse_failed
  validate_parsed now expected (some token) =
      if token.valid then validate_claims now expected token.claims else rejected invalid_signature

  unfoldable pub validate_token : ℕ → String → PublicKey → String → Validated
  unfolding validate_parsed bare
  validate_token now token pub_key expected =
      validate_parsed now expected (lib.parse (bare token) (key_for pub_key))

-- x509.ParsePKIXPublicKey gives a key of some type.
pub data AnyKey (PublicKey : Type 0) : Type 0 where
  rsa_key : PublicKey → AnyKey PublicKey
  other_key : AnyKey PublicKey

-- The DER bytes stand as a list of numbers.
pub record KeyLib (PublicKey : Type 0) : Type 0 where
  pub pem_decode : String → Option (List ℕ)
  pub base64_decode : String → Option (List ℕ)
  pub parse_pkix : List ℕ → Option (AnyKey PublicKey)
  pub parse_pkcs1 : List ℕ → Option PublicKey

-- ReplaceAll of the line feed (10), the carriage return (13) and the space (32)
unfoldable pub cleaned : String → String
unfolding remove_all
cleaned raw = remove_all 32 (remove_all 13 (remove_all 10 raw))

module _ {PublicKey : Type 0} (lib : KeyLib PublicKey) where
  abbrev pub key_of_pkix : Option (AnyKey PublicKey) → Option PublicKey → Option PublicKey
  key_of_pkix none fallback = fallback
  key_of_pkix (some (rsa_key k)) fallback = some k
  key_of_pkix (some other_key) fallback = none

  abbrev pub key_of_der : Option (List ℕ) → Option PublicKey
  key_of_der none = none
  key_of_der (some der) = key_of_pkix (lib.parse_pkix der) (lib.parse_pkcs1 der)

  -- after TrimSpace; `none` is an error
  unfoldable pub parse_trimmed : String → Option PublicKey
  unfolding cleaned has_prefix
  parse_trimmed raw =
      if same raw ""
      then none
      else key_of_der
          (if has_prefix raw "-----" then lib.pem_decode raw else lib.base64_decode (cleaned raw))

  unfoldable pub parse_rsa_public_key : String → Option PublicKey
  unfolding parse_trimmed trim_space
  parse_rsa_public_key raw = parse_trimmed (trim_space raw)
