-- ===== src/Token/Sound.antt =====
-- What a token must be for ValidateToken of pkg/jwtutil/jwtutil.go to accept it.
use bs_notify_hub.Prelude.Map
use bs_notify_hub.Prelude.{
  ℕ, ◌<◌, ◌≡◌, ◌≢◌, ◌⊎◌, inl, inr, ◌↔◌, refl, ap, subst, String, true, false, Option, none, some,
  same, same_iff, string_key, arith, Bool-cases,
}
use bs_notify_hub.Token.{
  Claim, null_claim, text_claim, other_claim, MapClaims, TokenClaims, map_claims, other_claims,
  Token, Expiration, bad_expiration, no_expiration, expires_at, JwtLib, Checked, passes, fails,
  has_value, validate_tag, Validated, accepted, and_then, check_time, validate_exp_if_present,
  key_for, validate_claims, validate_parsed, bare, validate_token,
}

-- What golang-jwt documents. Parse gives a valid token only if the key function gave a key for the
-- algorithm of the header, and the signature is right for that algorithm and key; the validator
-- that requires an expiration accepts no claims whose time has come.
pub record IsSoundJwt {PublicKey : Type 0} (lib : JwtLib PublicKey)
    (signed : String → PublicKey → String → MapClaims → Type 0) : Type 0 where
  pub parse_signed :
      (text : String) (keys : String → Option PublicKey) (token : Token) (claims : MapClaims)
      → lib.parse text keys ≡ some token
      → token.valid ≡ true
      → token.claims ≡ map_claims claims
      → (alg : String) × (key : PublicKey) × (keys alg ≡ some key) × signed alg key text claims
  pub validate_before :
      (now t : ℕ) (claims : MapClaims)
      → lib.validate now claims ≡ true
      → lib.expiration claims ≡ expires_at t
      → now < t

module _ {PublicKey : Type 0} (lib : JwtLib PublicKey) where
  -- The claims have no "exp", or null, or one that GetExpirationTime reads as no time or as a time
  -- that the validator accepts.
  abbrev pub IsTimely : ℕ → MapClaims → Type 0
  IsTimely now claims =
      (has_value (Map.get "exp" claims) ≡ false)
      ⊎ (lib.expiration claims ≡ no_expiration)
      ⊎ ((t : ℕ) × (lib.expiration claims ≡ expires_at t) × (lib.validate now claims ≡ true))

  validate_tag_iff :
      (o : Option Claim) (expected : String)
      → (validate_tag o expected ≡ passes) ↔ (o ≡ some (text_claim expected))
  unfolding validate_tag
  validate_tag_iff none expected = (λ h. cc, λ h. cc)
  validate_tag_iff (some null_claim) expected = (λ h. cc, λ h. cc)
  validate_tag_iff (some (other_claim n)) expected = (λ h. cc, λ h. cc)
  validate_tag_iff (some (text_claim tag)) expected =
      (λ h. ground (arith, same_iff tag expected), λ h. ground (arith, same_iff tag expected))

  check_time_lem :
      (now : ℕ) (claims : MapClaims) (e : Expiration)
      → lib.expiration claims ≡ e
      → check_time lib now claims e ≡ passes
      → (lib.expiration claims ≡ no_expiration)
        ⊎ ((t : ℕ) × (lib.expiration claims ≡ expires_at t) × (lib.validate now claims ≡ true))
  check_time_lem now claims bad_expiration h p = cc
  check_time_lem now claims no_expiration h p = inl h
  check_time_lem now claims (expires_at t) h p = inr (t, h, ground arith)

  validate_exp_if_present-IsTimely :
      (now : ℕ) (claims : MapClaims)
      → validate_exp_if_present lib now claims ≡ passes
      → IsTimely now claims
  unfolding validate_exp_if_present
  validate_exp_if_present-IsTimely now claims p =
      elim (Bool-cases (has_value (Map.get "exp" claims))) [
        | inl h ↦ inr (check_time_lem now claims (lib.expiration claims) refl (rw h at p))
        | inr h ↦ inl h
      ]

  IsTimely-validate_exp_if_present :
      (now : ℕ) (claims : MapClaims)
      → IsTimely now claims
      → validate_exp_if_present lib now claims ≡ passes
  unfolding validate_exp_if_present
  IsTimely-validate_exp_if_present now claims (inl h) = rw h
  IsTimely-validate_exp_if_present now claims (inr (inl h)) = ground arith
  IsTimely-validate_exp_if_present now claims (inr (inr (t, h, k))) = ground arith

  and_then-accepted :
      (c : Checked) (v : Validated) (claims : MapClaims)
      → and_then c v ≡ accepted claims
      → (c ≡ passes) × (v ≡ accepted claims)
  and_then-accepted passes v claims h = (refl, h)
  and_then-accepted (fails e) v claims h = cc

  -- What the claims must be.
  abbrev pub HasGoodClaims : ℕ → String → MapClaims → Type 0
  HasGoodClaims now expected claims =
      IsTimely now claims × (expected ≢ "") × (Map.get "tag" claims ≡ some (text_claim expected))

  validate_claims_sound :
      (now : ℕ) (expected : String) (c : TokenClaims) (claims : MapClaims)
      → validate_claims lib now expected c ≡ accepted claims
      → (c ≡ map_claims claims) × HasGoodClaims now expected claims
  unfolding validate_claims
  validate_claims_sound now expected other_claims claims h = cc
  validate_claims_sound now expected (map_claims m) claims h =
      let timely = and_then-accepted (validate_exp_if_present lib now m) _ claims h in
      elim (Bool-cases (same expected "")) [
        | inl e ↦ let k = rw e at timely.1 in cc
        | inr e ↦
            let tagged =
              and_then-accepted (validate_tag (Map.get "tag" m) expected) (accepted m) claims
                (rw e at timely.1) in
            let eq : m ≡ claims = cc (tagged.1) in
            (
              ap map_claims eq,
              subst (λ x. HasGoodClaims now expected x) eq
                  (
                    validate_exp_if_present-IsTimely now m timely.0,
                    (λ q. ground (arith, same_iff expected "")),
                    (validate_tag_iff (Map.get "tag" m) expected).0 tagged.0,
                  ),
            )
      ]

  validate_claims_complete :
      (now : ℕ) (expected : String) (claims : MapClaims)
      → HasGoodClaims now expected claims
      → validate_claims lib now expected (map_claims claims) ≡ accepted claims
  unfolding validate_claims
  validate_claims_complete now expected claims (timely, tag, tagged) =
      rw (IsTimely-validate_exp_if_present now claims timely) (
        rw ((validate_tag_iff (Map.get "tag" claims) expected).1 tagged)
          (ground (arith, same_iff expected "", tag)))

  -- What jwt.Parse must have returned.
  abbrev pub Parses : Option Token → MapClaims → Type 0
  Parses parsed claims =
      (t : Token) × (parsed ≡ some t) × (t.valid ≡ true) × (t.claims ≡ map_claims claims)

  validate_parsed_iff :
      (now : ℕ) (expected : String) (parsed : Option Token) (claims : MapClaims)
      → (validate_parsed lib now expected parsed ≡ accepted claims)
        ↔ (Parses parsed claims × HasGoodClaims now expected claims)
  unfolding validate_parsed
  validate_parsed_iff now expected none claims = (λ h. cc, λ h. cc (h.0.1))
  validate_parsed_iff now expected (some token) claims = (forward, backward)
    where
      forward :
          validate_parsed lib now expected (some token) ≡ accepted claims
          → Parses (some token) claims × HasGoodClaims now expected claims
      forward h = elim (Bool-cases token.valid) [
        | inl v ↦
            let good = validate_claims_sound now expected token.claims claims (rw v at h) in
            ((token, refl, v, good.0), good.1)
        | inr v ↦ let k = rw v at h in cc
      ]

      backward :
          Parses (some token) claims × HasGoodClaims now expected claims
          → validate_parsed lib now expected (some token) ≡ accepted claims
      backward ((t, e, v, c), good) =
          let done = validate_claims_complete now expected claims good in ground arith

  -- A token is accepted with its claims exactly if the library parses it with a valid signature
  -- under RS256 and the configured key, its time has not come, the service has a tag, and the token
  -- carries that tag.
  pub validate_token_iff :
      (now : ℕ) (token : String) (key : PublicKey) (expected : String) (claims : MapClaims)
      → (validate_token lib now token key expected ≡ accepted claims)
        ↔ (Parses (lib.parse (bare token) (key_for key)) claims × HasGoodClaims now expected claims)
  unfolding validate_token
  validate_token_iff now token key expected claims =
      validate_parsed_iff now expected (lib.parse (bare token) (key_for key)) claims

  -- The claims have no "exp", or null, or one that the library reads as no time or as a later time.
  abbrev pub IsUnexpired : ℕ → MapClaims → Type 0
  IsUnexpired now claims =
      (has_value (Map.get "exp" claims) ≡ false)
      ⊎ (lib.expiration claims ≡ no_expiration)
      ⊎ ((t : ℕ) × (lib.expiration claims ≡ expires_at t) × (now < t))

  IsTimely-IsUnexpired :
      (signed : String → PublicKey → String → MapClaims → Type 0) (now : ℕ) (claims : MapClaims)
      → IsSoundJwt lib signed
      → IsTimely now claims
      → IsUnexpired now claims
  IsTimely-IsUnexpired signed now claims sound (inl h) = inl h
  IsTimely-IsUnexpired signed now claims sound (inr (inl h)) = inr (inl h)
  IsTimely-IsUnexpired signed now claims sound (inr (inr (t, h, v))) =
      inr (inr (t, h, sound.validate_before now t claims v h))

  only_rs256 :
      (key k : PublicKey) (alg : String) → key_for key alg ≡ some k → (alg ≡ "RS256") × (k ≡ key)
  only_rs256 key k alg h = (ground (arith, same_iff alg "RS256"), ground arith)

  -- An accepted token is signed under RS256 with the configured key, whatever algorithm its header
  -- names; it carries the service's tag; and if it has an expiration that is not null, the library
  -- reads it as no time or as one that has not come.
  pub validate_token_sound :
      (signed : String → PublicKey → String → MapClaims → Type 0) (now : ℕ) (token : String)
      (key : PublicKey) (expected : String) (claims : MapClaims)
      → IsSoundJwt lib signed
      → validate_token lib now token key expected ≡ accepted claims
      → signed "RS256" key (bare token) claims
        × (Map.get "tag" claims ≡ some (text_claim expected))
        × (expected ≢ "")
        × IsUnexpired now claims
  validate_token_sound signed now token key expected claims sound h =
      let (parsed, good) = (validate_token_iff now token key expected claims).0 h in
      let (t, e, v, c) = parsed in
      let (alg, k, given, sig) = sound.parse_signed (bare token) (key_for key) t claims e v c in
      let rs = only_rs256 key k alg given in
      (
        subst (λ a. signed a key (bare token) claims) rs.0
            (subst (λ x. signed alg x (bare token) claims) rs.1 sig),
        good.2,
        good.1,
        IsTimely-IsUnexpired signed now claims sound good.0,
      )
