-- ===== src/Conf/Load.antt =====
-- What LoadConfig of internal/conf/conf.go answers.
use bs_notify_hub.Prelude.{
  ◌≡◌, ◌≢◌, ◌⊎◌, inl, inr, refl, String, Bool, true, false, Option, none, some, same, same_iff,
  string_key, if_cases_at, arith,
}
use bs_notify_hub.Token.{parse_rsa_public_key}
use bs_notify_hub.Conf.{
  Config, no_service_tag, FileRead, read_ok, not_found, read_failed, ConfLib, Loaded, check_tag,
  with_key, check_key, parsed, of_file, of_path, load, load_config,
}

module _ {PublicKey : Type 0} (lib : ConfLib PublicKey) where
  -- There is no text of a key, or the key is what the text parses to.
  abbrev pub KeyMatches : Config PublicKey → Type 0
  KeyMatches c =
      (c.auth.rsa_public_key ≡ "")
      ⊎ ((key : PublicKey) × (c.rsa_public_key ≡ some key)
          × (parse_rsa_public_key lib.keys c.auth.rsa_public_key ≡ some key))

  -- What holds of a configuration that is loaded without an error.
  abbrev pub LoadOutcome : Loaded lib → Type 0
  LoadOutcome (c, none) = (c.auth.service_tag ≢ "") × KeyMatches c
  LoadOutcome (c, some e) = Unit

  check_tag-outcome : (c : Config PublicKey) → KeyMatches c → LoadOutcome (check_tag lib c)
  unfolding check_tag
  check_tag-outcome c k =
      if_cases_at LoadOutcome (same c.auth.service_tag "") (c, some no_service_tag) (c, none)
        (λ e. tt) (λ e. ((λ q. ground (arith, same_iff c.auth.service_tag "")), k))

  check_key-outcome : (c : Config PublicKey) → LoadOutcome (check_key lib c)
  unfolding check_key
  check_key-outcome c =
      if_cases_at LoadOutcome (same c.auth.rsa_public_key "") (check_tag lib c)
        (with_key lib c (parse_rsa_public_key lib.keys c.auth.rsa_public_key))
        (λ e. check_tag-outcome c (inl ((same_iff c.auth.rsa_public_key "").0 e)))
        (λ e. by_key (parse_rsa_public_key lib.keys c.auth.rsa_public_key) refl)
    where
      by_key :
          (o : Option PublicKey)
          → parse_rsa_public_key lib.keys c.auth.rsa_public_key ≡ o
          → LoadOutcome (with_key lib c o)
      by_key none e = tt
      by_key (some key) e = check_tag-outcome _ (inr (key, refl, e))

  load-outcome : LoadOutcome (load lib)
  unfolding load
  load-outcome = by_path lib.executable
    where
      by_parsed : (r : Config PublicKey × Bool) → LoadOutcome (parsed lib r)
      by_parsed (c, true) = check_key-outcome c
      by_parsed (c, false) = tt

      by_file : (r : FileRead) → LoadOutcome (of_file lib r)
      by_file (read_ok text) = by_parsed (lib.unmarshal text)
      by_file not_found = tt
      by_file read_failed = tt

      by_path : (o : Option String) → LoadOutcome (of_path lib o)
      by_path none = tt
      by_path (some exe) = by_file (lib.read_file (lib.config_beside exe))

  -- The first LoadConfig succeeds only with a service tag that is not empty and, if the file names a
  -- public key, with the key that its text parses to. Every later call succeeds with what the
  -- first one left, also where the first one failed.
  pub load_config-outcome :
      LoadOutcome (load lib)
      × ((load_config lib none).1 ≡ (load lib).1)
      × ((load_config lib (load_config lib none).0).1 ≡ none)
      × ((load_config lib (load_config lib none).0).0 ≡ some (load lib).0)
  unfolding load_config
  load_config-outcome = (load-outcome, refl, refl, refl)
