-- ===== src/Conf/Tests.antt =====
-- A configuration of internal/conf/conf.go with no service tag.
use bs_notify_hub.Prelude.{◌≡◌, refl, String, true, none, some, String-discrete, ℕ}
use bs_notify_hub.Prelude.Int.{pos}
use bs_notify_hub.Token.Tests.{toy_keys}
use bs_notify_hub.Conf.{Config, no_service_tag, read_ok, ConfLib, load, load_config}
use bs_notify_hub.Conf.Load.{LoadOutcome, load_config-outcome}

abbrev tagged : String → Config ℕ
tagged tag = record {
  user_notify_ttl_seconds = pos 60;
  tenant_notify_ttl_seconds = pos 60;
  enable_notify_cleanup = true;
  dispatcher_mode = "local";
  ticket = record { expire_seconds = pos 60; ase_key = "k" };
  auth = record {
    rsa_public_key = "";
    service_tag = tag;
    admin = record { username = "root"; password = "pw" };
    session_ttl_seconds = pos 0;
  };
  rsa_public_key = none;
}

-- The text of the file is the service tag.
abbrev disk : String → ConfLib ℕ
disk tag = record {
  executable = some "/bin/hub";
  config_beside = λ exe. "/bin/config.yaml";
  read_file = λ path. read_ok tag;
  empty = tagged "";
  unmarshal = λ text. (tagged text, true);
  keys = toy_keys;
}

-- The second call does not tell that the first one failed.
second_call :
    ((load_config (disk "") none).1 ≡ some no_service_tag)
    × ((load_config (disk "") (load_config (disk "") none).0).1 ≡ none)
unfolding load_config String-discrete
second_call = (refl, refl)

load_config-outcome_example :
    LoadOutcome (disk "hub") (load (disk "hub"))
    × ((load_config (disk "hub") none).1 ≡ (load (disk "hub")).1)
    × ((load_config (disk "hub") (load_config (disk "hub") none).0).1 ≡ none)
    × ((load_config (disk "hub") (load_config (disk "hub") none).0).0 ≡ some (load (disk "hub")).0)
load_config-outcome_example = load_config-outcome (disk "hub")
