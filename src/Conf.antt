-- ===== src/Conf.antt =====
-- internal/conf/conf.go: loading the configuration. The path of the executable, the file system and
-- the YAML library are outside.
pub mod Load
pub mod Tests
use bs_notify_hub.Prelude.{
  ℕ, String, Bool, true, false, Option, none, some, List, same, string_key, if◌then◌else◌,
}
use bs_notify_hub.Prelude.Int.{ℤ}
use bs_notify_hub.Handler.Login.{Admin}
use bs_notify_hub.Ticket.{TicketConfig}
use bs_notify_hub.Token.{KeyLib, parse_rsa_public_key}

pub record AuthSettings : Type 0 where
  pub rsa_public_key : String
  pub service_tag : String
  pub admin : Admin
  pub session_ttl_seconds : ℤ

-- The parts of Config that the modelled code reads, and the parsed key.
pub record Config (PublicKey : Type 0) : Type 0 where
  pub user_notify_ttl_seconds : ℤ
  pub tenant_notify_ttl_seconds : ℤ
  pub enable_notify_cleanup : Bool
  pub dispatcher_mode : String
  pub ticket : TicketConfig
  pub auth : AuthSettings
  pub rsa_public_key : Option PublicKey

pub data LoadError : Type 0 where
  no_executable file_missing file_unreadable bad_yaml bad_public_key no_service_tag : LoadError

pub data FileRead : Type 0 where
  read_ok : String → FileRead
  not_found read_failed : FileRead

-- yaml.Unmarshal gives what it has filled in, and whether it failed.
pub record ConfLib (PublicKey : Type 0) : Type 0 where
  pub executable : Option String
  pub config_beside : String → String
  pub read_file : String → FileRead
  pub empty : Config PublicKey
  pub unmarshal : String → Config PublicKey × Bool
  pub keys : KeyLib PublicKey

module _ {PublicKey : Type 0} (lib : ConfLib PublicKey) where
  -- The configuration as `load` leaves it, and its error.
  abbrev pub Loaded : Type 0
  Loaded = Config PublicKey × Option LoadError

  unfoldable pub check_tag : Config PublicKey → Loaded
  check_tag c = if same c.auth.service_tag "" then (c, some no_service_tag) else (c, none)

  abbrev pub with_key : Config PublicKey → Option PublicKey → Loaded
  with_key c none = (c, some bad_public_key)
  with_key c (some key) = check_tag (record c { rsa_public_key = some key })

  unfoldable pub check_key : Config PublicKey → Loaded
  unfolding check_tag
  check_key c =
      if same c.auth.rsa_public_key ""
      then check_tag c
      else with_key c (parse_rsa_public_key lib.keys c.auth.rsa_public_key)

  abbrev pub parsed : Config PublicKey × Bool → Loaded
  parsed (c, true) = check_key c
  parsed (c, false) = (c, some bad_yaml)

  abbrev pub of_file : FileRead → Loaded
  of_file (read_ok text) = parsed (lib.unmarshal text)
  of_file not_found = (lib.empty, some file_missing)
  of_file read_failed = (lib.empty, some file_unreadable)

  abbrev pub of_path : Option String → Loaded
  of_path none = (lib.empty, some no_executable)
  of_path (some exe) = of_file (lib.read_file (lib.config_beside exe))

  unfoldable pub load : Loaded
  unfolding check_key
  load = of_path lib.executable

  -- LoadConfig, on globalConfig: sync.Once runs the loading at the first call only, and the error is
  -- a local variable of each call.
  unfoldable pub load_config :
      Option (Config PublicKey) → Option (Config PublicKey) × (Option LoadError)
  unfolding load
  load_config (some c) = (some c, none)
  load_config none = (some load.0, load.1)
