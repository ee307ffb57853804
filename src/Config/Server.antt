-- ===== src/Config/Server.antt =====
-- internal/config/config.go: the configuration of the server.
pub mod Laws
pub mod Bounds
use Prim.Native.String
use go_metrics.Common.{
  ℕ, ◌^◌, String, Bool, true, false, not, Option, none, some, List, ◌||◌, ltb, eqb, ◌==◌,
  if◌then◌else◌,
}
use go_metrics.Strconv.{format_int}
use go_metrics.Config.{
  seconds_or, Host, Loaded, ok, err, invalid_store_interval, ◌>>=◌, ServerJsonConfig,
  load_json_file, parse_duration_to_seconds, string_ptr, apply_to_server_config, env_text,
  env_interval, flag_text, parse_args, config_path, or_default,
}

pub record Config : Type 0 where
  pub run_addr : String
  pub store_interval : ℕ
  pub file_storage_path : String
  pub restore : Bool
  pub database_dsn : String
  pub key : String
  pub crypto_key : String

pub record ServerFlagValues : Type 0 where
  pub run_addr : String
  pub store_interval : ℕ
  pub file_storage_path : String
  pub restore : Bool
  pub database_dsn : String
  pub key : String
  pub crypto_key : String
  pub config_file : String

abbrev pub default_addr : String
default_addr = "localhost:8080"

abbrev pub default_store_file : String
default_store_file = "/tmp/metrics-db.json"

abbrev pub default_flags : ServerFlagValues
default_flags = record {
  run_addr = default_addr;
  store_interval = 300;
  file_storage_path = default_store_file;
  restore = true;
  database_dsn = "";
  key = "";
  crypto_key = "";
  config_file = "";
}

abbrev pub empty_json : ServerJsonConfig
empty_json = record {
  address = none;
  restore = none;
  store_interval = none;
  store_file = none;
  database_dsn = none;
  crypto_key = none;
}

-- The variable RESTORE; other values than these four are ignored.
unfoldable pub env_restore : String → Option Bool → Option Bool
env_restore env old =
    if env == "true" || env == "1"
    then some true
    else if env == "false" || env == "0"
    then some false
    else old

unfoldable pub apply_server_environment_variables : Host → ServerJsonConfig → ServerJsonConfig
unfolding env_text env_interval env_restore
apply_server_environment_variables host json = record {
  address = env_text (host.getenv "ADDRESS") json.address;
  restore = env_restore (host.getenv "RESTORE") json.restore;
  store_interval = env_interval (host.getenv "STORE_INTERVAL") json.store_interval;
  store_file = env_text (host.getenv "FILE_STORAGE_PATH") json.store_file;
  database_dsn = env_text (host.getenv "DATABASE_DSN") json.database_dsn;
  crypto_key = env_text (host.getenv "CRYPTO_KEY") json.crypto_key;
}

-- The one variable that goes to the flags: `if envKey != "" { flags.key = envKey }`.
unfoldable pub apply_server_key : Host → ServerFlagValues → ServerFlagValues
apply_server_key host flags = record flags {
  key = if host.getenv "KEY" == "" then flags.key else host.getenv "KEY";
}

unfoldable pub apply_server_flags : Host → ServerFlagValues → ServerJsonConfig
unfolding flag_text string_ptr env_restore
apply_server_flags host flags = record {
  address = flag_text default_addr flags.run_addr;
  restore = env_restore (host.getenv "RESTORE") none;
  store_interval =
      if eqb flags.store_interval 300
      then none
      else string_ptr (String.◌++◌ (format_int flags.store_interval) "s");
  store_file = flag_text default_store_file flags.file_storage_path;
  database_dsn = flag_text "" flags.database_dsn;
  crypto_key = flag_text "" flags.crypto_key;
}

unfoldable pub build_server_config : Host → ServerJsonConfig → ServerFlagValues → Loaded Config
build_server_config host final flags = do
  interval ← seconds_or 300 host final.store_interval
  ok (record {
    run_addr = or_default default_addr final.address;
    store_interval = interval;
    file_storage_path = or_default default_store_file final.store_file;
    restore = or_default true final.restore;
    database_dsn = or_default "" final.database_dsn;
    key = flags.key;
    crypto_key = or_default "" final.crypto_key;
  })

-- A negative int has its sign bit set.
unfoldable pub validate_server_config : Config → Loaded Config
validate_server_config cfg =
    if ltb cfg.store_interval (2 ^ 63) then ok cfg else err invalid_store_interval

-- `Load`, from the parsed flags and the loaded file on.
unfoldable pub finish_load : Host → ServerFlagValues → ServerJsonConfig → Loaded Config
unfolding apply_server_environment_variables apply_server_key apply_server_flags build_server_config
finish_load host flags json = do
  let given = apply_server_key host flags
  let final =
      apply_to_server_config (apply_server_environment_variables host json)
        (apply_server_flags host given)
  result ← build_server_config host final given
  validate_server_config result

module _ (host : Host) (parse : ServerFlagValues → List String → Option ServerFlagValues)
    (unmarshal : String → ServerJsonConfig → Option ServerJsonConfig) where
  unfoldable pub parse_server_flags : Loaded ServerFlagValues
  parse_server_flags = parse_args parse default_flags host.args

  unfoldable pub load_server_json_config : String → Loaded ServerJsonConfig
  load_server_json_config path = load_json_file host unmarshal (config_path host path) empty_json

  unfoldable pub load : Loaded Config
  load = do
    flags ← parse_server_flags
    json ← load_server_json_config flags.config_file
    finish_load host flags json
