-- ===== src/Config/Agent.antt =====
-- internal/app/agent_config.go: the configuration of the agent.
pub mod Laws
pub mod Bounds
use Prim.Native.String
use go_metrics.Common.{ℕ, String, not, Option, none, some, List, eqb, ◌==◌, if◌then◌else◌}
use go_metrics.Strconv.{parse_int, format_int}
use go_metrics.Config.{
  seconds_or, Host, Loaded, ok, err, bad_rate_limit, invalid_report_interval, invalid_poll_interval,
  invalid_rate_limit, ◌>>=◌, AgentJsonConfig, load_json_file, parse_duration_to_seconds, string_ptr,
  apply_to_agent_config, env_text, env_interval, flag_text, parse_args, config_path, or_default,
  is_positive,
}

pub record AgentConfig : Type 0 where
  pub address : String
  pub report_interval : ℕ
  pub poll_interval : ℕ
  pub key : String
  pub rate_limit : ℕ
  pub crypto_key : String

pub record FlagValues : Type 0 where
  pub address : String
  pub report_interval : ℕ
  pub poll_interval : ℕ
  pub key : String
  pub rate_limit : ℕ
  pub crypto_key : String
  pub config_file : String

abbrev pub default_addr : String
default_addr = "localhost:8080"

abbrev default_flags : FlagValues
default_flags = record {
  address = default_addr;
  report_interval = 10;
  poll_interval = 2;
  key = "";
  rate_limit = 1;
  crypto_key = "";
  config_file = "";
}

abbrev empty_json : AgentJsonConfig
empty_json = record {
  address = none;
  report_interval = none;
  poll_interval = none;
  crypto_key = none;
}

-- The variables that go to the file's values.
unfoldable pub apply_environment_to_json : Host → AgentJsonConfig → AgentJsonConfig
unfolding env_text env_interval
apply_environment_to_json host json = record {
  address = env_text (host.getenv "ADDRESS") json.address;
  report_interval = env_interval (host.getenv "REPORT_INTERVAL") json.report_interval;
  poll_interval = env_interval (host.getenv "POLL_INTERVAL") json.poll_interval;
  crypto_key = env_text (host.getenv "CRYPTO_KEY") json.crypto_key;
}

-- A limit in the environment is a positive number, or loading fails.
unfoldable pub env_rate_limit : String → ℕ → Loaded ℕ
env_rate_limit env old = if env == "" then ok old else elim (parse_int env) [
  | none ↦ err bad_rate_limit
  | some v ↦ if is_positive v then ok v else err bad_rate_limit
]

-- KEY and RATE_LIMIT go to the flags.
unfoldable pub apply_environment_to_flags : Host → FlagValues → Loaded FlagValues
unfolding env_rate_limit
apply_environment_to_flags host flags = do
  limit ← env_rate_limit (host.getenv "RATE_LIMIT") flags.rate_limit
  ok (record flags {
    key = if host.getenv "KEY" == "" then flags.key else host.getenv "KEY";
    rate_limit = limit;
  })

abbrev flag_interval : ℕ → ℕ → Option String
unfolding string_ptr
flag_interval default flag =
    if eqb flag default then none else string_ptr (String.◌++◌ (format_int flag) "s")

unfoldable pub apply_flags : FlagValues → AgentJsonConfig
unfolding flag_text string_ptr
apply_flags flags = record {
  address = flag_text default_addr flags.address;
  report_interval = flag_interval 10 flags.report_interval;
  poll_interval = flag_interval 2 flags.poll_interval;
  crypto_key = flag_text "" flags.crypto_key;
}

unfoldable pub build_final_config : Host → AgentJsonConfig → FlagValues → Loaded AgentConfig
build_final_config host final flags = do
  report ← seconds_or 10 host final.report_interval
  poll ← seconds_or 2 host final.poll_interval
  ok (record {
    address = or_default default_addr final.address;
    report_interval = report;
    poll_interval = poll;
    key = flags.key;
    rate_limit = flags.rate_limit;
    crypto_key = or_default "" final.crypto_key;
  })

unfoldable pub validate_config : AgentConfig → Loaded AgentConfig
validate_config cfg =
    if not (is_positive cfg.report_interval)
    then err invalid_report_interval
    else if not (is_positive cfg.poll_interval)
    then err invalid_poll_interval
    else if not (is_positive cfg.rate_limit)
    then err invalid_rate_limit
    else ok cfg

-- `ParseAgentConfig`, from the parsed flags and the loaded file on.
unfoldable pub finish_parse : Host → FlagValues → AgentJsonConfig → Loaded AgentConfig
unfolding apply_environment_to_json apply_environment_to_flags apply_flags build_final_config
finish_parse host flags json = do
  given ← apply_environment_to_flags host flags
  let final = apply_to_agent_config (apply_environment_to_json host json) (apply_flags given)
  result ← build_final_config host final given
  validate_config result

module _ (host : Host) (parse : FlagValues → List String → Option FlagValues)
    (unmarshal : String → AgentJsonConfig → Option AgentJsonConfig) where
  unfoldable pub parse_flags : Loaded FlagValues
  parse_flags = parse_args parse default_flags host.args

  unfoldable pub load_json_config : String → Loaded AgentJsonConfig
  load_json_config path = load_json_file host unmarshal (config_path host path) empty_json

  unfoldable pub parse_agent_config : Loaded AgentConfig
  parse_agent_config = do
    flags ← parse_flags
    json ← load_json_config flags.config_file
    finish_parse host flags json
