-- ===== src/Tests/Configs.antt =====
-- The configurations of a server and of an agent, from flags, environment and file.
use go_metrics.Common.{
  ◌*◌, ◌<◌, ◌^◌, String, ◌≡◌, refl, true, false, Option, none, some, List, [], ◌∷◌, ◌==◌,
  if◌then◌else◌,
}
use go_metrics.Config.{
  Host, ok, ServerJsonConfig, AgentJsonConfig, load_json_file, parse_args, apply_to_server_config,
  apply_to_agent_config,
}
use go_metrics.Config.Server
use go_metrics.Config.Durations.{HasDurations}
use go_metrics.Config.Server.Bounds as ServerBounds
use go_metrics.Config.Server.Laws as ServerLaws
use go_metrics.Config.Agent
use go_metrics.Config.Agent.Laws as AgentLaws

-- The variable KEY is set, and `-f` names no file.
abbrev pub host : Host
host = record {
  getenv = λ n. if n == "KEY" then "secret" else "";
  args = "server" ∷ "-a" ∷ "h:1" ∷ [];
  read_file = λ f. none;
  parse_duration = λ s. none;
  seconds = λ d. 1;
}

abbrev server_flags : Server.ServerFlagValues → List String → Option Server.ServerFlagValues
server_flags v args = some (record v { run_addr = "h:1" })

abbrev no_server_file : String → ServerJsonConfig → Option ServerJsonConfig
no_server_file s c = none

abbrev given : Server.ServerFlagValues
given = record Server.default_flags { run_addr = "h:1" }

flags_parsed : Server.parse_server_flags host server_flags no_server_file ≡ ok given
unfolding Server.parse_server_flags parse_args
flags_parsed = refl

file_read :
    Server.load_server_json_config host server_flags no_server_file "" ≡ ok Server.empty_json
unfolding Server.load_server_json_config load_json_file
file_read = refl

abbrev server_config : Server.Config
server_config = record {
  run_addr = "h:1";
  store_interval = 300;
  file_storage_path = "/tmp/metrics-db.json";
  restore = true;
  database_dsn = "";
  key = "secret";
  crypto_key = "";
}

loaded : Server.load host server_flags no_server_file ≡ ok server_config
unfolding Server.load Server.parse_server_flags parse_args Server.load_server_json_config
    load_json_file Server.finish_load Server.validate_server_config apply_to_server_config
loaded = refl

load-FromSources_example : ServerLaws.FromSources host given Server.empty_json server_config
load-FromSources_example =
    ServerLaws.load-FromSources host server_flags no_server_file given Server.empty_json
      server_config flags_parsed file_read loaded

pub no_durations : HasDurations host
no_durations = record { bounded = λ text d e. cc e }

load_store_period_example : (0 < 300) × (300 * 1000000000 < 2 ^ 63)
load_store_period_example =
    ServerBounds.load_store_period host no_durations server_flags no_server_file server_config
      loaded

load_ignores_restore_flag_example :
    Server.load host (ServerLaws.with_restore false server_flags) no_server_file
    ≡ Server.load host server_flags no_server_file
load_ignores_restore_flag_example =
    ServerLaws.load_ignores_restore_flag host server_flags no_server_file false

abbrev pub agent_flags : Agent.FlagValues → List String → Option Agent.FlagValues
agent_flags v args = some (record v { address = "h:1" })

abbrev pub no_agent_file : String → AgentJsonConfig → Option AgentJsonConfig
no_agent_file s c = none

abbrev agent_given : Agent.FlagValues
agent_given = record {
  address = "h:1";
  report_interval = 10;
  poll_interval = 2;
  key = "";
  rate_limit = 1;
  crypto_key = "";
  config_file = "";
}

abbrev agent_json : AgentJsonConfig
agent_json = record {
  address = none;
  report_interval = none;
  poll_interval = none;
  crypto_key = none;
}

abbrev pub agent_config : Agent.AgentConfig
agent_config = record {
  address = "h:1";
  report_interval = 10;
  poll_interval = 2;
  key = "secret";
  rate_limit = 1;
  crypto_key = "";
}

pub parsed : Agent.parse_agent_config host agent_flags no_agent_file ≡ ok agent_config
unfolding Agent.parse_agent_config Agent.parse_flags parse_args Agent.load_json_config
    load_json_file Agent.finish_parse Agent.validate_config apply_to_agent_config
parsed = refl
