-- ===== src/Config/Agent/Laws.antt =====
-- `ParseAgentConfig`: where the values come from, and what every parsed configuration satisfies.
use go_metrics.Common.{◌<◌, ◌^◌, String, ◌≡◌, Option, List, arith, ◌==◌, if◌then◌else◌}
use go_metrics.Config.{
  >>=-eq-ok, Host, Loaded, ok, ◌>>=◌, AgentJsonConfig, first, env_text, flag_text, or_default,
  apply_to_agent_config,
}
use go_metrics.Config.Sources.{Chosen}
use go_metrics.Config.Agent.{
  AgentConfig, FlagValues, default_addr, finish_parse, parse_agent_config, parse_flags,
  load_json_config, validate_config,
}

-- What the agent relies on: both tickers have a positive period, and the pool has a worker.
pub record IsUsable (cfg : AgentConfig) : Type 0 where
  pub report : (0 < cfg.report_interval) × (cfg.report_interval < 2 ^ 63)
  pub poll : (0 < cfg.poll_interval) × (cfg.poll_interval < 2 ^ 63)
  pub workers : (0 < cfg.rate_limit) × (cfg.rate_limit < 2 ^ 63)

validate_config-IsUsable : (c cfg : AgentConfig) → validate_config c ≡ ok cfg → IsUsable cfg
unfolding validate_config
validate_config-IsUsable c cfg h = ground arith

module _ (host : Host) (flags : FlagValues) (json : AgentJsonConfig) (cfg : AgentConfig) where
  -- The two texts of the configuration come from their sources, and the key from the environment or
  -- the flag.
  pub record FromSources : Type 0 where
    pub address : Chosen flags.address default_addr (host.getenv "ADDRESS") json.address cfg.address
    pub crypto_key :
        Chosen flags.crypto_key "" (host.getenv "CRYPTO_KEY") json.crypto_key cfg.crypto_key
    pub key : cfg.key ≡ (if host.getenv "KEY" == "" then flags.key else host.getenv "KEY")

  abbrev text_of : String → String → String → Option String → String
  text_of default flag env file =
      or_default default (first (flag_text default flag) (env_text (host.getenv env) file))

  record Fields : Type 0 where
    address : cfg.address ≡ text_of default_addr flags.address "ADDRESS" json.address
    crypto_key : cfg.crypto_key ≡ text_of "" flags.crypto_key "CRYPTO_KEY" json.crypto_key
    key : cfg.key ≡ (if host.getenv "KEY" == "" then flags.key else host.getenv "KEY")
    usable : IsUsable cfg

  finish_parse-Fields : finish_parse host flags json ≡ ok cfg → Fields
  unfolding finish_parse validate_config apply_to_agent_config
  finish_parse-Fields h = ground arith

module _ (host : Host) (parse : FlagValues → List String → Option FlagValues)
    (unmarshal : String → AgentJsonConfig → Option AgentJsonConfig) where
  pub steps_of_parse :
      (cfg : AgentConfig)
      → parse_agent_config host parse unmarshal ≡ ok cfg
      → (flags : FlagValues) × (json : AgentJsonConfig) × (parse_flags host parse unmarshal
          ≡ ok flags)
        × (load_json_config host parse unmarshal flags.config_file ≡ ok json)
        × (finish_parse host flags json ≡ ok cfg)
  unfolding parse_agent_config
  steps_of_parse cfg h =
      let after : FlagValues → AgentJsonConfig → Loaded AgentConfig =
        λ f json. finish_parse host f json in
      let (flags, rest, parsed) =
        >>=-eq-ok (λ f. load_json_config host parse unmarshal f.config_file >>= after f)
          (parse_flags host parse unmarshal) h in
      let (json, last, read) =
        >>=-eq-ok (after flags) (load_json_config host parse unmarshal flags.config_file) rest in
      (flags, json, parsed, read, last)

  -- Every configuration that `ParseAgentConfig` returns has positive poll and report intervals and at
  -- least one worker.
  pub parse_agent_config-IsUsable :
      (cfg : AgentConfig) → parse_agent_config host parse unmarshal ≡ ok cfg → IsUsable cfg
  parse_agent_config-IsUsable cfg h =
      let (flags, json, _, _, last) = steps_of_parse cfg h in
      (finish_parse-Fields host flags json cfg last).usable
