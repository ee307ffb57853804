-- ===== src/Config/Agent/Bounds.antt =====
-- `ParseAgentConfig`: how long the intervals can be.
use go_metrics.Common.{ℕ, ◌≤◌, ◌≡◌, String, Option, List, arith}
use go_metrics.Config.{
  >>=-eq-ok, seconds_or, Host, Loaded, ok, ◌>>=◌, AgentJsonConfig, or_default,
  apply_to_agent_config,
}
use go_metrics.Config.Durations.{HasDurations, seconds_or_bound}
use go_metrics.Config.Agent.{
  AgentConfig, FlagValues, default_addr, finish_parse, parse_agent_config, validate_config,
  build_final_config, apply_environment_to_flags, apply_environment_to_json, apply_flags,
}
use go_metrics.Config.Agent.Laws.{steps_of_parse}

module _ (host : Host) (durations : HasDurations host) where
  -- The last step of build_final_config.
  abbrev built : AgentJsonConfig → FlagValues → ℕ → ℕ → Loaded AgentConfig
  built final flags report poll = ok (record {
    address = or_default default_addr final.address;
    report_interval = report;
    poll_interval = poll;
    key = flags.key;
    rate_limit = flags.rate_limit;
    crypto_key = or_default "" final.crypto_key;
  })

  build_final_config_bound :
      (final : AgentJsonConfig) (flags : FlagValues) (cfg : AgentConfig)
      → build_final_config host final flags ≡ ok cfg
      → cfg.poll_interval ≤ 9223372036
  unfolding build_final_config
  build_final_config_bound final flags cfg h =
      let after : ℕ → Loaded AgentConfig =
        λ report. seconds_or 2 host final.poll_interval >>= built final flags report in
      let (report, rest, _) = >>=-eq-ok after (seconds_or 10 host final.report_interval) h in
      let (poll, last, given) =
        >>=-eq-ok (built final flags report) (seconds_or 2 host final.poll_interval) rest in
      let bound = seconds_or_bound host durations 2 poll final.poll_interval (omega arith) given in
      ground arith

  validate_config_same : (c cfg : AgentConfig) → validate_config c ≡ ok cfg → c ≡ cfg
  unfolding validate_config
  validate_config_same c cfg h = ground arith

  finish_parse_bound :
      (flags : FlagValues) (json : AgentJsonConfig) (cfg : AgentConfig)
      → finish_parse host flags json ≡ ok cfg
      → cfg.poll_interval ≤ 9223372036
  unfolding finish_parse
  finish_parse_bound flags json cfg h =
      let final : FlagValues → AgentJsonConfig =
        λ given. apply_to_agent_config (apply_environment_to_json host json) (apply_flags given) in
      let after : FlagValues → Loaded AgentConfig =
        λ given. build_final_config host (final given) given >>= validate_config in
      let (given, rest, _) = >>=-eq-ok after (apply_environment_to_flags host flags) h in
      let (result, last, made) =
        >>=-eq-ok validate_config (build_final_config host (final given) given) rest in
      let same = validate_config_same result cfg last in
      rw (← same) (build_final_config_bound (final given) given result made)

  -- A poll interval that ParseAgentConfig returns is no longer than a time.Duration can be.
  pub parse_agent_config_bound :
      (parse : FlagValues → List String → Option FlagValues)
      (unmarshal : String → AgentJsonConfig → Option AgentJsonConfig) (cfg : AgentConfig)
      → parse_agent_config host parse unmarshal ≡ ok cfg
      → cfg.poll_interval ≤ 9223372036
  parse_agent_config_bound parse unmarshal cfg h =
      let (flags, json, _, _, last) = steps_of_parse host parse unmarshal cfg h in
      finish_parse_bound flags json cfg last
