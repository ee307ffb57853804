-- ===== src/Config/Server/Bounds.antt =====
-- `Load`: how long the store interval can be.
use go_metrics.Common.{ℕ, ◌*◌, ◌^◌, ◌≤◌, ◌<◌, ◌≡◌, String, true, Option, List, arith}
use go_metrics.Config.{
  >>=-eq-ok, seconds_or, Host, Loaded, ok, ServerJsonConfig, or_default, apply_to_server_config,
}
use go_metrics.Config.Durations.{HasDurations, seconds_or_bound}
use go_metrics.Config.Server.{
  Config, ServerFlagValues, default_addr, default_store_file, finish_load, load,
  validate_server_config, build_server_config, apply_server_key, apply_server_environment_variables,
  apply_server_flags,
}
use go_metrics.Config.Server.Laws.{finish_of_load, load_store_interval}

module _ (host : Host) (durations : HasDurations host) where
  -- The last step of build_server_config.
  abbrev built : ServerJsonConfig → ServerFlagValues → ℕ → Loaded Config
  built final flags interval = ok (record {
    run_addr = or_default default_addr final.address;
    store_interval = interval;
    file_storage_path = or_default default_store_file final.store_file;
    restore = or_default true final.restore;
    database_dsn = or_default "" final.database_dsn;
    key = flags.key;
    crypto_key = or_default "" final.crypto_key;
  })

  build_server_config_bound :
      (final : ServerJsonConfig) (flags : ServerFlagValues) (cfg : Config)
      → build_server_config host final flags ≡ ok cfg
      → cfg.store_interval ≤ 9223372036
  unfolding build_server_config
  build_server_config_bound final flags cfg h =
      let (interval, last, given) =
        >>=-eq-ok (built final flags) (seconds_or 300 host final.store_interval) h in
      let bound =
        seconds_or_bound host durations 300 interval final.store_interval (omega arith) given in
      ground arith

  finish_load_bound :
      (flags : ServerFlagValues) (json : ServerJsonConfig) (cfg : Config)
      → finish_load host flags json ≡ ok cfg
      → cfg.store_interval ≤ 9223372036
  unfolding finish_load validate_server_config
  finish_load_bound flags json cfg h =
      let given = apply_server_key host flags in
      let final =
        apply_to_server_config (apply_server_environment_variables host json)
          (apply_server_flags host given) in
      let (result, last, made) =
        >>=-eq-ok validate_server_config (build_server_config host final given) h in
      let bound = build_server_config_bound final given result made in ground (arith, last, bound)

  -- The period of the ticker of periodicSave, the store interval in nanoseconds, is positive and does
  -- not wrap around, so that time.NewTicker does not panic.
  pub load_store_period :
      (parse : ServerFlagValues → List String → Option ServerFlagValues)
      (unmarshal : String → ServerJsonConfig → Option ServerJsonConfig) (cfg : Config)
      → load host parse unmarshal ≡ ok cfg
      → (0 < cfg.store_interval) × (cfg.store_interval * 1000000000 < 2 ^ 63)
  load_store_period parse unmarshal cfg h =
      let (flags, json, last) = finish_of_load host parse unmarshal cfg h in
      let bound = finish_load_bound flags json cfg last in
      ((load_store_interval host parse unmarshal cfg h).0, omega arith)
