-- ===== src/Config/Server/Laws.antt =====
-- `config.Load`: where the values come from, and what every loaded configuration satisfies.
use go_metrics.Common.{
  ap, [], ◌∷◌, Bool-cases, ◌<◌, ◌^◌, String, ◌≡◌, refl, ◌∙◌, sym, inl, inr, Bool, Option, none,
  some, List, arith,
}
use go_metrics.Config.{
  >>=-eq-ok, or_error, bad_flags, parse_args, is_test_name, load_json_file, config_path, Host,
  Loaded, ok, ◌>>=◌, ServerJsonConfig, first, env_text, flag_text, or_default,
  apply_to_server_config, parse_duration_to_seconds,
}
use mathlib.Core.Path.{fun_ext}
use go_metrics.Config.Sources.{Chosen, chosen}
use go_metrics.Config.Server.{
  Config, default_flags, empty_json, ServerFlagValues, default_addr, default_store_file,
  finish_load, load, parse_server_flags, load_server_json_config, validate_server_config,
}

-- The four texts of the configuration come from their sources.
pub record FromSources (host : Host) (flags : ServerFlagValues) (json : ServerJsonConfig)
    (cfg : Config) : Type 0 where
  pub run_addr :
      Chosen flags.run_addr default_addr (host.getenv "ADDRESS") json.address cfg.run_addr
  pub file_storage_path :
      Chosen flags.file_storage_path default_store_file
        (host.getenv "FILE_STORAGE_PATH")
        json.store_file
        cfg.file_storage_path
  pub database_dsn :
      Chosen flags.database_dsn "" (host.getenv "DATABASE_DSN") json.database_dsn cfg.database_dsn
  pub crypto_key :
      Chosen flags.crypto_key "" (host.getenv "CRYPTO_KEY") json.crypto_key cfg.crypto_key

module _ (host : Host) (flags : ServerFlagValues) (json : ServerJsonConfig) (cfg : Config) where
  abbrev text_of : String → String → String → Option String → String
  text_of default flag env file =
      or_default default (first (flag_text default flag) (env_text (host.getenv env) file))

  -- The fields of a result.
  record Fields : Type 0 where
    run_addr : cfg.run_addr ≡ text_of default_addr flags.run_addr "ADDRESS" json.address
    file_storage_path :
        cfg.file_storage_path
        ≡ text_of default_store_file flags.file_storage_path "FILE_STORAGE_PATH" json.store_file
    database_dsn : cfg.database_dsn ≡ text_of "" flags.database_dsn "DATABASE_DSN" json.database_dsn
    crypto_key : cfg.crypto_key ≡ text_of "" flags.crypto_key "CRYPTO_KEY" json.crypto_key
    interval : (0 < cfg.store_interval) × (cfg.store_interval < 2 ^ 63)

  finish_load-Fields : finish_load host flags json ≡ ok cfg → Fields
  unfolding finish_load validate_server_config apply_to_server_config parse_duration_to_seconds
  finish_load-Fields h = ground arith

module _ (host : Host) (parse : ServerFlagValues → List String → Option ServerFlagValues)
    (unmarshal : String → ServerJsonConfig → Option ServerJsonConfig) where
  load-finish_load :
      (flags : ServerFlagValues) (json : ServerJsonConfig)
      → parse_server_flags host parse unmarshal ≡ ok flags
      → load_server_json_config host parse unmarshal flags.config_file ≡ ok json
      → load host parse unmarshal ≡ finish_load host flags json
  unfolding load
  load-finish_load flags json f j = rw (f, load, j)

  -- In a configuration that `Load` returns, the address, the file, the DSN and the key's path come
  -- from the flag, the environment, the file or the default, in this order. A flag counts only if it
  -- differs from its default, and an empty flag or variable does not count.
  pub load-FromSources :
      (flags : ServerFlagValues) (json : ServerJsonConfig) (cfg : Config)
      → parse_server_flags host parse unmarshal ≡ ok flags
      → load_server_json_config host parse unmarshal flags.config_file ≡ ok json
      → load host parse unmarshal ≡ ok cfg
      → FromSources host flags json cfg
  load-FromSources flags json cfg f j h =
      let r = finish_load-Fields host flags json cfg (sym (load-finish_load flags json f j) ∙ h) in
      record {
        run_addr = rw r.run_addr (chosen _ _ _ _);
        file_storage_path = rw r.file_storage_path (chosen _ _ _ _);
        database_dsn = rw r.database_dsn (chosen _ _ _ _);
        crypto_key = rw r.crypto_key (chosen _ _ _ _);
      }

  pub finish_of_load :
      (cfg : Config)
      → load host parse unmarshal ≡ ok cfg
      → (flags : ServerFlagValues) × (json : ServerJsonConfig) × (finish_load host flags json
          ≡ ok cfg)
  unfolding load
  finish_of_load cfg h =
      let after : ServerFlagValues → ServerJsonConfig → Loaded Config =
        λ f json. finish_load host f json in
      let (flags, rest, _) =
        >>=-eq-ok (λ f. load_server_json_config host parse unmarshal f.config_file >>= after f)
          (parse_server_flags host parse unmarshal) h in
      let (json, last, _) =
        >>=-eq-ok (after flags) (load_server_json_config host parse unmarshal flags.config_file)
          rest in
      (flags, json, last)

  -- A configuration that `Load` returns stores at a positive interval that fits an int. So an interval
  -- of zero, from whichever source, is refused before `validateServerConfig` sees it.
  pub load_store_interval :
      (cfg : Config)
      → load host parse unmarshal ≡ ok cfg
      → (0 < cfg.store_interval) × (cfg.store_interval < 2 ^ 63)
  load_store_interval cfg h =
      let (flags, json, last) = finish_of_load cfg h in
      (finish_load-Fields host flags json cfg last).interval

abbrev pub set_restore : Bool → Option ServerFlagValues → Option ServerFlagValues
set_restore b none = none
set_restore b (some f) = some (record f { restore = b })

-- `fs.Parse` with another value for the flag `-r`.
abbrev pub with_restore :
    Bool
    → (ServerFlagValues → List String → Option ServerFlagValues)
    → ServerFlagValues
    → List String
    → Option ServerFlagValues
with_restore b parse v args = set_restore b (parse v args)

module _ {A : Type 0} (b : Bool) (k : ServerFlagValues → Loaded A)
    (h : (f : ServerFlagValues) → k (record f { restore = b }) ≡ k f) where
  parsed-set_restore :
      (o : Option ServerFlagValues)
      → (or_error bad_flags (set_restore b o) >>= k) ≡ (or_error bad_flags o >>= k)
  parsed-set_restore none = refl
  parsed-set_restore (some f) = h f

parse_args-with_restore :
    {A : Type 0} (b : Bool) (parse : ServerFlagValues → List String → Option ServerFlagValues)
    (v : ServerFlagValues) (args : List String) (k : ServerFlagValues → Loaded A)
    → ((f : ServerFlagValues) → k (record f { restore = b }) ≡ k f)
    → (parse_args (with_restore b parse) v args >>= k) ≡ (parse_args parse v args >>= k)
unfolding parse_args
parse_args-with_restore b parse v [] k h = refl
parse_args-with_restore b parse v (n ∷ []) k h = refl
parse_args-with_restore b parse v (n ∷ a ∷ rest) k h = elim (Bool-cases (is_test_name n)) [
  | inl e ↦ rw e
  | inr e ↦ rw e (parsed-set_restore b k h (parse v (a ∷ rest)))
]

finish_load-restore :
    (host : Host) (f : ServerFlagValues) (json : ServerJsonConfig) (b : Bool)
    → finish_load host (record f { restore = b }) json ≡ finish_load host f json
unfolding finish_load
finish_load-restore host f json b = refl

-- The flag `-r` has no effect: whatever value the command line gives it, the result is the same.
pub load_ignores_restore_flag :
    (host : Host) (parse : ServerFlagValues → List String → Option ServerFlagValues)
    (unmarshal : String → ServerJsonConfig → Option ServerJsonConfig) (b : Bool)
    → load host (with_restore b parse) unmarshal ≡ load host parse unmarshal
unfolding load parse_server_flags load_server_json_config
load_ignores_restore_flag host parse unmarshal b =
    parse_args-with_restore b parse default_flags host.args _ λ f.
      ap (λ k. load_json_file host unmarshal (config_path host f.config_file) empty_json >>= k)
        (fun_ext (λ json. finish_load-restore host f json b))
