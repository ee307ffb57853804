-- ===== src/Config.antt =====
-- internal/config/json.go, and what the two configurations share: the JSON structs, durations, the
-- optional fields, and the reading of command line and environment.
pub mod Server
pub mod Agent
pub mod Sources
pub mod Durations
use Prim.Native.String
use Prim.Native.String.{[], ◌∷◌}
use go_metrics.Common.{
  ◌≡◌, refl, ℕ, ◌^◌, String, Bool, true, false, not, Option, none, some, List, ◌||◌, ltb, eqb, ◌==◌,
  if◌then◌else◌,
}
use go_metrics.Common
use go_metrics.Strconv.{parse_int}

-- The errors of loading, one constructor for each step that can fail.
pub data ConfigError : Type 0 where
  bad_flags bad_json empty_duration bad_duration no_duration bad_rate_limit : ConfigError
  invalid_report_interval invalid_poll_interval invalid_rate_limit : ConfigError
  invalid_store_interval : ConfigError

-- What a step of loading returns.
pub data Loaded (A : Type 0) : Type 0 where
  err : ConfigError → Loaded A
  ok : A → Loaded A

module _ {A B : Type 0} where
  -- if err != nil { return nil, err }
  infixl 5 ◌>>=◌
  abbrev pub ◌>>=◌ : Loaded A → (A → Loaded B) → Loaded B
  err reason >>= next = err reason
  ok value >>= next = next value

pub record ServerJsonConfig : Type 0 where
  pub address : Option String
  pub restore : Option Bool
  pub store_interval : Option String
  pub store_file : Option String
  pub database_dsn : Option String
  pub crypto_key : Option String

pub record AgentJsonConfig : Type 0 where
  pub address : Option String
  pub report_interval : Option String
  pub poll_interval : Option String
  pub crypto_key : Option String

-- What the host gives: the environment (empty for a variable that is not set), the command line with
-- the program's name, files, and from package time the nanoseconds of a duration and
-- `int(duration.Seconds())`. Signed numbers are 64-bit patterns.
pub record Host : Type 0 where
  pub getenv : String → String
  pub args : List String
  pub read_file : String → Option String
  pub parse_duration : String → Option ℕ
  pub seconds : ℕ → ℕ

abbrev pub or_error : {A : Type 0} → ConfigError → Option A → Loaded A
or_error e none = err e
or_error e (some a) = ok a

-- LoadJSONFile; `unmarshal` is json.Unmarshal into the target.
unfoldable pub load_json_file :
    {T : Type 0} → Host → (String → T → Option T) → String → T → Loaded T
load_json_file host unmarshal filename target =
    if filename == "" then ok target else elim (host.read_file filename) [
      | none ↦ err bad_json
      | some text ↦ or_error bad_json (unmarshal text target)
    ]

-- An int is positive if it is not zero and its sign bit is clear.
abbrev pub is_positive : ℕ → Bool
is_positive n = ltb 0 n && ltb n (2 ^ 63)
  where
    infixr 35 ◌&&◌
    ◌&&◌ : Bool → Bool → Bool
    a && b = if a then b else false

unfoldable pub parse_duration_to_seconds : Host → String → Loaded ℕ
parse_duration_to_seconds host text =
    if text == "" then err empty_duration else elim (host.parse_duration text) [
      | none ↦ err bad_duration
      | some d ↦ if is_positive (host.seconds d) then ok (host.seconds d) else err no_duration
    ]

-- An interval of the configuration, or its default.
abbrev pub seconds_or : ℕ → Host → Option String → Loaded ℕ
seconds_or d host none = ok d
seconds_or d host (some text) = parse_duration_to_seconds host text

unfoldable pub string_ptr : String → Option String
string_ptr s = if s == "" then none else some s

-- `if cfg.X == nil && jsonCfg.X != nil { cfg.X = jsonCfg.X }`
abbrev pub first : {A : Type 0} → Option A → Option A → Option A
first none b = b
first (some a) b = some a

unfoldable pub apply_to_agent_config : AgentJsonConfig → AgentJsonConfig → AgentJsonConfig
apply_to_agent_config json cfg = record {
  address = first cfg.address json.address;
  report_interval = first cfg.report_interval json.report_interval;
  poll_interval = first cfg.poll_interval json.poll_interval;
  crypto_key = first cfg.crypto_key json.crypto_key;
}

unfoldable pub apply_to_server_config : ServerJsonConfig → ServerJsonConfig → ServerJsonConfig
apply_to_server_config json cfg = record {
  address = first cfg.address json.address;
  restore = first cfg.restore json.restore;
  store_interval = first cfg.store_interval json.store_interval;
  store_file = first cfg.store_file json.store_file;
  database_dsn = first cfg.database_dsn json.database_dsn;
  crypto_key = first cfg.crypto_key json.crypto_key;
}

-- The value of an optional field, or its default.
abbrev pub or_default : {A : Type 0} → A → Option A → A
or_default d none = d
or_default d (some a) = a

-- `if env := os.Getenv(…); env != "" { jsonConfig.X = stringPtr(env) }`
unfoldable pub env_text : String → Option String → Option String
unfolding string_ptr
env_text env old = if env == "" then old else string_ptr env

-- The same for an interval: a number without a unit counts seconds.
unfoldable pub env_interval : String → Option String → Option String
unfolding string_ptr
env_interval env old =
    if env == ""
    then old
    else elim (parse_int env) [ none ↦ string_ptr env | some n ↦ string_ptr (String.◌++◌ env "s") ]

-- A flag counts as given if it differs from its default.
unfoldable pub flag_text : String → String → Option String
unfolding string_ptr
flag_text default flag = if flag == default then none else string_ptr flag

ends_with : String → String → Bool
ends_with suffix [] = suffix == ""
ends_with suffix (c ∷ s) = (c ∷ s) == suffix || ends_with suffix s

-- os.Args[0] is "test", or ends in ".test" behind something.
is_test_name : String → Bool
unfolding ends_with
is_test_name [] = false
is_test_name (c ∷ s) = (c ∷ s) == "test" || ends_with ".test" s

-- Flags are parsed only if there are arguments, and not in a test; `parse` is `fs.Parse` with the
-- variables that it fills.
unfoldable pub parse_args : {V : Type 0} → (V → List String → Option V) → V → List String → Loaded V
unfolding is_test_name
parse_args parse defaults List.[] = ok defaults
parse_args parse defaults (List.◌∷◌ name List.[]) = ok defaults
parse_args parse defaults (List.◌∷◌ name (List.◌∷◌ a rest)) =
    if is_test_name name then ok defaults else or_error bad_flags (parse defaults (List.◌∷◌ a rest))

-- The path of the configuration file: the flag, or the variable CONFIG.
abbrev pub config_path : Host → String → String
config_path host flag = if flag == "" then host.getenv "CONFIG" else flag

-- If two steps in a row return a value, the first of them does, and the second does on it.
module _ {A B : Type 0} {result : B} (next : A → Loaded B) where
  pub >>=-eq-ok :
      (step : Loaded A)
      → (step >>= next) ≡ ok result
      → (value : A) × (next value ≡ ok result) × (step ≡ ok value)
  >>=-eq-ok (err reason) same = cc same
  >>=-eq-ok (ok value) same = (value, same, refl)
