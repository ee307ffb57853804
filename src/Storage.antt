-- ===== src/Storage.antt =====
-- internal/storage/storage.go and types.go: the interface `Storage`, with the errors that its
-- implementations return, and the laws that a client of it may rely on.
pub mod Updates
pub mod Mem
pub mod Db
use go_metrics.Common.{ℕ, zero, String, Bool, Option, List}
use go_metrics.GoMap.{GoMap}
use go_metrics.Models.{Metrics}

-- The constants `Gauge` and `Counter`.
abbrev pub gauge : String
gauge = "gauge"

abbrev pub counter : String
counter = "counter"

-- One constructor for each `fmt.Errorf` of the storages; the argument is the name, the type or the
-- file that the message shows.
pub data Error : Type 0 where
  gauge_not_found counter_not_found : String → Error
  nil_value nil_delta unknown_type : String → Error
  create_failed encode_failed open_failed decode_failed : String → Error
  unavailable : Error

pub data Result (A : Type 0) : Type 0 where
  err : Error → Result A
  ok : A → Result A

-- The files that the process sees: their contents, and where a file can be created.
pub record Files : Type 0 where
  pub contents : String → Option String
  pub can_create : String → Bool

-- The methods, over a state `S`. An `error` result is an `Option`, `nil` being `none`.
pub record Storage (F S : Type 0) : Type 0 where
  pub update_gauge : String → F → S → S
  pub update_counter : String → ℕ → S → S
  pub get_gauge : String → S → Result F
  pub get_counter : String → S → Result ℕ
  pub get_all_gauges : S → GoMap F
  pub get_all_counters : S → GoMap ℕ
  pub save_to_file : String → S → Files → Option Error × Files
  pub load_from_file : String → Files → S → Option Error × S
  pub ping : S → Option Error
  pub is_database : S → Bool
  pub is_available : S → Bool
  pub update_batch : List (Metrics F) → S → Option Error × S
