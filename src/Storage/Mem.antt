-- ===== src/Storage/Mem.antt =====
-- internal/storage/memstorage.go: the storage that keeps its metrics in two maps. Every method
-- holds the lock from its first access to the maps to its last, and is one step here.
pub mod Laws
pub mod Batch
pub mod Persistence
use go_metrics.Common.{
  ℕ, String, Bool, true, false, Option, none, some, List, [], ◌∷◌, add64, ◌==◌, if◌then◌else◌,
}
use go_metrics.GoMap.{GoMap, index, assign, Order, copy_map}
use go_metrics.Models.{Metrics}
use go_metrics.Storage.{
  gauge, counter, Error, gauge_not_found, counter_not_found, nil_value, nil_delta, unknown_type,
  create_failed, encode_failed, open_failed, decode_failed, Result, ok, err, Files, Storage,
}

pub record MemStorage (F : Type 0) : Type 0 where
  pub gauges : GoMap F
  pub counters : GoMap ℕ

-- `storageDump`, the value that is written to the file.
pub record StorageDump (F : Type 0) : Type 0 where
  pub gauges : GoMap F
  pub counters : GoMap ℕ

-- What the Go runtime decides: the orders of `range`, and encoding/json on a dump. `encode` is
-- `none` where `Encode` returns an error, as it does for a gauge that is NaN or infinite.
pub record Runtime (F : Type 0) : Type 0 where
  pub gauge_order : Order (String × F)
  pub counter_order : Order (String × ℕ)
  pub encode : StorageDump F → Option String
  pub decode : String → Option (StorageDump F)

-- A missing key reads as zero.
abbrev or_zero : Option ℕ → ℕ
or_zero none = 0
or_zero (some v) = v

abbrev pub found : {A : Type 0} → Error → Option A → Result A
found e none = err e
found e (some v) = ok v

module _ {F : Type 0} where
  unfoldable pub new_mem_storage : MemStorage F
  new_mem_storage = record { gauges = []; counters = [] }

  unfoldable pub update_gauge : String → F → MemStorage F → MemStorage F
  update_gauge name value s = record s { gauges = assign name value s.gauges }

  -- s.counters[name] += value
  unfoldable pub update_counter : String → ℕ → MemStorage F → MemStorage F
  update_counter name value s = record s {
    counters = assign name (add64 (or_zero (index name s.counters)) value) s.counters;
  }

  unfoldable pub get_gauge : String → MemStorage F → Result F
  get_gauge name s = found (gauge_not_found name) (index name s.gauges)

  unfoldable pub get_counter : String → MemStorage F → Result ℕ
  get_counter name s = found (counter_not_found name) (index name s.counters)

  unfoldable pub ping : MemStorage F → Option Error
  ping s = none

  unfoldable pub is_database : MemStorage F → Bool
  is_database s = false

  unfoldable pub is_available : MemStorage F → Bool
  is_available s = true

  -- One round of the loop of `UpdateBatch`.
  unfoldable pub update_metric : Metrics F → MemStorage F → Option Error × MemStorage F
  update_metric m s =
      if m.mtype == gauge
      then elim m.value [
        | none ↦ (some (nil_value m.id), s)
        | some v ↦ (none, update_gauge m.id v s)
      ]
      else if m.mtype == counter
      then elim m.delta [
        | none ↦ (some (nil_delta m.id), s)
        | some d ↦ (none, update_counter m.id d s)
      ]
      else (some (unknown_type m.mtype), s)

  -- The loop, and with it the method: on an empty list it returns at once.
  unfoldable pub update_batch : List (Metrics F) → MemStorage F → Option Error × MemStorage F
  update_batch [] s = (none, s)
  update_batch (m ∷ ms) s =
      let (e, s') = update_metric m s in
      elim e [ some x ↦ (some x, s') | none ↦ update_batch ms s' ]

  module _ (rt : Runtime F) where
    unfoldable pub get_all_gauges : MemStorage F → GoMap F
    get_all_gauges s = copy_map rt.gauge_order s.gauges

    unfoldable pub get_all_counters : MemStorage F → GoMap ℕ
    get_all_counters s = copy_map rt.counter_order s.counters

    unfoldable pub dump_of : MemStorage F → StorageDump F
    dump_of s = record {
      gauges = copy_map rt.gauge_order s.gauges;
      counters = copy_map rt.counter_order s.counters;
    }

    -- os.Create truncates the file, and `Encode` writes nothing to it if it fails.
    abbrev write_file : Files → String → String → Files
    write_file fs filename text = record fs {
      contents = λ f. if filename == f then some text else fs.contents f;
    }

    unfoldable pub save_to_file : String → MemStorage F → Files → Option Error × Files
    unfolding dump_of
    save_to_file filename s fs =
        if fs.can_create filename
        then elim (rt.encode (dump_of s)) [
          | none ↦ (some (encode_failed filename), write_file fs filename "")
          | some text ↦ (none, write_file fs filename text)
        ]
        else (some (create_failed filename), fs)

    -- The maps are replaced by copies of the dump's.
    abbrev restore : StorageDump F → MemStorage F
    restore dump = record {
      gauges = copy_map rt.gauge_order dump.gauges;
      counters = copy_map rt.counter_order dump.counters;
    }

    unfoldable pub load_from_file : String → Files → MemStorage F → Option Error × MemStorage F
    load_from_file filename fs s = elim (fs.contents filename) [
      | none ↦ (some (open_failed filename), s)
      | some text ↦ elim (rt.decode text) [
        | none ↦ (some (decode_failed filename), s)
        | some dump ↦ (none, restore dump)
      ]
    ]

    -- `MemStorage` as a `Storage`.
    abbrev pub mem_storage : Storage F (MemStorage F)
    mem_storage = record {
      update_gauge = update_gauge;
      update_counter = update_counter;
      get_gauge = get_gauge;
      get_counter = get_counter;
      get_all_gauges = get_all_gauges;
      get_all_counters = get_all_counters;
      save_to_file = save_to_file;
      load_from_file = load_from_file;
      ping = ping;
      is_database = is_database;
      is_available = is_available;
      update_batch = update_batch;
    }
