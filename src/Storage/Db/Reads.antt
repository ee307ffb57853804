-- ===== src/Storage/Db/Reads.antt =====
-- internal/storage/database.go: the methods that read.
use go_metrics.Common.{ℕ, String, Option, none, some, List, [], ◌∷◌, ◌==◌, if◌then◌else◌}
use go_metrics.GoMap.{GoMap, assign}
use go_metrics.Storage.{gauge, counter}
use go_metrics.Retry.{
  GoError, Outcome, success, failed, panicked, wrap, default_retry_config, retry, with_variable,
}
use go_metrics.Storage.Db.{Answer, answer, error, FullRow, Pg, named, logged}

-- What is returned: the variable, or zero and the error with its prefix.
abbrev pub result_of : {A W : Type 0} → A → String → Outcome × (A × W) → (A × Outcome) × W
result_of zero_value prefix (success, (value, w)) = ((value, success), w)
result_of zero_value prefix (failed e, (value, w)) = ((zero_value, failed (wrap prefix e)), w)
result_of zero_value prefix (panicked, (value, w)) = ((zero_value, panicked), w)

abbrev pub scan_into : {A W : Type 0} → (W → Answer A × W) → A × W → Option GoError × (A × W)
scan_into query (old, w) = elim (query w).0 [
  | answer a ↦ (none, (a, (query w).1))
  | error e ↦ (some e, (old, (query w).1))
]

-- The rows of `rows.Next`, in their order, those that `Scan` refuses left out.
unfoldable pub assign_rows : {V : Type 0} → List (Option (String × V)) → GoMap V → GoMap V
assign_rows [] m = m
assign_rows (none ∷ rows) m = assign_rows rows m
assign_rows (some (k, v) ∷ rows) m = assign_rows rows (assign k v m)

-- An `interface{}` of GetAllMetrics.
pub data Number (F : Type 0) : Type 0 where
  float64 : F → Number F
  int64 : ℕ → Number F

abbrev assign_counter : {F : Type 0} → FullRow F → GoMap (Number F) → GoMap (Number F)
assign_counter r m = elim r.delta [
  | some d ↦ if r.type == counter then assign r.name (int64 d) m else m
  | none ↦ m
]

module _ {F W : Type 0} (pg : Pg F W) where
  unfoldable pub get_gauge : F → String → W → (F × Outcome) × W
  get_gauge zero_value name w = result_of zero_value (named "failed to get gauge metric " name) (
      retry (with_variable (pg.within 10 w)) default_retry_config (scan_into (pg.select_gauge name))
        (zero_value, w))

  unfoldable pub get_counter : String → W → (ℕ × Outcome) × W
  get_counter name w = result_of 0 (named "failed to get counter metric " name) (
      retry (with_variable (pg.within 10 w)) default_retry_config
        (scan_into (pg.select_counter name)) (0, w))

  unfoldable pub get_all_gauges : W → GoMap F × W
  get_all_gauges w = elim (pg.select_gauges w).0 [
    | error e ↦ ([], (pg.select_gauges w).1)
    | answer rows ↦ (assign_rows rows [], (pg.select_gauges w).1)
  ]

  unfoldable pub get_all_counters : W → GoMap ℕ × W
  get_all_counters w = elim (pg.select_counters w).0 [
    | error e ↦ ([], (pg.select_counters w).1)
    | answer rows ↦ (assign_rows rows [], (pg.select_counters w).1)
  ]

  -- One row of GetAllMetrics: a gauge and a counter of one name have one key.
  unfoldable pub assign_row : FullRow F → GoMap (Number F) → GoMap (Number F)
  assign_row r m = elim r.value [
    | some v ↦ if r.type == gauge then assign r.name (float64 v) m else assign_counter r m
    | none ↦ assign_counter r m
  ]

  unfoldable pub assign_full_rows : List (FullRow F) → GoMap (Number F) → GoMap (Number F)
  assign_full_rows [] m = m
  assign_full_rows (r ∷ rows) m = assign_full_rows rows (assign_row r m)

  unfoldable pub read_all : GoMap (Number F) × W → Option GoError × (GoMap (Number F) × W)
  read_all (m, w) = elim (pg.select_all w).0 [
    | error e ↦ (some e, (m, (pg.select_all w).1))
    | answer (rows, e) ↦ (e, (assign_full_rows rows m, (pg.select_all w).1))
  ]

  -- The map of all rounds is one: what a failed round has put into it stays.
  unfoldable pub get_all_metrics : W → (GoMap (Number F) × Outcome) × W
  get_all_metrics w =
      let (out, (m, v)) =
        retry (with_variable (pg.within 10 w)) default_retry_config read_all ([], w) in
      ((m, logged out), v)
