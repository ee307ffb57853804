-- ===== src/Storage/Db.antt =====
-- internal/storage/database.go: the storage in PostgreSQL. `W` is the world: the
-- server, the connections to it and the clock.
pub mod Table
pub mod Reads
pub mod Migrations
pub mod Specification
pub mod Delivery
pub mod Batch
pub mod Readings
pub mod Single
pub mod ReadBack
pub mod Refinement
pub mod Listing
use Prim.Native.String
use go_metrics.Common.{
  ℕ, String, Bool, true, false, Option, none, some, List, [], ◌∷◌, ◌==◌, if◌then◌else◌,
}
use go_metrics.GoMap.{GoMap, assign}
use go_metrics.Models.{Metrics}
use go_metrics.Storage.{gauge, counter}
use go_metrics.Retry.{
  GoError, Env, Outcome, success, failed, panicked, wrap, default_retry_config, retry,
}
use go_metrics.Storage.Db.Table.{Statement, upsert_gauge, upsert_counter}

-- What a query returns: its answer, or an error.
pub data Answer (A : Type 0) : Type 0 where
  answer : A → Answer A
  error : GoError → Answer A

-- The columns name, type, value and delta of a row.
pub record FullRow (F : Type 0) : Type 0 where
  pub name : String
  pub type : String
  pub value : Option F
  pub delta : Option ℕ

-- The calls of pgxpool and of a transaction. The two single selects are those of GetGauge and
-- GetCounter with their `Scan`; in the answers of `select_gauges` and `select_counters`, `none` is a
-- row that `Scan` refuses. `select_all` has the rows up to one that `Scan` refuses, with the error of
-- that or of `rows.Err`. `within n w` is a context with a deadline `n` seconds after `w`.
pub record Pg (F W : Type 0) : Type 0 where
  pub exec : Statement F → W → Option GoError × W
  pub begin : W → Option GoError × W
  pub tx_exec : Statement F → W → Option GoError × W
  pub commit : W → Option GoError × W
  pub rollback : W → W
  pub select_gauge : String → W → Answer F × W
  pub select_counter : String → W → Answer ℕ × W
  pub select_gauges : W → Answer (List (Option (String × F))) × W
  pub select_counters : W → Answer (List (Option (String × ℕ))) × W
  pub select_all : W → Answer (List (FullRow F) × Option GoError) × W
  pub ping : ℕ → W → Option GoError × W
  pub close : W → W
  pub within : ℕ → W → Env W

-- fmt.Errorf with no error in it.
abbrev pub new_error : String → GoError
new_error text = record { net_timeout = none; pg_code = none; is_closed = false; text = text }

abbrev pub named : String → String → String
named prefix name = String.◌++◌ prefix (String.◌++◌ name ": ")

-- An error that is only logged; a panic goes on.
abbrev pub logged : Outcome → Outcome
logged success = success
logged (failed e) = success
logged panicked = panicked

abbrev failing : {W : Type 0} → String → Option GoError × W → Option GoError × W
failing prefix (e, w) = (elim e [ none ↦ none | some x ↦ some (wrap prefix x) ], w)

module _ {F W : Type 0} (pg : Pg F W) where
  unfoldable pub ping : W → Option GoError × W
  ping w = pg.ping 5 w

  unfoldable pub close : W → Option GoError × W
  close w = (none, pg.close w)

  unfoldable pub update_gauge : String → F → W → Outcome × W
  update_gauge name value w =
      let (out, v) =
        retry (pg.within 10 w) default_retry_config (pg.exec (upsert_gauge name value)) w in
      (logged out, v)

  unfoldable pub update_counter : String → ℕ → W → Outcome × W
  update_counter name value w =
      let (out, v) =
        retry (pg.within 10 w) default_retry_config (pg.exec (upsert_counter name value)) w in
      (logged out, v)

  -- The two stubs that the interface asks for.
  unfoldable pub save_to_file : String → W → Option GoError × W
  save_to_file filename w = (none, w)

  unfoldable pub load_from_file : String → W → Option GoError × W
  load_from_file filename w = (none, w)

  unfoldable pub is_database : W → Bool
  is_database w = true

  -- One round of the loop of `UpdateBatch`; a metric without its value is passed over.
  unfoldable pub tx_metric : Metrics F → W → Option GoError × W
  tx_metric m w =
      if m.mtype == gauge
      then elim m.value [
        | none ↦ (none, w)
        | some value ↦
            failing (named "failed to update gauge metric " m.id)
              (pg.tx_exec (upsert_gauge m.id value) w)
      ]
      else if m.mtype == counter
      then elim m.delta [
        | none ↦ (none, w)
        | some delta ↦
            failing (named "failed to update counter metric " m.id)
              (pg.tx_exec (upsert_counter m.id delta) w)
      ]
      else (some (new_error (String.◌++◌ "unknown metric type: " m.mtype)), w)

  -- The loop, and the commit behind it.
  unfoldable pub tx_loop : List (Metrics F) → W → Option GoError × W
  tx_loop [] w = pg.commit w
  tx_loop (m ∷ ms) w =
      let (e, v) = tx_metric m w in elim e [ some x ↦ (some x, v) | none ↦ tx_loop ms v ]

  -- The function that `UpdateBatch` retries; the rollback is deferred, and runs on every return.
  unfoldable pub attempt : List (Metrics F) → W → Option GoError × W
  attempt ms w =
      let (b, v) = pg.begin w in
      elim b [
        | some e ↦ (some (wrap "failed to begin transaction: " e), v)
        | none ↦ let (e, u) = tx_loop ms v in (e, pg.rollback u)
      ]

  unfoldable pub update_batch : List (Metrics F) → W → Outcome × W
  update_batch [] w = (success, w)
  update_batch (m ∷ ms) w = retry (pg.within 30 w) default_retry_config (attempt (m ∷ ms)) w
