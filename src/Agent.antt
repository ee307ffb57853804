-- ===== src/Agent.antt =====
-- internal/app/agent.go: the metrics that the agent collects and the request that it sends.
pub mod Collector
pub mod Sender
pub mod Pipeline
pub mod Program
use go_metrics.Common.{ℕ, String, Option, none, some, ◌==◌, if◌then◌else◌}
use go_metrics.Models.{Metrics}
use go_metrics.Strconv.{format_int}
use go_metrics.Hash.{calculate_hash}
use go_metrics.Handlers.{signed_text}

module _ {F : Type 0} (hmac : String → String → String) (format_float : F → String) where
  abbrev gauge_text : String → String → Option F → String
  gauge_text id mtype none = ""
  gauge_text id mtype (some v) = signed_text id mtype (format_float v)

  abbrev counter_text : String → String → Option ℕ → String
  counter_text id mtype none = ""
  counter_text id mtype (some d) = signed_text id mtype (format_int d)

  -- The text that is signed, empty for a metric without its value or of another type.
  abbrev data_text : String → String → Option F → Option ℕ → String
  data_text id mtype value delta =
      if mtype == "gauge"
      then gauge_text id mtype value
      else if mtype == "counter"
      then counter_text id mtype delta
      else ""

  -- NewMetric
  unfoldable pub new_metric : String → String → Option F → Option ℕ → String → Metrics F
  new_metric id mtype value delta key = record {
    id = id;
    mtype = mtype;
    delta = delta;
    value = value;
    hash = if key == "" then "" else calculate_hash hmac (data_text id mtype value delta) key;
  }
