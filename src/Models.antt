-- ===== src/Models.antt =====
-- internal/models/metrics.go. `F` is float64, a pointer is an `Option`, and an int64 is its bit
-- pattern.
use go_metrics.Common.{ℕ, String, Option}

pub record Metrics (F : Type 0) : Type 0 where
  pub id : String
  pub mtype : String
  pub delta : Option ℕ
  pub value : Option F
  pub hash : String
