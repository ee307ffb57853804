-- ===== src/Agent/Collector.antt =====
-- agent.go, `MetricsCollector`: what one tick of each of the two collecting loops puts into the
-- channel.
pub mod Laws
use Prim.Native.String
use go_metrics.Common.{ℕ, ◌+◌, String, Option, none, some, List, [], ◌∷◌, ◌++◌, add64}
use go_metrics.GoMap.{GoMap, assign, Order}
use go_metrics.Models.{Metrics}
use go_metrics.Strconv.{format_int}
use go_metrics.Agent.{new_metric}

-- What a tick reads: the fields of runtime.MemStats as float64 values, by their names, and
-- rand.Float64.
pub record Sample (F : Type 0) : Type 0 where
  pub mem_stats : String → F
  pub random : F

abbrev pub gauge_names : List String
gauge_names =
    "Alloc" ∷ "BuckHashSys" ∷ "Frees" ∷ "GCCPUFraction" ∷ "GCSys" ∷ "HeapAlloc" ∷ "HeapIdle"
    ∷ "HeapInuse" ∷ "HeapObjects" ∷ "HeapReleased" ∷ "HeapSys" ∷ "LastGC" ∷ "Lookups"
    ∷ "MCacheInuse" ∷ "MCacheSys" ∷ "MSpanInuse" ∷ "MSpanSys" ∷ "Mallocs" ∷ "NextGC" ∷ "NumForcedGC"
    ∷ "NumGC" ∷ "OtherSys" ∷ "PauseTotalNs" ∷ "StackInuse" ∷ "StackSys" ∷ "Sys" ∷ "TotalAlloc" ∷ []

-- gopsutil: the total and free memory, and the load of each processor, `none` for an error.
pub record SystemSample (F : Type 0) : Type 0 where
  pub memory : Option (F × F)
  pub cpu : Option (List F)

module _ {F : Type 0} where
  -- The map literal of CollectRuntimeMetricsData.
  abbrev pub gauges_of : List String → (String → F) → GoMap F
  gauges_of [] read = []
  gauges_of (n ∷ ns) read = (n, read n) ∷ gauges_of ns read

module _ {F : Type 0} (hmac : String → String → String) (format_float : F → String)
    (order : Order (String × F)) (key : String) where
  abbrev pub new_gauge : String → F → Metrics F
  new_gauge name v = new_metric hmac format_float name "gauge" (some v) none key

  abbrev pub new_counter : String → ℕ → Metrics F
  new_counter name d = new_metric hmac format_float name "counter" none (some d) key

  abbrev pub gauge_metrics : List (String × F) → List (Metrics F)
  gauge_metrics [] = []
  gauge_metrics ((n, v) ∷ l) = new_gauge n v ∷ gauge_metrics l

  unfoldable pub collect_runtime_metrics_data : Sample F → List (Metrics F)
  collect_runtime_metrics_data s =
      gauge_metrics (order.visit (gauges_of gauge_names s.mem_stats))
      ++ new_gauge "RandomValue" s.random ∷ []

  -- A tick of collectRuntimeMetrics, with the count of polls before it.
  unfoldable pub runtime_tick : ℕ → Sample F → List (Metrics F) × ℕ
  unfolding collect_runtime_metrics_data
  runtime_tick polls s =
      let count = add64 polls 1 in
      (collect_runtime_metrics_data s ++ new_counter "PollCount" count ∷ [], count)

  -- The batches of the ticks of the loop, from a count of polls on.
  unfoldable pub collect_runtime_metrics : ℕ → List (Sample F) → List (List (Metrics F))
  unfolding runtime_tick
  collect_runtime_metrics polls [] = []
  collect_runtime_metrics polls (s ∷ ss) =
      let (batch, count) = runtime_tick polls s in batch ∷ collect_runtime_metrics count ss

  abbrev memory_metrics : Option (F × F) → List (Metrics F)
  memory_metrics none = []
  memory_metrics (some (total, free)) =
      new_gauge "TotalMemory" total ∷ new_gauge "FreeMemory" free ∷ []

  abbrev cpu_metrics : ℕ → List F → List (Metrics F)
  cpu_metrics i [] = []
  cpu_metrics i (p ∷ ps) =
      new_gauge (String.◌++◌ "CPUutilization" (format_int (i + 1))) p ∷ cpu_metrics (i + 1) ps

  abbrev all_cpu_metrics : Option (List F) → List (Metrics F)
  all_cpu_metrics none = []
  all_cpu_metrics (some ps) = cpu_metrics 0 ps

  unfoldable pub collect_system_metrics_data : SystemSample F → List (Metrics F)
  collect_system_metrics_data s = memory_metrics s.memory ++ all_cpu_metrics s.cpu
