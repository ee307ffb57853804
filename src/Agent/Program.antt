-- ===== src/Agent/Program.antt =====
-- cmd/agent/main.go, with NewMetricsCollector and NewApp of internal/app/agent.go: the program of the
-- agent, up to the goroutines that it starts.
pub mod Laws
use go_metrics.Common.{ℕ, ◌*◌, ◌%◌, ◌^◌, String, List, Option, if◌then◌else◌}
use go_metrics.Crypto.{Rsa}
use go_metrics.Crypto.Keys.{KeyCodecs, KeyFiles}
use go_metrics.Config.{Host, Loaded, ok, err, AgentJsonConfig, is_positive}
use go_metrics.Config.Agent.{AgentConfig, FlagValues, parse_agent_config}
use go_metrics.Agent.Sender.{MetricsSender, new_metrics_sender}
use go_metrics.Agent.Pipeline.{State, started}

-- time.Duration(n) * time.Second, an int64 of nanoseconds.
abbrev pub times_second : ℕ → ℕ
times_second n = (n * 1000000000) % 2 ^ 64

-- `MetricsCollector`, less its channel and its context.
pub record MetricsCollector : Type 0 where
  pub poll_interval : ℕ
  pub key : String

unfoldable pub new_metrics_collector : AgentConfig → MetricsCollector
new_metrics_collector cfg = record { poll_interval = times_second cfg.poll_interval; key = cfg.key }

pub record App : Type 0 where
  pub collector : MetricsCollector
  pub sender : MetricsSender

unfoldable pub new_app : MetricsCollector → MetricsSender → App
new_app collector sender = record { collector = collector; sender = sender }

-- How the program begins: log.Fatal, a panic of time.NewTicker in the two loops, or the goroutines.
pub data Begun (B : Type 0) : Type 0 where
  fatal panicked : Begun B
  running : App → State B → Begun B

-- The Start methods, which App.Run calls first. time.NewTicker panics for a period that is not
-- positive. The pool has its workers.
unfoldable pub start : {B : Type 0} → App → Begun B
start app =
    if is_positive app.collector.poll_interval
    then running app (started app.sender.pool_size)
    else panicked

module _ {K : Type 0} (host : Host) (parse : FlagValues → List String → Option FlagValues)
    (unmarshal : String → AgentJsonConfig → Option AgentJsonConfig) (key_codecs : KeyCodecs K Rsa)
    (key_files : KeyFiles) where
  unfoldable pub main : {B : Type 0} → Begun B
  unfolding start new_app new_metrics_collector new_metrics_sender
  main = elim (parse_agent_config host parse unmarshal) [
    | err e ↦ fatal
    | ok cfg ↦
        start (new_app (new_metrics_collector cfg) (new_metrics_sender key_codecs key_files cfg))
  ]
