-- ===== src/Agent/Program/Laws.antt =====
-- What every agent does that gets past its configuration.
use go_metrics.Common.{
  ℕ, ◌+◌, ◌*◌, ◌^◌, ◌≤◌, ◌<◌, ◌≡◌, refl, ap, ◌∙◌, false, String, List, [], Option, arith,
}
use go_metrics.Crypto.{Rsa}
use go_metrics.Crypto.Keys.{KeyCodecs, KeyFiles}
use go_metrics.Config.{Host, ok, AgentJsonConfig}
use go_metrics.Config.Durations.{HasDurations}
use go_metrics.Config.Agent.{AgentConfig, FlagValues, parse_agent_config}
use go_metrics.Config.Agent.Laws.{parse_agent_config-IsUsable}
use go_metrics.Config.Agent.Bounds.{parse_agent_config_bound}
use go_metrics.Agent.Sender.{new_metrics_sender}
use go_metrics.Agent.Program.{
  times_second, new_metrics_collector, App, new_app, running, start, main,
}
use go_metrics.Agent.Pipeline as Pipeline
use go_metrics.Agent.Pipeline.{State, started, Pass, sent, failed}
use go_metrics.Agent.Pipeline.Life.{Run}
use go_metrics.Agent.Pipeline.Conservation.{sum, total, Run-total}
use go_metrics.Agent.Pipeline.Serving.{started-Serving, Run-Serving}
use go_metrics.Agent.Pipeline.Enabled.{hops, AtRest}
use go_metrics.Agent.Pipeline.Progress.{Passes, delivers}

-- A number of seconds that a time.Duration can have does not wrap around.
times_second_exact :
    (n : ℕ) → n ≤ 9223372036 → (times_second n ≡ n * 1000000000) × (times_second n < 2 ^ 63)
times_second_exact n h = (omega arith, omega arith)

module _ {K : Type 0} (host : Host) (parse : FlagValues → List String → Option FlagValues)
    (unmarshal : String → AgentJsonConfig → Option AgentJsonConfig) (key_codecs : KeyCodecs K Rsa)
    (key_files : KeyFiles) (cfg : AgentConfig) (durations : HasDurations host)
    (parsed : parse_agent_config host parse unmarshal ≡ ok cfg) where
  abbrev app : App
  app = new_app (new_metrics_collector cfg) (new_metrics_sender key_codecs key_files cfg)

  -- Every configuration that ParseAgentConfig returns gets the agent to its goroutines, as many
  -- workers as it names among them: the period of its tickers is the poll interval in nanoseconds, which
  -- does not wrap around, so that time.NewTicker does not panic.
  pub main_running :
      (B : Type 0)
      → (main host parse unmarshal key_codecs key_files
          ≡ running app (started {B = B} cfg.rate_limit))
        × (app.collector.poll_interval ≡ cfg.poll_interval * 1000000000)
  unfolding main start new_app new_metrics_collector new_metrics_sender
  main_running B =
      let usable = parse_agent_config-IsUsable host parse unmarshal cfg parsed in
      let bound = parse_agent_config_bound host durations parse unmarshal cfg parsed in
      let (exact, fits) = times_second_exact cfg.poll_interval bound in
      (ground (arith, parsed, exact, fits, usable.poll), exact)

  -- Whatever an agent's collectors have made by ticks until a time before the signal, while the context
  -- of Run is live and nothing has panicked: where its goroutines have then gone as far as they can
  -- without new ticks, each task returning, SendMetricsBatch has been called for exactly these
  -- batches, once for each, and has returned nil or an error; this took as many steps as the batches had
  -- left, and none is left in the agent. This holds of every configuration that ParseAgentConfig
  -- returns, whatever batches are counted by.
  pub main_delivers :
      {B : Type 0} (weight : B → ℕ) (s t u : State B) (made : List B) (k : ℕ)
      → main host parse unmarshal key_codecs key_files ≡ running app s
      → Run s t made
      → t.phase ≡ Pipeline.running
      → t.run_cancelled ≡ false
      → Passes k t u
      → ((v : State B) → ¬ Pass u v)
      → (k ≡ hops t)
        × AtRest u
        × (sum weight (sent u.returned) + sum weight (failed u.returned) ≡ sum weight made)
  main_delivers {B} weight s t u made k begun run live context passes halted =
      let s_is : started cfg.rate_limit ≡ s = cc ((main_running B).0, begun) in
      let usable = parse_agent_config-IsUsable host parse unmarshal cfg parsed in
      let (serving, kept, _) =
        Run-Serving cfg.rate_limit s t made (rw (← s_is) (started-Serving B cfg.rate_limit)) run
          live context in
      let (steps, (rest, all)) =
        delivers cfg.rate_limit k t u serving usable.workers.0 passes halted in
      let nothing : s.dropped ≡ [] = rw (← s_is) refl in
      let empty : total weight s ≡ 0 = rw (← s_is) refl in
      (
        steps,
        rest,
        omega (
          arith,
          all weight,
          ap (sum weight) (kept ∙ nothing),
          Run-total weight s t made run,
          empty,
        ),
      )
