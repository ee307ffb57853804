-- ===== src/Tests/Pipelines.antt =====
-- The goroutines of an agent with one worker, whose batches are numbers.
use mathlib.Core.List.{reverse}
use go_metrics.Common.{List, ◌++◌, ℕ, ◌+◌, ◌*◌, ◌≡◌, refl, true, false, false, none, [], ◌∷◌, arith}
use go_metrics.Crypto.Keys.{KeyFiles}
use go_metrics.Agent.Sender.{new_metrics_sender}
use go_metrics.Agent.Program.{App, new_app, new_metrics_collector, running, main}
use go_metrics.Agent.Program.Laws.{main_running, main_delivers}
use go_metrics.Tests.Configs.{host, agent_flags, no_agent_file, agent_config, parsed, no_durations}
use go_metrics.Tests.Servers.{key_codecs}
use go_metrics.Agent.Pipeline.{
  by_collector, by_transfer, by_submitter, by_pool, State, holding, started, put_runtime, receive,
  forward, accept, submit, take, complete, stopping_sender, crashed, ended, sent, failed,
}
use go_metrics.Agent.Pipeline.Life.{
  Stop, of_collector, of_transfer, of_run, tick_runtime, Run, here, passing, stopping, making,
  signal, close_collected, end_transfer, cancel_sender, quit_system, drop_runtime,
}
use go_metrics.Agent.Pipeline.Conservation.{sum, total, Run-total}
use go_metrics.Agent.Pipeline.Serving.{Serving, started-Serving, Run-Serving, IsTaskPanic}
use go_metrics.Agent.Pipeline.Enabled.{hops, AtRest, Pass-hops}
use go_metrics.Agent.Pipeline.Progress.{Passes, done, then, Passes-hops}
use go_metrics.Agent.Pipeline.Order.{puts, tried, Run-ordered}
use go_metrics.Agent.Pipeline.Shutdown.{Run-transferred, shutdown_crashes}

abbrev start : State ℕ
start = started 1

-- The batch 7 is on its way.
abbrev ticked : State ℕ
ticked = record start { runtime = holding 7 }

abbrev all_sent : State ℕ
all_sent = record start { returned = (7, true) ∷ [] }

abbrev submitting : State ℕ
submitting = record start { submitter = holding 7 }

to_submitter : Passes 4 ticked submitting
to_submitter = then (by_collector (put_runtime 7 refl refl (omega arith))) (
    then (by_transfer (receive 7 [] refl refl)) (
      then (by_transfer (forward 7 refl refl (omega arith)))
        (then (by_submitter (accept 7 [] refl refl)) done)))

to_server : Passes 7 ticked all_sent
to_server = then (by_collector (put_runtime 7 refl refl (omega arith))) (
    then (by_transfer (receive 7 [] refl refl)) (
      then (by_transfer (forward 7 refl refl (omega arith))) (
        then (by_submitter (accept 7 [] refl refl)) (
          then (by_submitter (submit 7 refl refl (omega arith))) (
            then (by_pool (take 7 [] 0 refl refl))
              (then (by_pool (complete [] 7 [] true refl)) done))))))

made_seven : Run start submitting (7 ∷ [])
made_seven = making 7 tt (tick_runtime 7 refl) (
    passing tt (by_collector (put_runtime 7 refl refl (omega arith))) (
      passing tt (by_transfer (receive 7 [] refl refl)) (
        passing tt (by_transfer (forward 7 refl refl (omega arith)))
          (passing tt (by_submitter (accept 7 [] refl refl)) here))))

Run-total_example : total (λ b. 1) submitting ≡ sum {B = ℕ} (λ b. 1) (7 ∷ []) + total (λ b. 1) start
Run-total_example = Run-total (λ b. 1) start submitting (7 ∷ []) made_seven

Run-Serving_example :
    Serving 1 submitting
    × (submitting.dropped ≡ [])
    × ((u : State ℕ) (p : Stop submitting u) → u.phase ≡ crashed → IsTaskPanic p)
Run-Serving_example =
    Run-Serving 1 start submitting (7 ∷ []) (started-Serving ℕ 1) made_seven refl refl

Passes-hops_example : 4 + hops submitting ≡ hops ticked
Passes-hops_example = Passes-hops 4 ticked submitting to_submitter

ticked-Serving : Serving 1 ticked
ticked-Serving = started-Serving ℕ 1

abbrev no_keys : KeyFiles
no_keys = record {
  contents = λ f. none;
  can_create = λ f. false;
  can_write = λ f. false;
  cut_off = λ f. [];
}

abbrev agent : App
agent =
    new_app (new_metrics_collector agent_config)
      (new_metrics_sender key_codecs no_keys agent_config)

main_running_example :
    (main host agent_flags no_agent_file key_codecs no_keys ≡ running agent (started {B = ℕ} 1))
    × (agent.collector.poll_interval ≡ 2 * 1000000000)
main_running_example =
    main_running host agent_flags no_agent_file key_codecs no_keys agent_config no_durations parsed
      ℕ

main_delivers_example :
    (7 ≡ hops ticked)
    × AtRest all_sent
    × (sum {B = ℕ} (λ b. 1) (sent all_sent.returned)
          + sum {B = ℕ} (λ b. 1) (failed all_sent.returned)
        ≡ sum {B = ℕ} (λ b. 1) (7 ∷ []))
main_delivers_example =
    main_delivers host agent_flags no_agent_file key_codecs no_keys agent_config no_durations parsed
      (λ b. 1) start ticked all_sent (7 ∷ []) 7 main_running_example.0
      (making 7 tt (tick_runtime 7 refl) here) refl refl to_server
      (λ u p. omega (arith, Pass-hops all_sent u p))

-- The batch of the tick is dropped, as the collector is stopped before it has put it.
abbrev handed_over : State ℕ
handed_over = record start {
  runtime = ended;
  system = ended;
  collected_closed = true;
  transfer = ended;
  dropped = 7 ∷ [];
  phase = stopping_sender;
}

handing_over : Run start handed_over (7 ∷ [])
handing_over = making 7 tt (tick_runtime 7 refl) (
    stopping tt (of_run (signal refl)) (
      stopping tt (of_collector (drop_runtime 7 refl refl)) (
        stopping tt (of_collector (quit_system refl refl)) (
          stopping tt (of_collector (close_collected refl)) (
            stopping tt (of_transfer (end_transfer refl refl refl))
              (stopping tt (of_run (cancel_sender refl refl)) here))))))

Run-transferred_example :
    (handed_over.transfer ≡ ended)
    × (handed_over.collected ≡ [])
    × (handed_over.collected_closed ≡ true)
Run-transferred_example =
    Run-transferred 1 start handed_over (7 ∷ []) (started-Serving ℕ 1) handing_over refl refl

shutdown_crashes_example : (t : State ℕ) × Run submitting t [] × (t.phase ≡ crashed)
shutdown_crashes_example =
    shutdown_crashes 7 submitting (refl, refl, refl, refl, refl) refl refl refl refl refl refl

-- SendMetricsBatch has failed for the batch 7, and 8 waits for the worker.
abbrev one_queued : State ℕ
one_queued = record start { tasks = 8 ∷ []; returned = (7, false) ∷ [] }

failed_one : Run start one_queued (7 ∷ 8 ∷ [])
failed_one = making 7 tt (tick_runtime 7 refl) (
    passing tt (by_collector (put_runtime 7 refl refl (omega arith))) (
      passing tt (by_transfer (receive 7 [] refl refl)) (
        passing tt (by_transfer (forward 7 refl refl (omega arith))) (
          passing tt (by_submitter (accept 7 [] refl refl)) (
            passing tt (by_submitter (submit 7 refl refl (omega arith))) (
              passing tt (by_pool (take 7 [] 0 refl refl)) (
                passing tt (by_pool (complete [] 7 [] false refl)) (
                  making 8 tt (tick_runtime 8 refl) (
                    passing tt (by_collector (put_runtime 8 refl refl (omega arith))) (
                      passing tt (by_transfer (receive 8 [] refl refl)) (
                        passing tt (by_transfer (forward 8 refl refl (omega arith))) (
                          passing tt (by_submitter (accept 8 [] refl refl)) (
                            passing tt (by_submitter (submit 8 refl refl (omega arith)))
                              here)))))))))))))

Run-ordered_example :
    (rest : List ℕ) × (puts failed_one ≡ reverse (tried one_queued.returned) ++ rest)
Run-ordered_example = Run-ordered one_queued (7 ∷ 8 ∷ []) failed_one refl refl
