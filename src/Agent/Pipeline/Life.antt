-- ===== src/Agent/Pipeline/Life.antt =====
-- agent.go: the Stop methods and the shutdown of `App.Run`, the ticks, and whole runs.
use go_metrics.Common.{suc, ℕ, ◌≡◌, true, false, List, [], ◌∷◌, ◌++◌}
use go_metrics.Agent.Pipeline.{
  waiting, holding, ended, running, stopping_collector, transferring, stopping_sender, stopped,
  crashed, State, collector_cancelled, workers_cancelled, IsAlive, Pass,
}

module _ {B : Type 0} where
  -- collector.Stop: the two loops return, and the channel is closed. A loop that is left behind sends on
  -- a closed channel.
  pub data CollectorStop : State B → State B → Type 0 where
    quit_runtime :
        {s : State B}
        → collector_cancelled s.phase ≡ true
        → s.runtime ≡ waiting
        → CollectorStop s (record s { runtime = ended })
    drop_runtime :
        {s : State B} (b : B)
        → collector_cancelled s.phase ≡ true
        → s.runtime ≡ holding b
        → CollectorStop s (record s { runtime = ended; dropped = b ∷ s.dropped })
    quit_system :
        {s : State B}
        → collector_cancelled s.phase ≡ true
        → s.system ≡ waiting
        → CollectorStop s (record s { system = ended })
    drop_system :
        {s : State B} (b : B)
        → collector_cancelled s.phase ≡ true
        → s.system ≡ holding b
        → CollectorStop s (record s { system = ended; dropped = b ∷ s.dropped })
    -- Both loops have returned, or three seconds have passed.
    close_collected :
        {s : State B}
        → s.phase ≡ stopping_collector
        → CollectorStop s (record s { phase = transferring; collected_closed = true })
    put_runtime_closed :
        {s : State B} (b : B)
        → s.runtime ≡ holding b
        → s.collected_closed ≡ true
        → CollectorStop s (record s { phase = crashed })
    put_system_closed :
        {s : State B} (b : B)
        → s.system ≡ holding b
        → s.collected_closed ≡ true
        → CollectorStop s (record s { phase = crashed })

  -- The end of the goroutine of `Run`.
  pub data TransferStop : State B → State B → Type 0 where
    end_transfer :
        {s : State B}
        → s.transfer ≡ waiting
        → s.collected ≡ []
        → s.collected_closed ≡ true
        → TransferStop s (record s { transfer = ended })
    drop_transfer :
        {s : State B} (b : B)
        → s.transfer ≡ holding b
        → s.run_cancelled ≡ true
        → TransferStop s (record s { transfer = ended; dropped = b ∷ s.dropped })

  -- pool.Stop, and a task that panics, as nothing recovers it.
  pub data PoolStop : State B → State B → Type 0 where
    -- sender.Stop has cancelled the context that the workers have.
    end_worker :
        {s : State B} (n : ℕ)
        → workers_cancelled s.phase ≡ true
        → s.idle ≡ suc n
        → PoolStop s (record s { idle = n })
    -- All workers have returned; the five seconds that pool.Stop waits else are longer than the three
    -- of sender.Stop, and the process has ended before them.
    close_tasks :
        {s : State B}
        → s.phase ≡ stopping_sender
        → s.tasks_closed ≡ false
        → s.idle ≡ 0
        → s.busy ≡ []
        → PoolStop s (record s { tasks_closed = true })
    panic_task :
        {s : State B} (before : List B) (b : B) (after : List B)
        → s.busy ≡ before ++ b ∷ after
        → PoolStop s (record s { phase = crashed })

  -- The rest of sender.Stop, and the goroutine of sender.Start that it does not wait for.
  pub data SenderStop : State B → State B → Type 0 where
    submit_closed :
        {s : State B} (b : B)
        → s.submitter ≡ holding b
        → s.tasks_closed ≡ true
        → SenderStop s (record s { phase = crashed })
    -- pool.Stop has returned, or three seconds have passed; then `Run` returns, and the process ends.
    close_outgoing :
        {s : State B}
        → s.phase ≡ stopping_sender
        → SenderStop s (record s { phase = stopped; outgoing_closed = true })

  -- The shutdown of `Run`, step by step.
  pub data RunStop : State B → State B → Type 0 where
    signal : {s : State B} → s.phase ≡ running → RunStop s (record s { phase = stopping_collector })
    -- The caller of `Run` cancels its context.
    cancel_run : {s : State B} → RunStop s (record s { run_cancelled = true })
    cancel_sender :
        {s : State B}
        → s.phase ≡ transferring
        → s.transfer ≡ ended
        → RunStop s (record s { phase = stopping_sender })
    -- The ten seconds for the shutdown have passed.
    give_up :
        {s : State B}
        → collector_cancelled s.phase ≡ true
        → RunStop s (record s { phase = stopped })

  -- What happens at the end of the agent's life.
  pub data Stop : State B → State B → Type 0 where
    of_collector : {s t : State B} → CollectorStop s t → Stop s t
    of_transfer : {s t : State B} → TransferStop s t → Stop s t
    of_pool : {s t : State B} → PoolStop s t → Stop s t
    of_sender : {s t : State B} → SenderStop s t → Stop s t
    of_run : {s t : State B} → RunStop s t → Stop s t

  -- A tick of a collecting loop makes a batch.
  pub data Tick : B → State B → State B → Type 0 where
    tick_runtime :
        {s : State B} (b : B) → s.runtime ≡ waiting → Tick b s (record s { runtime = holding b })
    tick_system :
        {s : State B} (b : B) → s.system ≡ waiting → Tick b s (record s { system = holding b })

  -- A run, and the batches that the collectors make in it.
  pub data Run : State B → State B → List B → Type 0 where
    here : {s : State B} → Run s s []
    passing :
        {s t u : State B} {made : List B} → IsAlive s.phase → Pass s t → Run t u made → Run s u made
    stopping :
        {s t u : State B} {made : List B} → IsAlive s.phase → Stop s t → Run t u made → Run s u made
    making :
        {s t u : State B} {made : List B} (b : B)
        → IsAlive s.phase
        → Tick b s t
        → Run t u made
        → Run s u (b ∷ made)
