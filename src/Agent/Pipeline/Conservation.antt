-- ===== src/Agent/Pipeline/Conservation.antt =====
-- agent.go: where the batches are that the collectors have made.
use go_metrics.Common.{true, false, ℕ, ◌+◌, ◌≡◌, refl, ap, List, [], ◌∷◌, ◌++◌, arith}
use go_metrics.Agent.Pipeline.{
  by_collector, by_transfer, by_submitter, by_pool, Stage, waiting, holding, ended, State, Pass,
  put_runtime, put_system, receive, forward, accept, submit, take, complete, sent, failed,
}
use go_metrics.Agent.Pipeline.Life.{
  of_collector, of_transfer, of_run, of_pool, of_sender, Stop, signal, cancel_run, quit_runtime,
  drop_runtime, quit_system, drop_system, close_collected, put_runtime_closed, put_system_closed,
  end_transfer, drop_transfer, cancel_sender, end_worker, close_tasks, panic_task, submit_closed,
  close_outgoing, give_up, Tick, tick_runtime, tick_system, Run, here, passing, stopping, making,
}

module _ {B : Type 0} (weight : B → ℕ) where
  abbrev pub sum : List B → ℕ
  sum [] = 0
  sum (b ∷ bs) = weight b + sum bs

  pub sum-append : (bs cs : List B) → sum (bs ++ cs) ≡ sum bs + sum cs
  sum-append [] cs = omega arith
  sum-append (b ∷ bs) cs = omega (arith, sum-append bs cs)

  abbrev pub held : Stage B → ℕ
  held waiting = 0
  held (holding b) = weight b
  held ended = 0

  -- The weight of all batches in the state, wherever they are.
  abbrev pub total : State B → ℕ
  total s =
      held s.runtime
      + held s.system
      + sum s.collected
      + held s.transfer
      + sum s.outgoing
      + held s.submitter
      + sum s.tasks
      + sum s.busy
      + sum (sent s.returned)
      + sum (failed s.returned)
      + sum s.dropped

  pub Pass-total : (s t : State B) → Pass s t → total t ≡ total s
  Pass-total s _ (by_collector (put_runtime b e _ _)) =
      omega (arith, ap held e, sum-append s.collected (b ∷ []))
  Pass-total s _ (by_collector (put_system b e _ _)) =
      omega (arith, ap held e, sum-append s.collected (b ∷ []))
  Pass-total s _ (by_transfer (receive b bs e f)) = omega (arith, ap held e, ap sum f)
  Pass-total s _ (by_transfer (forward b e _ _)) =
      omega (arith, ap held e, sum-append s.outgoing (b ∷ []))
  Pass-total s _ (by_submitter (accept b bs e f)) = omega (arith, ap held e, ap sum f)
  Pass-total s _ (by_submitter (submit b e _ _)) =
      omega (arith, ap held e, sum-append s.tasks (b ∷ []))
  Pass-total s _ (by_pool (take b bs n _ f)) = omega (arith, ap sum f)
  Pass-total s _ (by_pool (complete before b after true e)) =
      omega (arith, ap sum e, sum-append before (b ∷ after), sum-append before after)
  Pass-total s _ (by_pool (complete before b after false e)) =
      omega (arith, ap sum e, sum-append before (b ∷ after), sum-append before after)

  pub Stop-total : (s t : State B) → Stop s t → total t ≡ total s
  Stop-total s _ (of_collector (quit_runtime _ e)) = omega (arith, ap held e)
  Stop-total s _ (of_collector (drop_runtime b _ e)) = omega (arith, ap held e)
  Stop-total s _ (of_collector (quit_system _ e)) = omega (arith, ap held e)
  Stop-total s _ (of_collector (drop_system b _ e)) = omega (arith, ap held e)
  Stop-total s _ (of_transfer (end_transfer e _ _)) = omega (arith, ap held e)
  Stop-total s _ (of_transfer (drop_transfer b e _)) = omega (arith, ap held e)
  Stop-total s _ (of_run (signal _)) = refl
  Stop-total s _ (of_run cancel_run) = refl
  Stop-total s _ (of_collector (close_collected _)) = refl
  Stop-total s _ (of_collector (put_runtime_closed _ _ _)) = refl
  Stop-total s _ (of_collector (put_system_closed _ _ _)) = refl
  Stop-total s _ (of_run (cancel_sender _ _)) = refl
  Stop-total s _ (of_pool (end_worker _ _ _)) = refl
  Stop-total s _ (of_pool (close_tasks _ _ _ _)) = refl
  Stop-total s _ (of_pool (panic_task _ _ _ _)) = refl
  Stop-total s _ (of_sender (submit_closed _ _ _)) = refl
  Stop-total s _ (of_sender (close_outgoing _)) = refl
  Stop-total s _ (of_run (give_up _)) = refl

  pub Tick-total : (b : B) (s t : State B) → Tick b s t → total t ≡ weight b + total s
  Tick-total b s _ (tick_runtime _ e) = omega (arith, ap held e)
  Tick-total b s _ (tick_system _ e) = omega (arith, ap held e)

  -- Whatever batches are counted by, those that the collectors have made in a run are all in the
  -- state at its end, each once: with a goroutine, in a channel, among those for which
  -- SendMetricsBatch has returned nil, among those for which it has returned an error, or among those
  -- that a goroutine has dropped when it returned.
  pub Run-total : (s t : State B) (made : List B) → Run s t made → total t ≡ sum made + total s
  Run-total s _ _ here = omega arith
  Run-total s u made (passing {t} _ p r) = omega (arith, Pass-total s t p, Run-total t u made r)
  Run-total s u made (stopping {t} _ p r) = omega (arith, Stop-total s t p, Run-total t u made r)
  Run-total s u _ (making {t} {made} b _ p r) =
      omega (arith, Tick-total b s t p, Run-total t u made r)
