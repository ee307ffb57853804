-- ===== src/Agent/Pipeline/Leaving.antt =====
-- agent.go: an agent that is being stopped, or has panicked, does not come back.
use go_metrics.Common.{◌≡◌, ◌≢◌, refl, ◌⊎◌, inl, inr, true, List}
use go_metrics.Agent.Pipeline.{
  by_collector, by_transfer, by_submitter, by_pool, running, State, Pass, put_runtime, put_system,
  receive, forward, accept, submit, take, complete,
}
use go_metrics.Agent.Pipeline.Life.{
  of_collector, of_transfer, of_run, of_pool, of_sender, Stop, signal, cancel_run, quit_runtime,
  drop_runtime, quit_system, drop_system, close_collected, put_runtime_closed, put_system_closed,
  end_transfer, drop_transfer, cancel_sender, end_worker, close_tasks, panic_task, submit_closed,
  close_outgoing, give_up, Tick, tick_runtime, tick_system, Run, here, passing, stopping, making,
}

module _ {B : Type 0} where
  -- The agent no longer waits for a signal, or its context is done: and so it stays.
  abbrev pub Leaving : State B → Type 0
  Leaving s = (s.phase ≢ running) ⊎ (s.run_cancelled ≡ true)

  Pass-Leaving : (s t : State B) → Leaving s → Pass s t → Leaving t
  Pass-Leaving s _ l (by_collector (put_runtime _ _ _ _)) = l
  Pass-Leaving s _ l (by_collector (put_system _ _ _ _)) = l
  Pass-Leaving s _ l (by_transfer (receive _ _ _ _)) = l
  Pass-Leaving s _ l (by_transfer (forward _ _ _ _)) = l
  Pass-Leaving s _ l (by_submitter (accept _ _ _ _)) = l
  Pass-Leaving s _ l (by_submitter (submit _ _ _ _)) = l
  Pass-Leaving s _ l (by_pool (take _ _ _ _ _)) = l
  Pass-Leaving s _ l (by_pool (complete _ _ _ _ _)) = l

  Tick-Leaving : (b : B) (s t : State B) → Leaving s → Tick b s t → Leaving t
  Tick-Leaving b s _ l (tick_runtime _ _) = l
  Tick-Leaving b s _ l (tick_system _ _) = l

  Stop-Leaving : (s t : State B) → Leaving s → Stop s t → Leaving t
  Stop-Leaving s _ l (of_run (signal _)) = inl (λ e. cc e)
  Stop-Leaving s _ l (of_run cancel_run) = inr refl
  Stop-Leaving s _ l (of_collector (quit_runtime _ _)) = l
  Stop-Leaving s _ l (of_collector (drop_runtime _ _ _)) = l
  Stop-Leaving s _ l (of_collector (quit_system _ _)) = l
  Stop-Leaving s _ l (of_collector (drop_system _ _ _)) = l
  Stop-Leaving s _ l (of_collector (close_collected _)) = inl (λ e. cc e)
  Stop-Leaving s _ l (of_collector (put_runtime_closed _ _ _)) = inl (λ e. cc e)
  Stop-Leaving s _ l (of_collector (put_system_closed _ _ _)) = inl (λ e. cc e)
  Stop-Leaving s _ l (of_transfer (end_transfer _ _ _)) = l
  Stop-Leaving s _ l (of_transfer (drop_transfer _ _ _)) = l
  Stop-Leaving s _ l (of_run (cancel_sender _ _)) = inl (λ e. cc e)
  Stop-Leaving s _ l (of_pool (end_worker _ _ _)) = l
  Stop-Leaving s _ l (of_pool (close_tasks _ _ _ _)) = l
  Stop-Leaving s _ l (of_pool (panic_task _ _ _ _)) = inl (λ e. cc e)
  Stop-Leaving s _ l (of_sender (submit_closed _ _ _)) = inl (λ e. cc e)
  Stop-Leaving s _ l (of_sender (close_outgoing _)) = inl (λ e. cc e)
  Stop-Leaving s _ l (of_run (give_up _)) = inl (λ e. cc e)

  pub Run-Leaving : (s t : State B) (made : List B) → Leaving s → Run s t made → Leaving t
  Run-Leaving s _ _ l here = l
  Run-Leaving s t made l (passing {t = m} _ p r) = Run-Leaving m t made (Pass-Leaving s m l p) r
  Run-Leaving s t made l (stopping {t = m} _ p r) = Run-Leaving m t made (Stop-Leaving s m l p) r
  Run-Leaving s t _ l (making {t = m} {made} b _ p r) =
      Run-Leaving m t made (Tick-Leaving b s m l p) r
