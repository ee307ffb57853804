-- ===== src/Agent/Pipeline/Shutdown.antt =====
-- agent.go: the agent from the signal on.
use go_metrics.Common.{ℕ, zero, suc, ◌≡◌, refl, ◌⊎◌, inl, inr, true, false, List, []}
use go_metrics.Agent.Pipeline.{
  by_collector, by_transfer, by_submitter, by_pool, waiting, holding, ended, stopping_sender,
  crashed, State, Pass, put_runtime, put_system, receive, forward, accept, submit, take, complete,
}
use go_metrics.Agent.Pipeline.Life.{
  of_collector, of_transfer, of_run, of_pool, of_sender, Stop, signal, cancel_run, quit_runtime,
  drop_runtime, quit_system, drop_system, close_collected, put_runtime_closed, put_system_closed,
  end_transfer, drop_transfer, cancel_sender, end_worker, close_tasks, panic_task, submit_closed,
  close_outgoing, give_up, Tick, tick_runtime, tick_system, Run, here, passing, stopping, making,
}
use go_metrics.Agent.Pipeline.Serving.{IsRunning, Serving}

module _ {B : Type 0} where
  -- The sender is stopped after the transfer has ended, and the transfer ends with its channel closed
  -- and empty, or because its context is done.
  abbrev InOrder : State B → Type 0
  InOrder s =
      (s.phase ≡ stopping_sender → s.transfer ≡ ended)
      × (s.transfer ≡ ended
          → (s.run_cancelled ≡ true) ⊎ ((s.collected ≡ []) × (s.collected_closed ≡ true)))

  Pass-InOrder : (s t : State B) → InOrder s → Pass s t → InOrder t
  Pass-InOrder s _ (p, q) (by_collector (put_runtime b _ o _)) =
      (p, λ e. elim (q e) [ inl c ↦ inl c | inr (_, closed) ↦ cc (closed, o) ])
  Pass-InOrder s _ (p, q) (by_collector (put_system b _ o _)) =
      (p, λ e. elim (q e) [ inl c ↦ inl c | inr (_, closed) ↦ cc (closed, o) ])
  Pass-InOrder s _ (p, q) (by_transfer (receive b bs f _)) =
      (λ e. let g = p e in cc (f, g), λ e. cc e)
  Pass-InOrder s _ (p, q) (by_transfer (forward b f _ _)) =
      (λ e. let g = p e in cc (f, g), λ e. cc e)
  Pass-InOrder s _ i (by_submitter (accept _ _ _ _)) = i
  Pass-InOrder s _ i (by_submitter (submit _ _ _ _)) = i
  Pass-InOrder s _ i (by_pool (take _ _ _ _ _)) = i
  Pass-InOrder s _ i (by_pool (complete _ _ _ _ _)) = i

  Tick-InOrder : (b : B) (s t : State B) → InOrder s → Tick b s t → InOrder t
  Tick-InOrder b s _ i (tick_runtime _ _) = i
  Tick-InOrder b s _ i (tick_system _ _) = i

  Stop-InOrder : (s t : State B) → InOrder s → Stop s t → InOrder t
  Stop-InOrder s _ (p, q) (of_run (signal _)) = (λ e. cc e, q)
  Stop-InOrder s _ (p, q) (of_run cancel_run) = (p, λ e. inl refl)
  Stop-InOrder s _ i (of_collector (quit_runtime _ _)) = i
  Stop-InOrder s _ i (of_collector (drop_runtime _ _ _)) = i
  Stop-InOrder s _ i (of_collector (quit_system _ _)) = i
  Stop-InOrder s _ i (of_collector (drop_system _ _ _)) = i
  Stop-InOrder s _ (p, q) (of_collector (close_collected _)) =
      (λ e. cc e, λ e. elim (q e) [ inl c ↦ inl c | inr (empty, _) ↦ inr (empty, refl) ])
  Stop-InOrder s _ (p, q) (of_collector (put_runtime_closed _ _ _)) = (λ e. cc e, q)
  Stop-InOrder s _ (p, q) (of_collector (put_system_closed _ _ _)) = (λ e. cc e, q)
  Stop-InOrder s _ (p, q) (of_transfer (end_transfer _ empty closed)) =
      (λ e. refl, λ e. inr (empty, closed))
  Stop-InOrder s _ (p, q) (of_transfer (drop_transfer _ _ c)) = (λ e. refl, λ e. inl c)
  Stop-InOrder s _ (p, q) (of_run (cancel_sender _ e)) = (λ _. e, q)
  Stop-InOrder s _ i (of_pool (end_worker _ _ _)) = i
  Stop-InOrder s _ i (of_pool (close_tasks _ _ _ _)) = i
  Stop-InOrder s _ (p, q) (of_pool (panic_task _ _ _ _)) = (λ e. cc e, q)
  Stop-InOrder s _ (p, q) (of_sender (submit_closed _ _ _)) = (λ e. cc e, q)
  Stop-InOrder s _ (p, q) (of_sender (close_outgoing _)) = (λ e. cc e, q)
  Stop-InOrder s _ (p, q) (of_run (give_up _)) = (λ e. cc e, q)

  Run-InOrder : (s t : State B) (made : List B) → InOrder s → Run s t made → InOrder t
  Run-InOrder s _ _ i here = i
  Run-InOrder s t made i (passing {t = m} _ p r) = Run-InOrder m t made (Pass-InOrder s m i p) r
  Run-InOrder s t made i (stopping {t = m} _ p r) = Run-InOrder m t made (Stop-InOrder s m i p) r
  Run-InOrder s t _ i (making {t = m} {made} b _ p r) =
      Run-InOrder m t made (Tick-InOrder b s m i p) r

  Serving-InOrder : (rate : ℕ) (s : State B) → Serving rate s → InOrder s
  Serving-InOrder rate s i = (λ e. let f = i.0.0 in cc (e, f), λ e. absurd (rw e at i.1.2))

  -- The sender of an agent that has served is stopped only when every collected batch has been handed
  -- to it: the channel of the collector is closed and empty, and the transfer has no batch, unless the
  -- context of `Run` is done.
  pub Run-transferred :
      (rate : ℕ) (s t : State B) (made : List B)
      → Serving rate s
      → Run s t made
      → t.phase ≡ stopping_sender
      → t.run_cancelled ≡ false
      → (t.transfer ≡ ended) × (t.collected ≡ []) × (t.collected_closed ≡ true)
  Run-transferred rate s t made i r e live =
      let (p, q) = Run-InOrder s t made (Serving-InOrder rate s i) r in
      elim (q (p e)) [ inl c ↦ cc (c, live) | inr (empty, closed) ↦ (p e, empty, closed) ]

  -- The workers return, the channel of the pool is closed, and the batch is sent into it.
  crashes_submitting :
      (n : ℕ) (b : B) (s : State B)
      → s.phase ≡ stopping_sender
      → s.idle ≡ n
      → s.busy ≡ []
      → s.tasks_closed ≡ false
      → s.submitter ≡ holding b
      → (t : State B) × Run s t [] × (t.phase ≡ crashed)
  crashes_submitting zero b s p i busy closed h = (
    _,
    stopping (rw p tt) (of_pool (close_tasks p closed i busy))
        (stopping (rw p tt) (of_sender (submit_closed b h refl)) here),
    refl,
  )
  crashes_submitting (suc n) b s p i busy closed h =
      let (t, r, e) = crashes_submitting n b (record s { idle = n }) p refl busy closed h in
      (t, stopping (rw p tt) (of_pool (end_worker n (rw p refl) i)) r, e)

  -- A signal can make the agent panic, with a send on a closed channel: so it is wherever a running
  -- agent is idle but for a batch that its sender is about to submit. The workers see that they are
  -- cancelled before they take a task, pool.Stop closes the channel of the tasks, and the goroutine of
  -- sender.Start, which nothing has stopped, submits the batch.
  pub shutdown_crashes :
      (b : B) (s : State B)
      → IsRunning s
      → s.runtime ≡ waiting
      → s.system ≡ waiting
      → s.collected ≡ []
      → s.transfer ≡ waiting
      → s.submitter ≡ holding b
      → s.busy ≡ []
      → (t : State B) × Run s t [] × (t.phase ≡ crashed)
  shutdown_crashes b s i r y c t h busy =
      let last : State B = record s {
        phase = stopping_sender;
        runtime = ended;
        system = ended;
        transfer = ended;
        collected_closed = true;
      } in
      let (u, run, e) = crashes_submitting s.idle b last refl refl busy i.4 h in
      (
        u,
        stopping (rw i.0 tt) (of_run (signal i.0)) (
            stopping tt (of_collector (quit_runtime refl r)) (
              stopping tt (of_collector (quit_system refl y)) (
                stopping tt (of_collector (close_collected refl)) (
                  stopping tt (of_transfer (end_transfer t c refl))
                    (stopping tt (of_run (cancel_sender refl refl)) run))))),
        e,
      )
