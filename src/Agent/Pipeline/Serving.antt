-- ===== src/Agent/Pipeline/Serving.antt =====
-- agent.go: the agent until the signal.
use go_metrics.Common.{
  ℕ, ◌+◌, ◌≤◌, ◌≡◌, ◌≢◌, refl, inl, inr, ◌∙◌, ap, true, false, List, [], ◌∷◌, ◌++◌, length, arith,
}
use go_metrics.Agent.Pipeline.{
  by_collector, by_transfer, by_submitter, by_pool, Stage, ended, Phase, running, crashed, State,
  started, collector_cancelled, workers_cancelled, capacity, Pass, put_runtime, put_system, receive,
  forward, accept, submit, take, complete,
}
use go_metrics.Agent.Pipeline.Life.{
  of_collector, of_transfer, of_run, of_pool, of_sender, Stop, signal, cancel_run, quit_runtime,
  drop_runtime, quit_system, drop_system, close_collected, put_runtime_closed, put_system_closed,
  end_transfer, drop_transfer, cancel_sender, end_worker, close_tasks, panic_task, submit_closed,
  close_outgoing, give_up, Tick, tick_runtime, tick_system, Run, here, passing, stopping, making,
}
use go_metrics.Agent.Pipeline.Leaving.{Leaving, Run-Leaving}

length-append {ℓ} : {A : Type ℓ} (l m : List A) → length (l ++ m) ≡ length l + length m
length-append [] m = omega arith
length-append (x ∷ l) m = omega (arith, length-append l m)

not_cancelled : (q : Phase) → q ≡ running → collector_cancelled q ≢ true
not_cancelled q e h = let f = rw e at h in cc f

not_workers : (q : Phase) → q ≡ running → workers_cancelled q ≢ true
not_workers q e h = let f = rw e at h in cc f

module _ {B : Type 0} where
  abbrev pub IsOpen : Stage B → Type 0
  IsOpen ended = ⊥
  IsOpen _ = Unit

  -- Nothing is being stopped, and the three channels are open.
  abbrev pub IsRunning : State B → Type 0
  IsRunning s =
      (s.phase ≡ running)
      × (s.run_cancelled ≡ false)
      × (s.collected_closed ≡ false)
      × (s.outgoing_closed ≡ false)
      × (s.tasks_closed ≡ false)

  -- Nor has a goroutine returned; there are `rate` workers, and the channels hold what fits into them.
  abbrev pub Serving : ℕ → State B → Type 0
  Serving rate s =
      IsRunning s
      × (IsOpen s.runtime × IsOpen s.system × IsOpen s.transfer × IsOpen s.submitter)
      × (s.idle + length s.busy ≡ rate)
      × (length s.collected ≤ capacity)
      × (length s.outgoing ≤ capacity)
      × (length s.tasks ≤ capacity)

  pub Pass-Serving : (rate : ℕ) (s t : State B) → Serving rate s → Pass s t → Serving rate t
  Pass-Serving rate s _ (i, (r, y, t, u), w, c, o, k) (by_collector (put_runtime b _ _ f)) =
      (i, (tt, y, t, u), w, omega (arith, f, length-append s.collected (b ∷ [])), o, k)
  Pass-Serving rate s _ (i, (r, y, t, u), w, c, o, k) (by_collector (put_system b _ _ f)) =
      (i, (r, tt, t, u), w, omega (arith, f, length-append s.collected (b ∷ [])), o, k)
  Pass-Serving rate s _ (i, (r, y, t, u), w, c, o, k) (by_transfer (receive b bs _ e)) =
      (i, (r, y, tt, u), w, omega (arith, ap length e), o, k)
  Pass-Serving rate s _ (i, (r, y, t, u), w, c, o, k) (by_transfer (forward b _ _ f)) =
      (i, (r, y, tt, u), w, c, omega (arith, f, length-append s.outgoing (b ∷ [])), k)
  Pass-Serving rate s _ (i, (r, y, t, u), w, c, o, k) (by_submitter (accept b bs _ e)) =
      (i, (r, y, t, tt), w, c, omega (arith, ap length e), k)
  Pass-Serving rate s _ (i, (r, y, t, u), w, c, o, k) (by_submitter (submit b _ _ f)) =
      (i, (r, y, t, tt), w, c, o, omega (arith, f, length-append s.tasks (b ∷ [])))
  Pass-Serving rate s _ (i, ready, w, c, o, k) (by_pool (take b bs n m e)) =
      (i, ready, omega (arith, m), c, o, omega (arith, ap length e))
  Pass-Serving rate s _ (i, ready, w, c, o, k) (by_pool (complete before b after ok e)) = (
    i,
    ready,
    omega (arith, ap length e, length-append before (b ∷ after), length-append before after),
    c,
    o,
    k,
  )

  pub Tick-Serving :
      (rate : ℕ) (b : B) (s t : State B) → Serving rate s → Tick b s t → Serving rate t
  Tick-Serving rate b s _ (i, (r, y, t, u), w, c, o, k) (tick_runtime _ _) =
      (i, (tt, y, t, u), w, c, o, k)
  Tick-Serving rate b s _ (i, (r, y, t, u), w, c, o, k) (tick_system _ _) =
      (i, (r, tt, t, u), w, c, o, k)

  pub Pass-dropped : (s t : State B) → Pass s t → t.dropped ≡ s.dropped
  Pass-dropped s _ (by_collector (put_runtime _ _ _ _)) = refl
  Pass-dropped s _ (by_collector (put_system _ _ _ _)) = refl
  Pass-dropped s _ (by_transfer (receive _ _ _ _)) = refl
  Pass-dropped s _ (by_transfer (forward _ _ _ _)) = refl
  Pass-dropped s _ (by_submitter (accept _ _ _ _)) = refl
  Pass-dropped s _ (by_submitter (submit _ _ _ _)) = refl
  Pass-dropped s _ (by_pool (take _ _ _ _ _)) = refl
  Pass-dropped s _ (by_pool (complete _ _ _ _ _)) = refl

  Tick-dropped : (b : B) (s t : State B) → Tick b s t → t.dropped ≡ s.dropped
  Tick-dropped b s _ (tick_runtime _ _) = refl
  Tick-dropped b s _ (tick_system _ _) = refl

  pub Stop-of_running : (s t : State B) → IsRunning s → Stop s t → Leaving t
  Stop-of_running s _ i (of_run (signal _)) = inl (λ e. cc e)
  Stop-of_running s _ i (of_run cancel_run) = inr refl
  Stop-of_running s _ i (of_collector (quit_runtime c _)) = absurd (not_cancelled s.phase i.0 c)
  Stop-of_running s _ i (of_collector (drop_runtime _ c _)) = absurd (not_cancelled s.phase i.0 c)
  Stop-of_running s _ i (of_collector (quit_system c _)) = absurd (not_cancelled s.phase i.0 c)
  Stop-of_running s _ i (of_collector (drop_system _ c _)) = absurd (not_cancelled s.phase i.0 c)
  Stop-of_running s _ i (of_collector (close_collected c)) = inl (λ e. cc e)
  Stop-of_running s _ i (of_collector (put_runtime_closed _ _ _)) = inl (λ e. cc e)
  Stop-of_running s _ i (of_collector (put_system_closed _ _ _)) = inl (λ e. cc e)
  Stop-of_running s _ i (of_transfer (end_transfer _ _ c)) = cc (i.2, c)
  Stop-of_running s _ i (of_transfer (drop_transfer _ _ c)) = cc (i.1, c)
  Stop-of_running s _ i (of_run (cancel_sender _ _)) = inl (λ e. cc e)
  Stop-of_running s _ i (of_pool (end_worker _ c _)) = absurd (not_workers s.phase i.0 c)
  Stop-of_running s _ i (of_pool (close_tasks c _ _ _)) = cc (i.0, c)
  Stop-of_running s _ i (of_pool (panic_task _ _ _ _)) = inl (λ e. cc e)
  Stop-of_running s _ i (of_sender (submit_closed _ _ _)) = inl (λ e. cc e)
  Stop-of_running s _ i (of_sender (close_outgoing _)) = inl (λ e. cc e)
  Stop-of_running s _ i (of_run (give_up _)) = inl (λ e. cc e)

  -- A step is the panic of a task in a worker.
  abbrev pub IsTaskPanic : {s t : State B} → Stop s t → Type 0
  IsTaskPanic (of_pool (panic_task _ _ _ _)) = Unit
  IsTaskPanic _ = ⊥

  crash-IsTaskPanic :
      (rate : ℕ) (s t : State B)
      → Serving rate s
      → (p : Stop s t) → t.phase ≡ crashed
      → IsTaskPanic p
  crash-IsTaskPanic rate s _ i (of_run (signal _)) e = cc e
  crash-IsTaskPanic rate s _ i (of_run cancel_run) e = cc (i.0.0, e)
  crash-IsTaskPanic rate s _ i (of_run (cancel_sender _ _)) e = cc e
  crash-IsTaskPanic rate s _ i (of_run (give_up _)) e = cc e
  crash-IsTaskPanic rate s _ i (of_collector (quit_runtime _ _)) e = cc (i.0.0, e)
  crash-IsTaskPanic rate s _ i (of_collector (drop_runtime _ _ _)) e = cc (i.0.0, e)
  crash-IsTaskPanic rate s _ i (of_collector (quit_system _ _)) e = cc (i.0.0, e)
  crash-IsTaskPanic rate s _ i (of_collector (drop_system _ _ _)) e = cc (i.0.0, e)
  crash-IsTaskPanic rate s _ i (of_collector (close_collected _)) e = cc e
  crash-IsTaskPanic rate s _ i (of_collector (put_runtime_closed _ _ c)) e = cc (i.0.2, c)
  crash-IsTaskPanic rate s _ i (of_collector (put_system_closed _ _ c)) e = cc (i.0.2, c)
  crash-IsTaskPanic rate s _ i (of_transfer (end_transfer _ _ _)) e = cc (i.0.0, e)
  crash-IsTaskPanic rate s _ i (of_transfer (drop_transfer _ _ _)) e = cc (i.0.0, e)
  crash-IsTaskPanic rate s _ i (of_pool (end_worker _ _ _)) e = cc (i.0.0, e)
  crash-IsTaskPanic rate s _ i (of_pool (close_tasks _ _ _ _)) e = cc (i.0.0, e)
  crash-IsTaskPanic rate s _ i (of_pool (panic_task _ _ _ _)) e = tt
  crash-IsTaskPanic rate s _ i (of_sender (submit_closed _ _ c)) e = cc (i.0.4, c)
  crash-IsTaskPanic rate s _ i (of_sender (close_outgoing _)) e = cc e

  Run-of_running :
      (rate : ℕ) (s t : State B) (made : List B)
      → Serving rate s
      → Run s t made
      → t.phase ≡ running
      → t.run_cancelled ≡ false
      → Serving rate t × (t.dropped ≡ s.dropped)
  Run-of_running rate s _ _ i here _ _ = (i, refl)
  Run-of_running rate s t made i (passing {t = m} _ p r) e f =
      let (j, kept) = Run-of_running rate m t made (Pass-Serving rate s m i p) r e f in
      (j, kept ∙ Pass-dropped s m p)
  Run-of_running rate s t made i (stopping {t = m} _ p r) e f =
      elim (Run-Leaving m t made (Stop-of_running s m i.0 p) r) [
        | inl left ↦ absurd (left e)
        | inr done ↦ cc (f, done)
      ]
  Run-of_running rate s t _ i (making {t = m} {made} b _ p r) e f =
      let (j, kept) = Run-of_running rate m t made (Tick-Serving rate b s m i p) r e f in
      (j, kept ∙ Tick-dropped b s m p)

  -- While `Run` waits for a signal, its context is live and no goroutine has panicked, the agent has
  -- dropped no batch, none of its goroutines has returned, its channels are open and hold at most 100
  -- batches each, and it has as many workers as at its start, idle or busy. Its next step can be a
  -- panic only as the panic of a task that a worker runs.
  pub Run-Serving :
      (rate : ℕ) (s t : State B) (made : List B)
      → Serving rate s
      → Run s t made
      → t.phase ≡ running
      → t.run_cancelled ≡ false
      → Serving rate t
        × (t.dropped ≡ s.dropped)
        × ((u : State B) (p : Stop t u) → u.phase ≡ crashed → IsTaskPanic p)
  Run-Serving rate s t made i r e f =
      let (j, kept) = Run-of_running rate s t made i r e f in
      (j, kept, λ u p. crash-IsTaskPanic rate t u j p)

pub started-Serving : (B : Type 0) (rate : ℕ) → Serving rate (started {B = B} rate)
started-Serving B rate = (
  (refl, refl, refl, refl, refl),
  (tt, tt, tt, tt),
  omega arith,
  omega arith,
  omega arith,
  omega arith,
)
