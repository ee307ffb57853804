-- ===== src/Agent/Pipeline/Order.antt =====
-- agent.go: the order in which the tasks of the batches return.
use mathlib.Core.List.{append-nil, reverse, reverse-cons, append_assoc}
use go_metrics.Common.{
  ℕ, suc, ◌+◌, ◌<◌, ◌≡◌, refl, sym, ap, ◌∙◌, inl, inr, Bool, true, false, List, [], ◌∷◌, ◌++◌,
  length, arith,
}
use go_metrics.Crypto.Bytes.{length-append}
use go_metrics.Agent.Pipeline.{
  Stage, waiting, holding, ended, running, State, put_runtime, put_system, receive, forward, accept,
  submit, take, complete, Pass, by_collector, by_transfer, by_submitter, by_pool, started, capacity,
  sent,
}
use go_metrics.Agent.Pipeline.Life.{
  Tick, tick_runtime, tick_system, Run, here, passing, stopping, making,
}
use go_metrics.Agent.Pipeline.Leaving.{Run-Leaving}
use go_metrics.Agent.Pipeline.Serving.{
  Serving, Pass-Serving, Tick-Serving, Stop-of_running, started-Serving,
}

module _ {B : Type 0} where
  abbrev staged : Stage B → List B
  staged waiting = []
  staged (holding b) = b ∷ []
  staged ended = []

  -- The batches for which SendMetricsBatch has returned.
  abbrev pub tried : List (B × Bool) → List B
  tried [] = []
  tried ((b, ok) ∷ l) = b ∷ tried l

  -- The batches that have been put into the channel of the collector, the oldest first.
  abbrev line : State B → List B
  line s =
      reverse (tried s.returned)
      ++ (s.busy
          ++ (s.tasks
              ++ (staged s.submitter ++ (s.outgoing ++ (staged s.transfer ++ s.collected)))))

  -- What a step puts into it.
  abbrev put_by : {s t : State B} → Pass s t → List B
  put_by (by_collector (put_runtime b _ _ _)) = b ∷ []
  put_by (by_collector (put_system b _ _ _)) = b ∷ []
  put_by (by_transfer p) = []
  put_by (by_submitter p) = []
  put_by (by_pool p) = []

  -- What the collectors put into their channel in a run, in this order.
  abbrev pub puts : {s t : State B} {made : List B} → Run s t made → List B
  puts here = []
  puts (passing _ p r) = put_by p ++ puts r
  puts (stopping _ p r) = puts r
  puts (making b _ p r) = puts r

  -- With one worker.
  one_free : (n : ℕ) (busy : List B) → suc n + length busy ≡ 1 → busy ≡ []
  one_free n [] e = refl
  one_free n (b ∷ bs) e = absurd (omega (arith, e))

  one_busy :
      (n : ℕ) (before : List B) (b : B) (after : List B)
      → n + length (before ++ b ∷ after) ≡ 1
      → (before ≡ []) × (after ≡ [])
  one_busy n [] b [] e = (refl, refl)
  one_busy n [] b (c ∷ after) e = absurd (omega (arith, e))
  one_busy n (c ∷ before) b after e = absurd (omega (arith, e, length-append before (b ∷ after)))

  Pass-line : (s t : State B) → Serving 1 s → (p : Pass s t) → line t ≡ line s ++ put_by p
  Pass-line s _ i (by_collector (put_runtime b e _ _)) = simp append_assoc
  Pass-line s _ i (by_collector (put_system b e _ _)) = simp append_assoc
  Pass-line s _ i (by_transfer (receive b bs e f)) = simp (e, f, append-nil)
  Pass-line s _ i (by_transfer (forward b e _ _)) = simp (e, append_assoc, append-nil)
  Pass-line s _ i (by_submitter (accept b bs e f)) = simp (e, f, append-nil)
  Pass-line s _ i (by_submitter (submit b e _ _)) = simp (e, append_assoc, append-nil)
  Pass-line s _ i (by_pool (take b bs n e f)) =
      let none_busy = one_free n s.busy (sym (ap (λ k. k + length s.busy) e) ∙ i.2) in
      simp (none_busy, f, append-nil)
  Pass-line s _ i (by_pool (complete before b after ok e)) =
      let (none_before, none_after) =
        one_busy s.idle before b after (sym (ap (λ l. s.idle + length l) e) ∙ i.2) in
      simp (e, none_before, none_after, reverse-cons b (tried s.returned), append_assoc, append-nil)

  Tick-line : (b : B) (s t : State B) → Tick b s t → line t ≡ line s
  Tick-line b s _ (tick_runtime _ _) = refl
  Tick-line b s _ (tick_system _ _) = refl

  -- While an agent with one worker serves, what the collectors have put into their channel stays in
  -- the same order: the batches that have been tried, those in the agent and nothing else are in line.
  Run-line :
      (s t : State B) (made : List B)
      → Serving 1 s
      → (r : Run s t made) → t.phase ≡ running
      → t.run_cancelled ≡ false
      → line t ≡ line s ++ puts r
  Run-line s _ _ i here _ _ = simp append-nil
  Run-line s t made i (passing {t = m} _ p r) e f =
      Run-line m t made (Pass-Serving 1 s m i p) r e f
      ∙ ap (λ l. l ++ puts r) (Pass-line s m i p)
      ∙ append_assoc (line s) (put_by p) (puts r)
  Run-line s t made i (stopping {t = m} _ p r) e f =
      elim (Run-Leaving m t made (Stop-of_running s m i.0 p) r) [
        | inl left ↦ absurd (left e)
        | inr done ↦ cc (f, done)
      ]
  Run-line s t _ i (making {t = m} {made} b _ p r) e f =
      Run-line m t made (Tick-Serving 1 b s m i p) r e f ∙ ap (λ l. l ++ puts r) (Tick-line b s m p)

  -- Two batches that wait for two workers.
  abbrev two_tasks : B → B → State B
  two_tasks b c = record (started 2) { tasks = b ∷ c ∷ [] }

  abbrev swapped : B → B → State B
  swapped b c = record (started 2) { returned = (b, true) ∷ (c, true) ∷ [] }

  -- From the tick to the channel of the tasks, for an agent that holds nothing else.
  queued :
      (b : B) (ts : List B) (t : State B) (made : List B)
      → length ts < capacity
      → Run (record (started 2) { tasks = ts ++ b ∷ [] }) t made
      → Run (record (started 2) { tasks = ts }) t (b ∷ made)
  queued b ts t made h r = making b tt (tick_runtime b refl) (
      passing tt (by_collector (put_runtime b refl refl (omega arith))) (
        passing tt (by_transfer (receive b [] refl refl)) (
          passing tt (by_transfer (forward b refl refl (omega arith))) (
            passing tt (by_submitter (accept b [] refl refl))
              (passing tt (by_submitter (submit b refl refl h)) r)))))

  -- Two workers take the tasks, and the second one is the first to be done.
  overtaking : (b c : B) → Run (two_tasks b c) (swapped b c) []
  overtaking b c = passing tt (by_pool (take b (c ∷ []) 1 refl refl)) (
      passing tt (by_pool (take c [] 0 refl refl)) (
        passing tt (by_pool (complete [] c (b ∷ []) true refl))
          (passing tt (by_pool (complete [] b [] true refl)) here)))

  -- With two workers, a batch that is put later can be sent earlier.
  pub Run-overtaking :
      (b c : B)
      → (r : Run (started 2) (swapped b c) (b ∷ c ∷ [])) × (puts r ≡ b ∷ c ∷ [])
        × (reverse (sent (swapped b c).returned) ≡ c ∷ b ∷ [])
  unfolding queued overtaking
  Run-overtaking b c = (
    queued b [] (swapped b c) (c ∷ []) (omega arith)
        (queued c (b ∷ []) (swapped b c) [] (omega arith) (overtaking b c)),
    refl,
    refl,
  )

  -- With one worker, while `Run` waits for a signal, its context is live and no goroutine has panicked,
  -- the batches for which SendMetricsBatch has returned, with nil or with an error, are the beginning of
  -- what the collectors have put into their channel, in the same order: no batch overtakes another.
  pub Run-ordered :
      (t : State B) (made : List B) (r : Run (started 1) t made)
      → t.phase ≡ running
      → t.run_cancelled ≡ false
      → (rest : List B) × (puts r ≡ reverse (tried t.returned) ++ rest)
  Run-ordered t made r e f = (_, sym (Run-line (started 1) t made (started-Serving B 1) r e f))
