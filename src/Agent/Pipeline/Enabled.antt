-- ===== src/Agent/Pipeline/Enabled.antt =====
-- agent.go: a running agent that has a batch can hand one on.
use go_metrics.Common.{
  true, ℕ, zero, suc, ◌+◌, ◌*◌, ◌<◌, ◌≡◌, refl, ap, ◌⊎◌, inl, inr, List, [], ◌∷◌, length, arith,
}
use go_metrics.Agent.Pipeline.{
  by_collector, by_transfer, by_submitter, by_pool, Stage, waiting, holding, ended, State, Pass,
  put_runtime, put_system, receive, forward, accept, submit, take, complete,
}
use go_metrics.Agent.Pipeline.Conservation.{sum, sum-append, held}
use go_metrics.Agent.Pipeline.Serving.{Serving, IsOpen}

Nat-cases : (n : ℕ) → 0 < n → (m : ℕ) × (n ≡ suc m)
Nat-cases zero h = absurd (omega (arith, h))
Nat-cases (suc m) h = (m, refl)

module _ {B : Type 0} where
  abbrev pub one : B → ℕ
  one b = 1

  -- The steps that are left for the batches in the state, until the tasks of all of them have returned.
  abbrev pub hops : State B → ℕ
  hops s =
      7 * held one s.runtime
      + 7 * held one s.system
      + 6 * sum one s.collected
      + 5 * held one s.transfer
      + 4 * sum one s.outgoing
      + 3 * held one s.submitter
      + 2 * sum one s.tasks
      + sum one s.busy

  pub Pass-hops : (s t : State B) → Pass s t → hops s ≡ suc (hops t)
  Pass-hops s _ (by_collector (put_runtime b e _ _)) =
      omega (arith, ap (held one) e, sum-append one s.collected (b ∷ []))
  Pass-hops s _ (by_collector (put_system b e _ _)) =
      omega (arith, ap (held one) e, sum-append one s.collected (b ∷ []))
  Pass-hops s _ (by_transfer (receive b bs e f)) = omega (arith, ap (held one) e, ap (sum one) f)
  Pass-hops s _ (by_transfer (forward b e _ _)) =
      omega (arith, ap (held one) e, sum-append one s.outgoing (b ∷ []))
  Pass-hops s _ (by_submitter (accept b bs e f)) = omega (arith, ap (held one) e, ap (sum one) f)
  Pass-hops s _ (by_submitter (submit b e _ _)) =
      omega (arith, ap (held one) e, sum-append one s.tasks (b ∷ []))
  Pass-hops s _ (by_pool (take b bs n _ f)) = omega (arith, ap (sum one) f)
  Pass-hops s _ (by_pool (complete before b after ok e)) =
      omega (arith, ap (sum one) e, sum-append one before (b ∷ after), sum-append one before after)

  -- A list is empty, or has a first element.
  List-cases : (l : List B) → (l ≡ []) ⊎ ((b : B) × (bs : List B) × (l ≡ b ∷ bs))
  List-cases [] = inl refl
  List-cases (b ∷ bs) = inr (b, bs, refl)

  Stage-cases : (g : Stage B) → IsOpen g → (g ≡ waiting) ⊎ ((b : B) × (g ≡ holding b))
  Stage-cases waiting _ = inl refl
  Stage-cases (holding b) _ = inr (b, refl)
  Stage-cases ended h = absurd h

  -- A step that hands a batch on is possible.
  abbrev CanPass : State B → Type 0
  CanPass s = (t : State B) × Pass s t

  -- No goroutine has a batch, and the channels are empty.
  pub record AtRest (s : State B) : Type 0 where
    pub runtime_free : s.runtime ≡ waiting
    pub system_free : s.system ≡ waiting
    pub none_collected : s.collected ≡ []
    pub transfer_free : s.transfer ≡ waiting
    pub none_outgoing : s.outgoing ≡ []
    pub submitter_free : s.submitter ≡ waiting
    pub none_queued : s.tasks ≡ []
    pub none_busy : s.busy ≡ []

  module _ (rate : ℕ) (s : State B) (i : Serving rate s) where
    pool_passes : 0 < rate → CanPass s ⊎ ((s.tasks ≡ []) × (s.busy ≡ []))
    pool_passes h = elim (List-cases s.busy) [
      | inr (b, bs, e) ↦ inl (_, by_pool (complete [] b bs true e))
      | inl none_busy ↦ elim (List-cases s.tasks) [
        | inl none_queued ↦ inr (none_queued, none_busy)
        | inr (b, bs, e) ↦
            let (n, idle) = Nat-cases s.idle (omega (arith, i.2, ap length none_busy)) in
            inl (_, by_pool (take b bs n idle e))
      ]
    ]

    submitter_passes : s.tasks ≡ [] → CanPass s ⊎ ((s.outgoing ≡ []) × (s.submitter ≡ waiting))
    submitter_passes room = elim (Stage-cases s.submitter i.1.3) [
      | inr (b, e) ↦ inl (_, by_submitter (submit b e i.0.4 (omega (arith, ap length room))))
      | inl free ↦ elim (List-cases s.outgoing) [
        | inl nothing ↦ inr (nothing, free)
        | inr (b, bs, e) ↦ inl (_, by_submitter (accept b bs free e))
      ]
    ]

    transfer_passes : s.outgoing ≡ [] → CanPass s ⊎ ((s.collected ≡ []) × (s.transfer ≡ waiting))
    transfer_passes room = elim (Stage-cases s.transfer i.1.2) [
      | inr (b, e) ↦ inl (_, by_transfer (forward b e i.0.3 (omega (arith, ap length room))))
      | inl free ↦ elim (List-cases s.collected) [
        | inl nothing ↦ inr (nothing, free)
        | inr (b, bs, e) ↦ inl (_, by_transfer (receive b bs free e))
      ]
    ]

    collector_passes : s.collected ≡ [] → CanPass s ⊎ ((s.runtime ≡ waiting) × (s.system ≡ waiting))
    collector_passes room = elim (Stage-cases s.runtime i.1.0) [
      | inr (b, e) ↦ inl (_, by_collector (put_runtime b e i.0.2 (omega (arith, ap length room))))
      | inl free ↦ elim (Stage-cases s.system i.1.1) [
        | inr (b, e) ↦ inl (_, by_collector (put_system b e i.0.2 (omega (arith, ap length room))))
        | inl free_too ↦ inr (free, free_too)
      ]
    ]

    -- There is no deadlock: as long as there is a batch to hand on, some goroutine can do so.
    pub CanPass-or_AtRest : 0 < rate → CanPass s ⊎ AtRest s
    CanPass-or_AtRest h = elim (pool_passes h) [
      | inl p ↦ inl p
      | inr (q, b) ↦ elim (submitter_passes q) [
        | inl p ↦ inl p
        | inr (o, u) ↦ elim (transfer_passes o) [
          | inl p ↦ inl p
          | inr (c, t) ↦ elim (collector_passes c) [
            | inl p ↦ inl p
            | inr (r, y) ↦ inr (record {
              runtime_free = r;
              system_free = y;
              none_collected = c;
              transfer_free = t;
              none_outgoing = o;
              submitter_free = u;
              none_queued = q;
              none_busy = b;
            })
          ]
        ]
      ]
    ]
