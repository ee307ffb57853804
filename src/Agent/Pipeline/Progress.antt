-- ===== src/Agent/Pipeline/Progress.antt =====
-- agent.go: what the running agent has collected comes to SendMetricsBatch.
use go_metrics.Common.{ℕ, zero, suc, ◌+◌, ◌<◌, ◌≡◌, refl, ◌∙◌, ap, inl, inr, arith}
use go_metrics.Agent.Pipeline.{State, Pass, sent, failed}
use go_metrics.Agent.Pipeline.Conservation.{sum, total, Pass-total}
use go_metrics.Agent.Pipeline.Serving.{Serving, Pass-Serving, Pass-dropped}
use go_metrics.Agent.Pipeline.Enabled.{one, hops, Pass-hops, AtRest, CanPass-or_AtRest}

module _ {B : Type 0} where
  -- `k` steps in which batches are handed on.
  pub data Passes : ℕ → State B → State B → Type 0 where
    done : {s : State B} → Passes 0 s s
    then : {k : ℕ} {s t u : State B} → Pass s t → Passes k t u → Passes (suc k) s u

  -- Without new ticks the agent comes to rest: each batch is handed on a fixed number of times, whatever
  -- order the goroutines run in.
  pub Passes-hops : (k : ℕ) (s t : State B) → Passes k s t → k + hops t ≡ hops s
  Passes-hops _ s _ done = omega arith
  Passes-hops _ s u (then {k} {t} p ps) = omega (arith, Pass-hops s t p, Passes-hops k t u ps)

  AtRest-total :
      (weight : B → ℕ) (s : State B)
      → AtRest s
      → total weight s
        ≡ sum weight (sent s.returned) + sum weight (failed s.returned) + sum weight s.dropped
  AtRest-total weight s r =
      rw
        (
          r.runtime_free, r.system_free, r.none_collected, r.transfer_free, r.none_outgoing,
          r.submitter_free, r.none_queued, r.none_busy,
        )
        (omega arith)

  Passes-kept :
      (rate : ℕ) (weight : B → ℕ) (k : ℕ) (s t : State B)
      → Serving rate s
      → Passes k s t
      → Serving rate t × (total weight t ≡ total weight s) × (t.dropped ≡ s.dropped)
  Passes-kept rate weight _ s _ i done = (i, refl, refl)
  Passes-kept rate weight _ s u i (then {k} {t} p ps) =
      let (j, e, f) = Passes-kept rate weight k t u (Pass-Serving rate s t i p) ps in
      (j, e ∙ Pass-total weight s t p, f ∙ Pass-dropped s t p)

  -- For everything that is in the state `s`, SendMetricsBatch has returned in `t`, with nil or with an
  -- error, and nothing has been dropped, whatever batches are counted by.
  abbrev pub AllTried : State B → State B → Type 0
  AllTried s t =
      AtRest t
      × ((weight : B → ℕ)
          → sum weight (sent t.returned) + sum weight (failed t.returned) + sum weight s.dropped
            ≡ total weight s)

  AtRest-hops : (s : State B) → AtRest s → hops s ≡ 0
  AtRest-hops s r =
      rw
        (
          r.runtime_free, r.system_free, r.none_collected, r.transfer_free, r.none_outgoing,
          r.submitter_free, r.none_queued, r.none_busy,
        )
        refl

  Passes-AllTried :
      (rate k : ℕ) (s t : State B)
      → Serving rate s
      → Passes k s t
      → AtRest t
      → (k ≡ hops s) × AllTried s t
  Passes-AllTried rate k s t i ps rest = (
    omega (arith, Passes-hops k s t ps, AtRest-hops t rest),
    (
      rest,
      λ weight.
          let (_, e, f) = Passes-kept rate weight k s t i ps in
          omega (arith, e, ap (sum weight) f, AtRest-total weight t rest),
    ),
  )

  -- A serving agent with at least one worker calls SendMetricsBatch for everything it has, on every way
  -- on which its goroutines go as far as they can without new ticks and every task returns, and in as
  -- many steps as the batches have left.
  pub delivers :
      (rate k : ℕ) (s t : State B)
      → Serving rate s
      → 0 < rate
      → Passes k s t
      → ((u : State B) → ¬ Pass t u)
      → (k ≡ hops s) × AllTried s t
  delivers rate k s t i h ps halted =
      elim (CanPass-or_AtRest rate t (Passes-kept rate one k s t i ps).0 h) [
        | inl (u, p) ↦ absurd (halted u p)
        | inr rest ↦ Passes-AllTried rate k s t i ps rest
      ]

  comes_to_rest :
      (rate n : ℕ) (s : State B)
      → hops s ≡ n
      → Serving rate s
      → 0 < rate
      → (t : State B) × (k : ℕ) × Passes k s t × AtRest t
  comes_to_rest rate zero s e i h = elim (CanPass-or_AtRest rate s i h) [
    | inl (t, p) ↦ absurd (omega (arith, e, Pass-hops s t p))
    | inr rest ↦ (s, 0, done, rest)
  ]
  comes_to_rest rate (suc n) s e i h = elim (CanPass-or_AtRest rate s i h) [
    | inl (t, p) ↦
        let (u, k, ps, rest) =
          comes_to_rest rate n t (omega (arith, e, Pass-hops s t p)) (Pass-Serving rate s t i p)
            h in
        (u, suc k, then p ps, rest)
    | inr rest ↦ (s, 0, done, rest)
  ]

  -- There is such a way: from wherever a serving agent with at least one worker is, its goroutines can
  -- bring everything that they and the channels hold to SendMetricsBatch.
  pub drains :
      (rate : ℕ) (s : State B)
      → Serving rate s
      → 0 < rate
      → (t : State B) × Passes (hops s) s t × AllTried s t
  drains rate s i h =
      let (t, k, ps, rest) = comes_to_rest rate (hops s) s refl i h in
      let (steps, tried) = Passes-AllTried rate k s t i ps rest in (t, rw steps at ps, tried)
