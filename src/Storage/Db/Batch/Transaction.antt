-- ===== src/Storage/Db/Batch/Transaction.antt =====
-- database.go, the transaction of `UpdateBatch`: what one attempt leaves in the table.
use go_metrics.Common.{
  ℕ, ◌≡◌, ◌≢◌, refl, ◌∙◌, sym, ap, ◌⊎◌, inl, inr, Option, none, some, List, [], ◌∷◌, arith, eq_iff,
  Option-cases, Bool-cases, ◌==◌,
}
use go_metrics.Models.{Metrics}
use go_metrics.Storage.{gauge, counter}
use go_metrics.Retry.{GoError}
use go_metrics.Storage.Db.{Pg, tx_metric, tx_loop, attempt}
use go_metrics.Storage.Db.Table.{Table, Statement, upsert_gauge, upsert_counter, effect, effect_all}
use go_metrics.Storage.Db.Specification.{
  IsPostgres, FailsCleanly, nothing, gauge_set, counter_added, no_value, no_delta, Writes,
}
use go_metrics.Storage.Db.Delivery.{Performs}

module _ {F W : Type 0} (pg : Pg F W) (table pending : W → Table F)
    (laws : IsPostgres pg table pending) where
  -- The ways that a round of the loop can go.
  data Round (m : Metrics F) (w : W) (out : Option GoError × W) : Type 0 where
    sets :
        (v : F)
        → m.mtype ≡ gauge
        → m.value ≡ some v
        → out.1 ≡ (pg.tx_exec (upsert_gauge m.id v) w).1
        → (out.0 ≡ none → (pg.tx_exec (upsert_gauge m.id v) w).0 ≡ none)
        → Round m w out
    adds :
        (d : ℕ)
        → m.mtype ≡ counter
        → m.delta ≡ some d
        → out.1 ≡ (pg.tx_exec (upsert_counter m.id d) w).1
        → (out.0 ≡ none → (pg.tx_exec (upsert_counter m.id d) w).0 ≡ none)
        → Round m w out
    skips_gauge : m.mtype ≡ gauge → m.value ≡ none → out.1 ≡ w → Round m w out
    skips_counter : m.mtype ≡ counter → m.delta ≡ none → out.1 ≡ w → Round m w out
    unknown : out.1 ≡ w → out.0 ≢ none → Round m w out

  Round-gauge : (m : Metrics F) (w : W) → m.mtype ≡ gauge → Round m w (tx_metric pg m w)
  unfolding tx_metric
  Round-gauge m w t = elim (Option-cases m.value) [
    | inl e ↦ skips_gauge t e (rw (t, e) refl)
    | inr (v, e) ↦ sets v t e (rw (t, e) refl) (rw (t, e) (λ h. ground (arith, h)))
  ]

  Round-counter : (m : Metrics F) (w : W) → m.mtype ≡ counter → Round m w (tx_metric pg m w)
  unfolding tx_metric
  Round-counter m w t = elim (Option-cases m.delta) [
    | inl e ↦ skips_counter t e (rw (t, e) refl)
    | inr (v, e) ↦ adds v t e (rw (t, e) refl) (rw (t, e) (λ h. ground (arith, h)))
  ]

  round : (m : Metrics F) (w : W) → Round m w (tx_metric pg m w)
  unfolding tx_metric
  round m w = elim (Bool-cases (m.mtype == gauge)) [
    | inl g ↦ Round-gauge m w ((eq_iff m.mtype gauge).0 g)
    | inr g ↦ elim (Bool-cases (m.mtype == counter)) [
      | inl c ↦ Round-counter m w ((eq_iff m.mtype counter).0 c)
      | inr c ↦ unknown (ground (arith, g, c)) (ground (arith, g, c))
    ]
  ]

  tx_metric_kept : (m : Metrics F) (w : W) → table (tx_metric pg m w).1 ≡ table w
  tx_metric_kept m w = elim (round m w) [
    | sets v _ _ e _ ↦ ap table e ∙ laws.tx_exec_kept (upsert_gauge m.id v) w
    | adds d _ _ e _ ↦ ap table e ∙ laws.tx_exec_kept (upsert_counter m.id d) w
    | skips_gauge _ _ e ↦ ap table e
    | skips_counter _ _ e ↦ ap table e
    | unknown e _ ↦ ap table e
  ]

  effect_all-cons :
      (s : Statement F) (ss : List (Statement F)) (t u v : Table F)
      → effect s t ≡ some u
      → effect_all ss u ≡ some v
      → effect_all (s ∷ ss) t ≡ some v
  effect_all-cons s ss t u v e f = rw (effect_all, e) f

  tx_metric_done :
      (m : Metrics F) (ms : List (Metrics F)) (w : W) (u : Table F)
      → (tx_metric pg m w).0 ≡ none
      → Writes ms (pending (tx_metric pg m w).1) u
      → Writes (m ∷ ms) (pending w) u
  tx_metric_done m ms w u done (ss, wants, e) = elim (round m w) [
    | sets v t value same ok ↦
        let s = upsert_gauge m.id v in
        (
          s ∷ ss,
          gauge_set t value wants,
          effect_all-cons s ss (pending w) _ u (laws.tx_exec_done s w (ok done)) (rw (← same) e),
        )
    | adds d t delta same ok ↦
        let s = upsert_counter m.id d in
        (
          s ∷ ss,
          counter_added t delta wants,
          effect_all-cons s ss (pending w) _ u (laws.tx_exec_done s w (ok done)) (rw (← same) e),
        )
    | skips_gauge t value same ↦ (ss, no_value t value wants, rw (← same) e)
    | skips_counter t delta same ↦ (ss, no_delta t delta wants, rw (← same) e)
    | unknown _ refused ↦ absurd (refused done)
  ]

  -- A round that ends without an error is followed by the rest; one that does not ends the loop.
  tx_loop-cons :
      (m : Metrics F) (ms : List (Metrics F)) (w : W)
      → (((tx_metric pg m w).0 ≡ none)
          × (tx_loop pg (m ∷ ms) w ≡ tx_loop pg ms (tx_metric pg m w).1))
        ⊎ (((tx_loop pg (m ∷ ms) w).0 ≢ none) × ((tx_loop pg (m ∷ ms) w).1 ≡ (tx_metric pg m w).1))
  unfolding tx_loop
  tx_loop-cons m ms w = elim (Option-cases (tx_metric pg m w).0) [
    | inl e ↦ inl (e, rw (tx_loop, e) refl)
    | inr (x, e) ↦ inr (rw (tx_loop, e) (λ h. cc h), rw (tx_loop, e) refl)
  ]

  -- A loop that ends without an error has committed the batch.
  tx_loop_done :
      (ms : List (Metrics F)) (w : W)
      → (tx_loop pg ms w).0 ≡ none
      → Writes ms (pending w) (table (tx_loop pg ms w).1)
  unfolding tx_loop
  tx_loop_done [] w done = ([], nothing, ap some (sym (laws.commit_done w done)))
  tx_loop_done (m ∷ ms) w done = elim (tx_loop-cons m ms w) [
    | inl (ok, e) ↦
        tx_metric_done m ms w _ ok (rw e (tx_loop_done ms (tx_metric pg m w).1 (rw e at done)))
    | inr (refused, _) ↦ absurd (refused done)
  ]

  tx_loop_failed :
      (ms : List (Metrics F)) (w : W) (x : GoError)
      → (tx_loop pg ms w).0 ≡ some x
      → (table (tx_loop pg ms w).1 ≡ table w) ⊎ Writes ms (pending w) (table (tx_loop pg ms w).1)
  unfolding tx_loop
  tx_loop_failed [] w x fails = elim (laws.commit_failed w x fails) [
    | inl kept ↦ inl kept
    | inr written ↦ inr ([], nothing, ap some (sym written))
  ]
  tx_loop_failed (m ∷ ms) w x fails = elim (tx_loop-cons m ms w) [
    | inr (_, e) ↦ inl (ap table e ∙ tx_metric_kept m w)
    | inl (ok, e) ↦ elim (tx_loop_failed ms (tx_metric pg m w).1 x (rw e at fails)) [
      | inl kept ↦ inl (rw e (kept ∙ tx_metric_kept m w))
      | inr written ↦ inr (tx_metric_done m ms w _ ok (rw e written))
    ]
  ]

  tx_loop_clean :
      (ms : List (Metrics F)) (w : W) (x : GoError)
      → FailsCleanly pg table
      → (tx_loop pg ms w).0 ≡ some x
      → table (tx_loop pg ms w).1 ≡ table w
  unfolding tx_loop
  tx_loop_clean [] w x clean fails = clean w x fails
  tx_loop_clean (m ∷ ms) w x clean fails = elim (tx_loop-cons m ms w) [
    | inr (_, e) ↦ ap table e ∙ tx_metric_kept m w
    | inl (ok, e) ↦
        rw e (tx_loop_clean ms (tx_metric pg m w).1 x clean (rw e at fails) ∙ tx_metric_kept m w)
  ]

  -- A Begin that fails ends the attempt; after one that does not, the loop runs, and the rollback.
  attempt-cases :
      (ms : List (Metrics F)) (w : W)
      → (((attempt pg ms w).0 ≢ none) × ((attempt pg ms w).1 ≡ (pg.begin w).1))
        ⊎ (((pg.begin w).0 ≡ none)
            × (attempt pg ms w
                ≡ ((tx_loop pg ms (pg.begin w).1).0, pg.rollback (tx_loop pg ms (pg.begin w).1).1)))
  unfolding attempt
  attempt-cases ms w = elim (Option-cases (pg.begin w).0) [
    | inl e ↦ inr (e, rw (attempt, e) refl)
    | inr (x, e) ↦ inl (rw (attempt, e) (λ h. cc h), rw (attempt, e) refl)
  ]

  pub attempt-Performs : (ms : List (Metrics F)) → Performs table (Writes ms) (attempt pg ms)
  attempt-Performs ms = record {
    done = λ w done. elim (attempt-cases ms w) [
      | inl (refused, _) ↦ absurd (refused done)
      | inr (began, e) ↦
          let wrote = tx_loop_done ms (pg.begin w).1 (rw e at done) in
          rw (e, laws.rollback_kept) (rw (laws.begin_done w began) at wrote)
    ];
    unsure = λ w x fails. elim (attempt-cases ms w) [
      | inl (_, e) ↦ inl (ap table e ∙ laws.begin_kept w)
      | inr (began, e) ↦ elim (tx_loop_failed ms (pg.begin w).1 x (rw e at fails)) [
        | inl kept ↦ inl (rw (e, laws.rollback_kept) (kept ∙ laws.begin_kept w))
        | inr wrote ↦ inr (rw (e, laws.rollback_kept) (rw (laws.begin_done w began) at wrote))
      ]
    ];
  }

  pub attempt_clean :
      (ms : List (Metrics F)) (w : W) (x : GoError)
      → FailsCleanly pg table
      → (attempt pg ms w).0 ≡ some x
      → table (attempt pg ms w).1 ≡ table w
  attempt_clean ms w x clean fails = elim (attempt-cases ms w) [
    | inl (_, e) ↦ ap table e ∙ laws.begin_kept w
    | inr (_, e) ↦
        rw (e, laws.rollback_kept)
          (tx_loop_clean ms (pg.begin w).1 x clean (rw e at fails) ∙ laws.begin_kept w)
  ]
