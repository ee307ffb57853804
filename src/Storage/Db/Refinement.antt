-- ===== src/Storage/Db/Refinement.antt =====
-- A batch in PostgreSQL against the specification that MemStorage is held to.
use go_metrics.Common.{
  ℕ, String, ◌≡◌, ◌≢◌, refl, ap, ◌∙◌, none, some, List, [], ◌∷◌, All, Option-cases, inl, inr,
}
use go_metrics.Models.{Metrics}
use go_metrics.Storage.{gauge, counter}
use go_metrics.Storage.Updates.{
  update_of, Update, set_gauge, add_counter, Asks, more, gauge_after_all, counter_after_all,
}
use go_metrics.Storage.Updates.Laws.{update_of-gauge, update_of-counter}
use go_metrics.Storage.Db.Table.{Table, Statement, upsert_gauge, upsert_counter, effect, effect_all}
use go_metrics.Storage.Db.Specification.{
  gauge_in, counter_in, IsValid, Wants, gauge_set, counter_added, no_value, no_delta,
}
use go_metrics.Storage.Db.{Pg, update_batch}
use go_metrics.Storage.Db.Readings.{InRange, statement, effect_Reads}
use go_metrics.Storage.Db.Specification.{IsPostgres, FailsCleanly}
use go_metrics.Storage.Db.Batch.{update_batch-Once}
use go_metrics.Retry.Rule.{Ends, Ends-map}

module _ {F : Type 0} where
  abbrev statements : List (Update F) → List (Statement F)
  statements [] = []
  statements (u ∷ us) = statement u ∷ statements us

  -- What the statements of a list of updates do to the readings.
  pub record ReadsAll (us : List (Update F)) (t t' : Table F) : Type 0 where
    pub gauges : (n : String) → gauge_in n t' ≡ gauge_after_all n us (gauge_in n t)
    pub counters : (n : String) → counter_in n t' ≡ counter_after_all n us (counter_in n t)
    pub valid : IsValid t'

  effect_all-ReadsAll :
      (us : List (Update F)) (t t' : Table F)
      → All InRange us
      → IsValid t
      → effect_all (statements us) t ≡ some t'
      → ReadsAll us t t'
  effect_all-ReadsAll [] t t' h valid e =
      let same : t ≡ t' = cc e in
      rw (← same) (record { gauges = λ n. refl; counters = λ n. refl; valid = valid })
  effect_all-ReadsAll (u ∷ us) t t' (h, hs) valid e = elim (Option-cases (effect (statement u) t)) [
    | inl f ↦ let g = rw (effect_all, f) at e in cc g
    | inr (v, f) ↦
        let step = effect_Reads u t v h valid f in
        let rest = effect_all-ReadsAll us v t' hs step.valid (rw (effect_all, f) at e) in
        record {
          gauges = λ n. rest.gauges n ∙ ap (gauge_after_all n us) (step.gauges n);
          counters = λ n. rest.counters n ∙ ap (counter_after_all n us) (step.counters n);
          valid = rest.valid;
        }
  ]

  statement-gauge :
      (m : Metrics F) (u : Update F) (v : F)
      → update_of m ≡ some u
      → m.mtype ≡ gauge
      → m.value ≡ some v
      → upsert_gauge m.id v ≡ statement u
  statement-gauge m u v e t value =
      let same : set_gauge m.id v ≡ u = cc (e, update_of-gauge m v t value) in ap statement same

  statement-counter :
      (m : Metrics F) (u : Update F) (d : ℕ)
      → update_of m ≡ some u
      → m.mtype ≡ counter
      → m.delta ≡ some d
      → upsert_counter m.id d ≡ statement u
  statement-counter m u d e t delta =
      let same : add_counter m.id d ≡ u = cc (e, update_of-counter m d t delta) in ap statement same

  update_of-no_value :
      (m : Metrics F) (u : Update F) → update_of m ≡ some u → m.mtype ≡ gauge → m.value ≢ none
  unfolding update_of
  update_of-no_value m u e t value = let f = rw (t, value) at e in cc f

  update_of-no_delta :
      (m : Metrics F) (u : Update F) → update_of m ≡ some u → m.mtype ≡ counter → m.delta ≢ none
  unfolding update_of
  update_of-no_delta m u e t delta = let f = rw (t, delta) at e in cc f

  Wants-statements :
      (ms : List (Metrics F)) (us : List (Update F)) (ss : List (Statement F))
      → Asks ms us
      → Wants ms ss
      → ss ≡ statements us
  Wants-statements _ _ _ Asks.nothing Wants.nothing = refl
  Wants-statements _ _ _ (more {m} {u} {ms} {us} e asks) (gauge_set {ss} {v} t value wants) =
      rw (← statement-gauge m u v e t value, Wants-statements ms us ss asks wants) refl
  Wants-statements _ _ _ (more {m} {u} {ms} {us} e asks) (counter_added {ss} {d} t delta wants) =
      rw (← statement-counter m u d e t delta, Wants-statements ms us ss asks wants) refl
  Wants-statements _ _ _ (more {m} {u} e asks) (no_value t value wants) =
      absurd (update_of-no_value m u e t value)
  Wants-statements _ _ _ (more {m} {u} e asks) (no_delta t delta wants) =
      absurd (update_of-no_delta m u e t delta)

module _ {F W : Type 0} (pg : Pg F W) (table pending : W → Table F)
    (laws : IsPostgres pg table pending) where
  -- A batch of gauges and counters that all have their values, from a table in which counters have
  -- int64 values: after a success every name reads as after the updates of the batch, one behind the
  -- other, which is what MemStorage makes of them, and after an error the table is as before. No commit
  -- that returns an error has been carried out.
  pub update_batch-ReadsAll :
      (ms : List (Metrics F)) (us : List (Update F)) (w : W)
      → FailsCleanly pg table
      → Asks ms us
      → All InRange us
      → IsValid (table w)
      → Ends (λ v. table v ≡ table w) (λ v. ReadsAll us (table w) (table v)) (update_batch pg ms w)
  update_batch-ReadsAll ms us w clean asks ranges valid =
      Ends-map (update_batch pg ms w) (λ v same. same)
        (λ v (ss, wants, e).
          effect_all-ReadsAll us (table w) (table v) ranges valid
            (rw (Wants-statements ms us ss asks wants) at e))
        (update_batch-Once pg table pending laws ms w clean)
