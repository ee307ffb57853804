-- ===== src/Storage/Db/Single.antt =====
-- database.go, `UpdateGauge` and `UpdateCounter`: what the retried statement leaves in the table.
use go_metrics.Common.{
  ℕ, zero, suc, ◌^◌, ◌<◌, String, ◌≡◌, refl, ap, ◌∙◌, ◌⊎◌, inl, inr, Option, none, some, [], ◌∷◌,
  arith, Bool-cases, ◌==◌,
}
use go_metrics.Storage.{gauge}
use go_metrics.Storage.Updates.{add_counter, counter_after, counter_after_all}
use go_metrics.Retry.{GoError, Outcome, success, failed, panicked, default_retry_config, retry, Env}
use go_metrics.Retry.Rounds.{FailedRound, again_lem}
use go_metrics.Retry.Laws.{last_call}
use go_metrics.Retry.Rule.{Ends, Ends-map}
use go_metrics.Storage.Db.{Pg, update_gauge, update_counter}
use go_metrics.Storage.Db.Table.{
  Row, Table, Statement, upsert_gauge, upsert_counter, put, gauge_row,
}
use go_metrics.Storage.Db.Specification.{
  IsPostgres, IsValid, Does, Times, never, once_more, counter_in,
}
use go_metrics.Storage.Db.Delivery.{Performs, retry-AtLeastOnce}
use go_metrics.Storage.Db.Readings.{put_same, effect-upsert_gauge, effect_Reads}

-- What holds of the world after every outcome.
Ends_all : {W : Type 0} (P : W → Type 0) (out : Outcome × W) → Ends P P out → P out.1
Ends_all P (success, w) h = h
Ends_all P (failed e, w) h = h
Ends_all P (panicked, w) h = h

module _ {F : Type 0} where
  gauge_row_twice :
      (v : F) (o : Option (Row F)) → gauge_row v (some (gauge_row v o)) ≡ gauge_row v o
  gauge_row_twice v none = refl
  gauge_row_twice v (some r) = refl

  put_twice :
      (k kind : String) (r : Row F) (t : Table F) (n other : String)
      → put k kind r (put k kind r t) n other ≡ put k kind r t n other
  put_twice k kind r t n other = elim (Bool-cases (k == n)) [
    | inr e ↦ rw e refl
    | inl e ↦ elim (Bool-cases (kind == other)) [ inl f ↦ rw (e, f) refl | inr f ↦ rw (e, f) refl ]
  ]

  upsert_gauge_twice :
      (k : String) (v : F) (t u u' : Table F)
      → Does (upsert_gauge k v) t u
      → Does (upsert_gauge k v) u u'
      → u' ≡ u
  upsert_gauge_twice k v t u u' e f =
      let r : Row F = gauge_row v (t k gauge) in
      let eu : u ≡ put k gauge r t = effect-upsert_gauge k v t u e in
      let row : gauge_row v (u k gauge) ≡ r =
        rw (eu, put_same k gauge r t) (gauge_row_twice v (t k gauge)) in
      let again : put k gauge r (put k gauge r t) ≡ put k gauge r t =
        λ i n other. put_twice k gauge r t n other i in
      rw (effect-upsert_gauge k v u u' f, row, eu) again

  -- A gauge that is set again and again is set once.
  Times-upsert_gauge :
      (k : String) (v : F) (m : ℕ) (t u : Table F)
      → Times (Does (upsert_gauge k v)) m t u
      → (u ≡ t) ⊎ Does (upsert_gauge k v) t u
  Times-upsert_gauge k v zero t u never = inl refl
  Times-upsert_gauge k v (suc m) t u (once_more {b} times e) =
      elim (Times-upsert_gauge k v m t b times) [
        | inl same ↦ inr (rw same at e)
        | inr done ↦ inr (rw (upsert_gauge_twice k v t b u done e) done)
      ]

module _ {F W : Type 0} (pg : Pg F W) (table pending : W → Table F)
    (laws : IsPostgres pg table pending) where
  exec-Performs : (s : Statement F) → Performs table (Does s) (pg.exec s)
  exec-Performs s = record { done = laws.exec_done s; unsure = laws.exec_failed s }

  abbrev exec_retried : Statement F → W → Outcome × W
  exec_retried s w = retry (pg.within 10 w) default_retry_config (pg.exec s) w

  exec_Times :
      (s : Statement F) (w : W) → (k : ℕ) × Times (Does s) k (table w) (table (exec_retried s w).1)
  exec_Times s w =
      Ends_all (λ v. (k : ℕ) × Times (Does s) k (table w) (table v)) (exec_retried s w)
        (Ends-map (exec_retried s w) (λ v h. h) (λ v (k, times). (suc k, times))
          (retry-AtLeastOnce table (Does s) (pg.within 10 w) default_retry_config (pg.exec s) w
            (exec-Performs s) (λ d v. laws.wait_kept 10 d w v) (omega arith)))

  -- `UpdateGauge` leaves the table as it was or with the gauge set, however many of its attempts have
  -- been carried out: an attempt whose answer was lost does no harm.
  pub update_gauge_settles :
      (name : String) (v : F) (w : W)
      → (table (update_gauge pg name v w).1 ≡ table w)
        ⊎ Does (upsert_gauge name v) (table w) (table (update_gauge pg name v w).1)
  unfolding update_gauge
  update_gauge_settles name v w =
      let (k, times) = exec_Times (upsert_gauge name v) w in
      Times-upsert_gauge name v k (table w) _ times

  retry_second :
      (env : Env W) (fn : W → Option GoError × W) (w v : W)
      → FailedRound env default_retry_config fn 0 w v
      → env.ctx_err v ≡ none
      → (fn v).0 ≡ none
      → retry env default_retry_config fn w ≡ (success, (fn v).1)
  unfolding retry
  retry_second env fn w v f live second =
      again_lem env default_retry_config fn 3 0 none w v f
      ∙ last_call env default_retry_config fn 2 1 (some f.error) v (fn v).1 live
          (ground (arith, second))

  -- `UpdateCounter` adds twice where the answer to the first attempt was lost: its first Exec is
  -- carried out, returns an error that is retried, and the second is carried out and succeeds. The
  -- table's counters have int64 values, as has the added one.
  pub update_counter_doubles :
      (name : String) (d : ℕ) (w v : W)
      → IsValid (table w)
      → d < 2 ^ 64
      → FailedRound (pg.within 10 w) default_retry_config (pg.exec (upsert_counter name d)) 0 w v
      → Does (upsert_counter name d) (table w) (table (pg.exec (upsert_counter name d) w).1)
      → (pg.within 10 w).ctx_err v ≡ none
      → (pg.exec (upsert_counter name d) v).0 ≡ none
      → ((update_counter pg name d w).0 ≡ success)
        × (counter_in name (table (update_counter pg name d w).1)
            ≡ counter_after_all {F = F} name
                (add_counter name d ∷ add_counter name d ∷ [])
                (counter_in name (table w)))
  unfolding update_counter
  update_counter_doubles name d w v valid range f first live second =
      let s : Statement F = upsert_counter name d in
      let t : Table F = table (pg.exec s w).1 in
      let same = retry_second (pg.within 10 w) (pg.exec s) w v f live second in
      let waited : table v ≡ t = rw (← f.after) (laws.wait_kept 10 f.delay w (pg.exec s w).1) in
      let acknowledged = laws.exec_done s v second in
      let one = effect_Reads (add_counter name d) (table w) t range valid first in
      let two =
        effect_Reads (add_counter name d) t (table (pg.exec s v).1) range one.valid
          (rw waited at acknowledged) in
      rw same (
        refl,
        two.counters name
            ∙ ap (counter_after {F = F} name (add_counter name d)) (one.counters name),
      )
