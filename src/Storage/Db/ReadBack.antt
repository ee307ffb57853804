-- ===== src/Storage/Db/ReadBack.antt =====
-- database.go, `GetGauge` and `GetCounter`: they return what is in the table.
use go_metrics.Common.{ℕ, String, ◌≡◌, refl, ◌∙◌, ap, sym, ◌⊎◌, inl, inr, none, List, All, arith}
use go_metrics.Models.{Metrics}
use go_metrics.Storage.{Result, ok}
use go_metrics.Storage.Updates.{Update, Asks, counter_after_all}
use go_metrics.Retry.{
  GoError, Env, Outcome, success, failed, panicked, default_retry_config, retry, with_variable,
}
use go_metrics.Retry.Rule.{Ends, Ends-success, retry-Ends}
use go_metrics.Storage.Db.{Answer, answer, error, Pg, update_batch}
use go_metrics.Storage.Db.Table.{Table}
use go_metrics.Storage.Db.Reads.{result_of, scan_into, get_gauge, get_counter}
use go_metrics.Storage.Db.Specification.{IsPostgres, FailsCleanly, IsValid, gauge_in, counter_in}
use go_metrics.Storage.Db.Readings.{InRange}
use go_metrics.Storage.Db.Refinement.{update_batch-ReadsAll}

Answer-cases :
    {A : Type 0} (r : Answer A) → ((a : A) × (r ≡ answer a)) ⊎ ((e : GoError) × (r ≡ error e))
Answer-cases (answer a) = inl (a, refl)
Answer-cases (error e) = inr (e, refl)

module _ {A T W : Type 0} (table : W → T) (query : W → Answer A × W) (reading : T → Result A)
    (kept : (w : W) → table (query w).1 ≡ table w)
    (right : (w : W) (a : A) → (query w).0 ≡ answer a → reading (table w) ≡ ok a) where
  scan_kept : (s : A × W) → table (scan_into query s).1.1 ≡ table s.1
  scan_kept s = elim (Answer-cases (query s.1).0) [
    | inl (a, e) ↦ rw (scan_into, e) (kept s.1)
    | inr (x, e) ↦ rw (scan_into, e) (kept s.1)
  ]

  scan_done :
      (s : A × W) → (scan_into query s).0 ≡ none → reading (table s.1) ≡ ok (scan_into query s).1.0
  scan_done s done = elim (Answer-cases (query s.1).0) [
    | inl (a, e) ↦ rw (scan_into, e) (right s.1 a e)
    | inr (x, e) ↦ let f = rw (scan_into, e) at done in cc f
  ]

  -- The variable that `Retry` leaves is the reading, if it succeeds.
  retry_scan-Ends :
      (env : Env W) (old : A) (w : W)
      → ((d : ℕ) (v : W) → table (env.wait d v).1 ≡ table v)
      → Ends
          (λ (s : A × W). table s.1 ≡ table w)
          (λ (s : A × W). reading (table w) ≡ ok s.0)
          (retry (with_variable env) default_retry_config (scan_into query) (old, w))
  retry_scan-Ends env old w waits =
      retry-Ends (with_variable env) default_retry_config (scan_into query)
        (λ (s : A × W). table s.1 ≡ table w) (λ (s : A × W). reading (table w) ≡ ok s.0)
        (record {
          failing = λ s e same fails. scan_kept s ∙ same;
          waiting = λ d s same. waits d s.1 ∙ same;
          succeeding = λ s same done. ap reading (sym same) ∙ scan_done s done;
        })
        (old, w) (omega arith) refl

result_of-success :
    {A W : Type 0} (P : A × W → Type 0) (r : Result A) (zero_value : A) (prefix : String)
    (out : Outcome × (A × W))
    → Ends P (λ (s : A × W). r ≡ ok s.0) out
    → (result_of zero_value prefix out).0.1 ≡ success
    → r ≡ ok (result_of zero_value prefix out).0.0
result_of-success P r z prefix (success, (a, w)) h e = h
result_of-success P r z prefix (failed x, (a, w)) h e = cc e
result_of-success P r z prefix (panicked, (a, w)) h e = cc e

module _ {F W : Type 0} (pg : Pg F W) (table pending : W → Table F)
    (laws : IsPostgres pg table pending) where
  pub get_gauge-reads :
      (zero_value : F) (n : String) (w : W)
      → (get_gauge pg zero_value n w).0.1 ≡ success
      → gauge_in n (table w) ≡ ok (get_gauge pg zero_value n w).0.0
  unfolding get_gauge
  get_gauge-reads zero_value n w done =
      result_of-success (λ (s : F × W). table s.1 ≡ table w) (gauge_in n (table w)) zero_value _ _
        (retry_scan-Ends table (pg.select_gauge n) (gauge_in n) (laws.select_gauge_kept n)
          (laws.select_gauge_done n) (pg.within 10 w) zero_value w (λ d v. laws.wait_kept 10 d w v))
        done

  pub get_counter-reads :
      (n : String) (w : W)
      → (get_counter pg n w).0.1 ≡ success
      → counter_in n (table w) ≡ ok (get_counter pg n w).0.0
  unfolding get_counter
  get_counter-reads n w done =
      result_of-success (λ (s : ℕ × W). table s.1 ≡ table w) (counter_in n (table w)) 0 _ _
        (retry_scan-Ends table (pg.select_counter n) (counter_in n) (laws.select_counter_kept n)
          (laws.select_counter_done n) (pg.within 10 w) 0 w (λ d v. laws.wait_kept 10 d w v))
        done

  -- After an UpdateBatch that succeeds, a GetCounter that succeeds returns what the updates of the
  -- batch, one by one, make of the counter that was in the table. The batch has gauges and counters
  -- that all have their values, counters are int64 values, and no commit that returns an error has
  -- been carried out.
  pub get_counter-update_batch :
      (ms : List (Metrics F)) (us : List (Update F)) (n : String) (w : W)
      → FailsCleanly pg table
      → Asks ms us
      → All InRange us
      → IsValid (table w)
      → (update_batch pg ms w).0 ≡ success
      → (get_counter pg n (update_batch pg ms w).1).0.1 ≡ success
      → ok (get_counter pg n (update_batch pg ms w).1).0.0
        ≡ counter_after_all n us (counter_in n (table w))
  get_counter-update_batch ms us n w clean asks ranges valid stored found =
      let after = update_batch-ReadsAll pg table pending laws ms us w clean asks ranges valid in
      sym (get_counter-reads n (update_batch pg ms w).1 found)
      ∙ (Ends-success _ _ (update_batch pg ms w) after stored).counters n
